-- ===== src/Forwarding/Refinement.antt =====
-- The forwarding tables in memory implement two partial functions, request by request.
use kira_rust.Prelude.{
  ℕ, ◌≡◌, refl, ap, ◌∙◌, inl, inr, Option, none, some, List, [], ◌∷◌, arith, ◌==◌, if◌then◌else◌,
  ==→eq, Option-cases, Result, ok, err,
}
use kira_rust.HashMap
use kira_rust.Forwarding.{
  NodeIdEntry, PathIdEntry, NodeIdTableUpdate, PathIdTableUpdate, ForwardingTablesUpdate,
  node_id_table_update, path_id_table_update, create, update, create_or_update, remove, create_path,
  update_path, create_or_update_path, remove_path, destination, in_path_id, handle_r2kad_request,
}
use kira_rust.Forwarding.InMemory
use kira_rust.Forwarding.InMemory.{
  InMemoryFwdTables, FwdTableError, entry_already_exists, entry_missing, subnet_key,
  forwarding_tables, create_node, update_node, create_or_update_node, remove_node,
}

-- What a table is to its users: an entry for every key.
pub record Tables : Type 0 where
  pub nodes : ℕ → Option NodeIdEntry
  pub paths : ℕ → Option PathIdEntry

-- A request to one table: what it does to the entry of its key, and what it reports.
pub data Request {ℓ} (Entry : Type ℓ) : Type ℓ where
  creates updates sets : Entry → Request Entry
  removes : Request Entry

module _ {ℓ} {Entry : Type ℓ} where
  abbrev pub entry_after : Request Entry → Option Entry → Option Entry
  entry_after (creates e) none = some e
  entry_after (creates e) (some old) = some old
  entry_after (updates e) none = none
  entry_after (updates e) (some old) = some e
  entry_after (sets e) old = some e
  entry_after removes old = none

  abbrev pub report : Request Entry → Option Entry → Result (Unit {0}) FwdTableError
  report (creates e) none = ok tt
  report (creates e) (some old) = err entry_already_exists
  report (updates e) none = err entry_missing
  report (updates e) (some old) = ok tt
  report (sets e) old = ok tt
  report removes old = ok tt

  abbrev pub written : (ℕ → Option Entry) → ℕ → Request Entry → ℕ → Option Entry
  written table key request k = if key == k then entry_after request (table key) else table k

abbrev pub node_request : NodeIdTableUpdate → ℕ × Request NodeIdEntry
node_request (create e) = (subnet_key (destination e), creates e)
node_request (update e) = (subnet_key (destination e), updates e)
node_request (create_or_update e) = (subnet_key (destination e), sets e)
node_request (remove subnet) = (subnet_key subnet, removes)

abbrev pub path_request : PathIdTableUpdate → ℕ × Request PathIdEntry
path_request (create_path e) = (in_path_id e, creates e)
path_request (update_path e) = (in_path_id e, updates e)
path_request (create_or_update_path e) = (in_path_id e, sets e)
path_request (remove_path id) = (id, removes)

abbrev pub tables_after : ForwardingTablesUpdate → Tables → Tables
tables_after (node_id_table_update u) t = record t {
  nodes = written t.nodes (node_request u).0 (node_request u).1;
}
tables_after (path_id_table_update u) t = record t {
  paths = written t.paths (path_request u).0 (path_request u).1;
}

abbrev pub reports : ForwardingTablesUpdate → Tables → Result (Unit {0}) FwdTableError
reports (node_id_table_update u) t = report (node_request u).1 (t.nodes (node_request u).0)
reports (path_id_table_update u) t = report (path_request u).1 (t.paths (path_request u).0)

-- The tables in memory stand for the functions.
pub record Represents (m : InMemoryFwdTables) (t : Tables) : Type 0 where
  pub nodes_same : (k : ℕ) → HashMap.get m.node_id_map k ≡ t.nodes k
  pub paths_same : (k : ℕ) → HashMap.get m.path_id_map k ≡ t.paths k

-- The map after each request, through its lookups.
module _ {ℓ} {Entry : Type ℓ} (m : HashMap.HashMap Entry) (key : ℕ) (e : Entry) (k : ℕ) where
  created :
      HashMap.get m key ≡ none
      → HashMap.get (HashMap.insert m key e) k ≡ written (HashMap.get m) key (creates e) k
  created h = ground (arith, h, HashMap.get-insert m key k e)

  overwritten :
      (old : Entry)
      → HashMap.get m key ≡ some old
      → HashMap.get (HashMap.modify m key (λ o. e)) k ≡ written (HashMap.get m) key (sets e) k
  overwritten old h = ground (arith, h, ==→eq key k, HashMap.get-modify m key k (λ o. e))

  updated :
      (old : Entry)
      → HashMap.get m key ≡ some old
      → HashMap.get (HashMap.modify m key (λ o. e)) k ≡ written (HashMap.get m) key (updates e) k
  updated old h = ground (arith, h, ==→eq key k, HashMap.get-modify m key k (λ o. e))

  refused :
      (request : Request Entry)
      → entry_after request (HashMap.get m key) ≡ HashMap.get m key
      → HashMap.get m k ≡ written (HashMap.get m) key request k
  refused request h = ground (arith, h, ==→eq key k)

  inserted : HashMap.get (HashMap.insert m key e) k ≡ written (HashMap.get m) key (sets e) k
  inserted = HashMap.get-insert m key k e

removed :
    {Entry : Type 0} (m : HashMap.HashMap Entry) (key k : ℕ)
    → HashMap.get (HashMap.remove m key) k ≡ written (HashMap.get m) key removes k
removed m key k = HashMap.get-remove m key k

-- The tables of a state.
abbrev pub tables_of : InMemoryFwdTables → Tables
tables_of m = record { nodes = HashMap.get m.node_id_map; paths = HashMap.get m.path_id_map }

-- One request does to the lookups what it does to the functions, and reports the same.
abbrev pub Implements : InMemoryFwdTables → ForwardingTablesUpdate → Type 0
Implements m u =
    ((handle_r2kad_request forwarding_tables m u).1 ≡ reports u (tables_of m))
    × Represents (handle_r2kad_request forwarding_tables m u).0 (tables_after u (tables_of m))

node_step : (m : InMemoryFwdTables) (u : NodeIdTableUpdate) → Implements m (node_id_table_update u)
unfolding handle_r2kad_request InMemory.create_node InMemory.update_node
    InMemory.create_or_update_node InMemory.remove_node
node_step m (create e) =
    elim (Option-cases (HashMap.get m.node_id_map (subnet_key (destination e)))) [
      | inl h ↦ rw h (
        refl,
        record {
          nodes_same = λ k. created m.node_id_map (subnet_key (destination e)) e k h;
          paths_same = λ k. refl;
        },
      )
      | inr (old, h) ↦ rw h (
        refl,
        record {
          nodes_same =
              λ k. refused m.node_id_map (subnet_key (destination e)) e k (creates e) (rw h refl);
          paths_same = λ k. refl;
        },
      )
    ]
node_step m (update e) =
    elim (Option-cases (HashMap.get m.node_id_map (subnet_key (destination e)))) [
      | inl h ↦ rw h (
        refl,
        record {
          nodes_same =
              λ k. refused m.node_id_map (subnet_key (destination e)) e k (updates e) (rw h refl);
          paths_same = λ k. refl;
        },
      )
      | inr (old, h) ↦ rw h (
        refl,
        record {
          nodes_same = λ k. updated m.node_id_map (subnet_key (destination e)) e k old h;
          paths_same = λ k. refl;
        },
      )
    ]
node_step m (create_or_update e) =
    elim (Option-cases (HashMap.get m.node_id_map (subnet_key (destination e)))) [
      | inl h ↦ rw h (
        refl,
        record {
          nodes_same = λ k. inserted m.node_id_map (subnet_key (destination e)) e k;
          paths_same = λ k. refl;
        },
      )
      | inr (old, h) ↦ rw h (
        refl,
        record {
          nodes_same = λ k. overwritten m.node_id_map (subnet_key (destination e)) e k old h;
          paths_same = λ k. refl;
        },
      )
    ]
node_step m (remove subnet) = (
  refl,
  record { nodes_same = λ k. removed m.node_id_map (subnet_key subnet) k; paths_same = λ k. refl },
)

path_step : (m : InMemoryFwdTables) (u : PathIdTableUpdate) → Implements m (path_id_table_update u)
unfolding handle_r2kad_request InMemory.create_path InMemory.update_path
    InMemory.create_or_update_path InMemory.remove_path
path_step m (create_path e) = elim (Option-cases (HashMap.get m.path_id_map (in_path_id e))) [
  | inl h ↦ rw h (
    refl,
    record { paths_same = λ k. created m.path_id_map (in_path_id e) e k h; nodes_same = λ k. refl },
  )
  | inr (old, h) ↦ rw h (
    refl,
    record {
      paths_same = λ k. refused m.path_id_map (in_path_id e) e k (creates e) (rw h refl);
      nodes_same = λ k. refl;
    },
  )
]
path_step m (update_path e) = elim (Option-cases (HashMap.get m.path_id_map (in_path_id e))) [
  | inl h ↦ rw h (
    refl,
    record {
      paths_same = λ k. refused m.path_id_map (in_path_id e) e k (updates e) (rw h refl);
      nodes_same = λ k. refl;
    },
  )
  | inr (old, h) ↦ rw h (
    refl,
    record {
      paths_same = λ k. updated m.path_id_map (in_path_id e) e k old h;
      nodes_same = λ k. refl;
    },
  )
]
path_step m (create_or_update_path e) =
    elim (Option-cases (HashMap.get m.path_id_map (in_path_id e))) [
      | inl h ↦ rw h (
        refl,
        record {
          paths_same = λ k. inserted m.path_id_map (in_path_id e) e k;
          nodes_same = λ k. refl;
        },
      )
      | inr (old, h) ↦ rw h (
        refl,
        record {
          paths_same = λ k. overwritten m.path_id_map (in_path_id e) e k old h;
          nodes_same = λ k. refl;
        },
      )
    ]
path_step m (remove_path id) =
    (refl, record { paths_same = λ k. removed m.path_id_map (id) k; nodes_same = λ k. refl })

-- The written entry depends only on the values of the table.
written_same :
    {Entry : Type 0} (f g : ℕ → Option Entry) (key : ℕ) (request : Request Entry)
    → ((k : ℕ) → f k ≡ g k)
    → (k : ℕ) → written f key request k ≡ written g key request k
written_same f g key request h k = rw (h key, h k) refl

tables_after_same :
    (m : InMemoryFwdTables) (t : Tables) (u : ForwardingTablesUpdate) (m' : InMemoryFwdTables)
    → Represents m t
    → Represents m' (tables_after u (tables_of m))
    → (reports u (tables_of m) ≡ reports u t) × Represents m' (tables_after u t)
tables_after_same m t (node_id_table_update u) m' v w = (
  ap (report (node_request u).1) (v.nodes_same (node_request u).0),
  record {
    nodes_same = λ k.
        w.nodes_same k
        ∙ written_same (HashMap.get m.node_id_map) t.nodes (node_request u).0 (node_request u).1
            v.nodes_same k;
    paths_same = λ k. w.paths_same k ∙ v.paths_same k;
  },
)
tables_after_same m t (path_id_table_update u) m' v w = (
  ap (report (path_request u).1) (v.paths_same (path_request u).0),
  record {
    nodes_same = λ k. w.nodes_same k ∙ v.nodes_same k;
    paths_same = λ k.
        w.paths_same k
        ∙ written_same (HashMap.get m.path_id_map) t.paths (path_request u).0 (path_request u).1
            v.paths_same k;
  },
)

-- A request, in any state.
handle_lem :
    (m : InMemoryFwdTables) (t : Tables) (u : ForwardingTablesUpdate)
    → Represents m t
    → ((handle_r2kad_request forwarding_tables m u).1 ≡ reports u t)
      × Represents (handle_r2kad_request forwarding_tables m u).0 (tables_after u t)
handle_lem m t u v =
    let (e, w) = implements u in
    let (same, r) = tables_after_same m t u (handle_r2kad_request forwarding_tables m u).0 v w in
    (e ∙ same, r)
  where
    implements : (u : ForwardingTablesUpdate) → Implements m u
    implements (node_id_table_update n) = node_step m n
    implements (path_id_table_update n) = path_step m n

-- The results of a sequence of requests, and the tables in the end.
abbrev pub handle_all :
    InMemoryFwdTables
    → List ForwardingTablesUpdate
    → InMemoryFwdTables × List (Result (Unit {0}) FwdTableError)
handle_all m [] = (m, [])
handle_all m (u ∷ us) =
    let (m', result) = handle_r2kad_request forwarding_tables m u in
    let (m'', results) = handle_all m' us in (m'', result ∷ results)

abbrev pub all_after : List ForwardingTablesUpdate → Tables → Tables
all_after [] t = t
all_after (u ∷ us) t = all_after us (tables_after u t)

abbrev pub all_reports :
    List ForwardingTablesUpdate → Tables → List (Result (Unit {0}) FwdTableError)
all_reports [] t = []
all_reports (u ∷ us) t = reports u t ∷ all_reports us (tables_after u t)

-- The tables in memory implement the abstract tables: for every sequence of requests, each request is
-- accepted or refused as in the abstract tables, and in the end every lookup gives the
-- abstract entry. A request changes the entry of its own key in its own table only; a creation
-- of an entry that is there and an update of one that is not are refused without a change.
pub handle_all_refines :
    (us : List ForwardingTablesUpdate) (m : InMemoryFwdTables) (t : Tables)
    → Represents m t
    → ((handle_all m us).1 ≡ all_reports us t) × Represents (handle_all m us).0 (all_after us t)
handle_all_refines [] m t v = (refl, v)
handle_all_refines (u ∷ us) m t v =
    let (e, w) = handle_lem m t u v in
    let (same, r) =
      handle_all_refines us (handle_r2kad_request forwarding_tables m u).0 (tables_after u t) w in
    (rw (e, same) refl, r)
