-- ===== src/Forwarding.antt =====
-- kira-r2kad/src/domain/protocol_event/forwarding.rs and kira-forwarding/src/tables/mod.rs: the entries of
-- the forwarding tables, the requests to change them and their handler over any tables. A PathId and an
-- UnderlayNeighborId are numbers: they are only compared and passed on.
pub mod InMemory
pub mod Refinement
mod Tests
use kira_rust.Prelude.{
  ℕ, zero, suc, ◌+◌, ◌-◌, ◌*◌, ◌/◌, ◌%◌, ◌^◌, ◌≤◌, ◌<◌, min, max, dec_lt, dec_le, ℕ_discrete, ◌≡◌,
  refl, sym, ap, ◌∙◌, subst, ◌≢◌, ◌↔◌, ◌⊎◌, inl, inr, Bool, true, false, ◌&&◌, ◌||◌, not, Option,
  none, some, List, [], ◌∷◌, ◌++◌, map, arith, ltb, leb, ◌==◌, if◌then◌else◌, is_some, ltb→lt,
  lt→ltb, ==→eq, ==_self, ==_ne, Bool-cases, Option-cases, length, get_elem?, take, drop,
  length-append, length-drop-le, take-length_append, drop-length_append, contains, contains-append,
  length-take, length-drop, take-append-drop, get_elem?-inside, get_elem?-outside, set, set_self,
  length-set, get_elem?-set, get_elem?-some_lt, get_elem?-append, replicate, length-replicate,
  get_elem?-replicate, Result-cases, unwrap, Outcome, Outcome-cases, returns, panics, Result, ok,
  err, ◌>>=◌, ◌>>◌, assert, expect, Ordering, less, equal, greater, cmp, flip,
}
use kira_rust.NodeId.{NodeIdSubnet}

pub record NodeIdForwardingEntry : Type 0 where
  pub destination : NodeIdSubnet
  pub next_hop : ℕ

pub record NodeIdEncapsulationEntry : Type 0 where
  pub destination : NodeIdSubnet
  pub out_path_id : ℕ
  pub next_hop : ℕ

pub data NodeIdEntry : Type 0 where
  forward : NodeIdForwardingEntry → NodeIdEntry
  encapsulate : NodeIdEncapsulationEntry → NodeIdEntry

unfoldable pub destination : NodeIdEntry → NodeIdSubnet
destination (forward e) = e.destination
destination (encapsulate e) = e.destination

unfoldable pub node_out_path_id : NodeIdEntry → Option ℕ
node_out_path_id (forward e) = none
node_out_path_id (encapsulate e) = some e.out_path_id

pub data DecapsulationDestination : Type 0 where
  local : DecapsulationDestination
  underlay_neighbor : ℕ → DecapsulationDestination

pub record PathIdForwardingEntry : Type 0 where
  pub in_path_id : ℕ
  pub out_path_id : ℕ
  pub next_hop : ℕ

pub record PathIdDecapsulationEntry : Type 0 where
  pub in_path_id : ℕ
  pub next_hop : DecapsulationDestination

pub data PathIdEntry : Type 0 where
  forward_path : PathIdForwardingEntry → PathIdEntry
  decapsulate : PathIdDecapsulationEntry → PathIdEntry

unfoldable pub in_path_id : PathIdEntry → ℕ
in_path_id (forward_path e) = e.in_path_id
in_path_id (decapsulate e) = e.in_path_id

unfoldable pub out_path_id : PathIdEntry → Option ℕ
out_path_id (forward_path e) = some e.out_path_id
out_path_id (decapsulate e) = none

pub data NodeIdTableUpdate : Type 0 where
  create update create_or_update : NodeIdEntry → NodeIdTableUpdate
  remove : NodeIdSubnet → NodeIdTableUpdate

pub data PathIdTableUpdate : Type 0 where
  create_path update_path create_or_update_path : PathIdEntry → PathIdTableUpdate
  remove_path : ℕ → PathIdTableUpdate

pub data ForwardingTablesUpdate : Type 0 where
  node_id_table_update : NodeIdTableUpdate → ForwardingTablesUpdate
  path_id_table_update : PathIdTableUpdate → ForwardingTablesUpdate

-- The traits AsyncNodeIdTable and AsyncPathIdTable: `Entry` is what a table holds under a `Key`.
pub record AsyncTable (FT Entry Key E : Type 0) : Type 0 where
  pub create : FT → Entry → FT × Result (Unit {0}) E
  pub update : FT → Entry → FT × Result (Unit {0}) E
  pub create_or_update : FT → Entry → FT × Result (Unit {0}) E
  pub remove : FT → Key → FT × Result (Option Entry) E

-- AsyncForwardingTables, with one type of errors.
pub record AsyncForwardingTables (FT E : Type 0) : Type 0 where
  pub node_id_table : AsyncTable FT NodeIdEntry NodeIdSubnet E
  pub path_id_table : AsyncTable FT PathIdEntry ℕ E

-- `map(|_| ())` on the result of a removal.
abbrev pub forget : {FT Entry E : Type 0} → FT × Result (Option Entry) E → FT × Result (Unit {0}) E
forget (tables, ok removed) = (tables, ok tt)
forget (tables, err e) = (tables, err e)

module _ {FT E : Type 0} (table : AsyncForwardingTables FT E) where
  unfoldable pub handle_node_id_update : FT → NodeIdTableUpdate → FT × Result (Unit {0}) E
  handle_node_id_update tables (create entry) = table.node_id_table.create tables entry
  handle_node_id_update tables (update entry) = table.node_id_table.update tables entry
  handle_node_id_update tables (create_or_update entry) =
      table.node_id_table.create_or_update tables entry
  handle_node_id_update tables (remove subnet) = forget (table.node_id_table.remove tables subnet)

  unfoldable pub handle_path_id_update : FT → PathIdTableUpdate → FT × Result (Unit {0}) E
  handle_path_id_update tables (create_path entry) = table.path_id_table.create tables entry
  handle_path_id_update tables (update_path entry) = table.path_id_table.update tables entry
  handle_path_id_update tables (create_or_update_path entry) =
      table.path_id_table.create_or_update tables entry
  handle_path_id_update tables (remove_path id) = forget (table.path_id_table.remove tables id)

  unfoldable pub handle_r2kad_request : FT → ForwardingTablesUpdate → FT × Result (Unit {0}) E
  unfolding handle_node_id_update handle_path_id_update
  handle_r2kad_request tables (node_id_table_update u) = handle_node_id_update tables u
  handle_r2kad_request tables (path_id_table_update u) = handle_path_id_update tables u
