-- ===== src/Forwarding/InMemory.antt =====
-- kira-forwarding/src/tables/in_memory_tables.rs: the forwarding tables as two hash maps.
use kira_rust.Prelude.{ℕ, ◌+◌, ◌*◌, Option, List, [], ◌∷◌, if◌then◌else◌, is_some, Result, ok, err}
use kira_rust.HashMap
use kira_rust.HashMap.{HashMap}
use kira_rust.NodeId.{NodeIdSubnet, new_subnet}
use kira_rust.Forwarding.{NodeIdEntry, PathIdEntry, destination, in_path_id, AsyncForwardingTables}

pub data FwdTableError : Type 0 where
  entry_already_exists entry_missing : FwdTableError

-- A subnet as a key: the prefix length is a `u8`.
abbrev pub subnet_key : NodeIdSubnet → ℕ
subnet_key s = s.node_id * 256 + s.prefix_length

pub record InMemoryFwdTables : Type 0 where
  pub node_id_map : HashMap NodeIdEntry
  pub path_id_map : HashMap PathIdEntry

unfoldable pub node_id_entry : InMemoryFwdTables → ℕ → Option NodeIdEntry
node_id_entry t node_id = HashMap.get t.node_id_map (subnet_key (new_subnet node_id))

unfoldable pub path_id_entry : InMemoryFwdTables → ℕ → Option PathIdEntry
path_id_entry t path_id = HashMap.get t.path_id_map path_id

abbrev pub node_key : NodeIdEntry → ℕ
unfolding destination
node_key entry = subnet_key (destination entry)

unfoldable pub create_node :
    InMemoryFwdTables → NodeIdEntry → InMemoryFwdTables × Result (Unit {0}) FwdTableError
create_node t entry =
    if HashMap.contains_key t.node_id_map (subnet_key (destination entry))
    then (t, err entry_already_exists)
    else (
      record t {
        node_id_map = HashMap.insert t.node_id_map (subnet_key (destination entry)) entry;
      },
      ok tt,
    )

unfoldable pub update_node :
    InMemoryFwdTables → NodeIdEntry → InMemoryFwdTables × Result (Unit {0}) FwdTableError
update_node t entry =
    if is_some (HashMap.get t.node_id_map (subnet_key (destination entry)))
    then (
      record t {
        node_id_map = HashMap.modify t.node_id_map (subnet_key (destination entry)) (λ old. entry);
      },
      ok tt,
    )
    else (t, err entry_missing)

unfoldable pub remove_node :
    InMemoryFwdTables → NodeIdSubnet → InMemoryFwdTables × Result (Option NodeIdEntry) FwdTableError
remove_node t subnet = (
  record t { node_id_map = HashMap.remove t.node_id_map (subnet_key subnet) },
  ok (HashMap.get t.node_id_map (subnet_key subnet)),
)

unfoldable pub create_or_update_node :
    InMemoryFwdTables → NodeIdEntry → InMemoryFwdTables × Result (Unit {0}) FwdTableError
unfolding update_node create_node
create_or_update_node t entry =
    if HashMap.contains_key t.node_id_map (subnet_key (destination entry))
    then update_node t entry
    else create_node t entry

unfoldable pub create_path :
    InMemoryFwdTables → PathIdEntry → InMemoryFwdTables × Result (Unit {0}) FwdTableError
create_path t entry =
    if HashMap.contains_key t.path_id_map (in_path_id entry)
    then (t, err entry_already_exists)
    else (record t { path_id_map = HashMap.insert t.path_id_map (in_path_id entry) entry }, ok tt)

unfoldable pub update_path :
    InMemoryFwdTables → PathIdEntry → InMemoryFwdTables × Result (Unit {0}) FwdTableError
update_path t entry =
    if is_some (HashMap.get t.path_id_map (in_path_id entry))
    then (
      record t { path_id_map = HashMap.modify t.path_id_map (in_path_id entry) (λ old. entry) },
      ok tt,
    )
    else (t, err entry_missing)

unfoldable pub remove_path :
    InMemoryFwdTables → ℕ → InMemoryFwdTables × Result (Option PathIdEntry) FwdTableError
remove_path t path_id = (
  record t { path_id_map = HashMap.remove t.path_id_map path_id },
  ok (HashMap.get t.path_id_map path_id),
)

unfoldable pub create_or_update_path :
    InMemoryFwdTables → PathIdEntry → InMemoryFwdTables × Result (Unit {0}) FwdTableError
unfolding update_path create_path
create_or_update_path t entry =
    if HashMap.contains_key t.path_id_map (in_path_id entry)
    then update_path t entry
    else create_path t entry

-- `extend` inserts every entry, over one that is there.
unfoldable pub extend_nodes : InMemoryFwdTables → List NodeIdEntry → InMemoryFwdTables
extend_nodes t [] = t
extend_nodes t (entry ∷ entries) =
    extend_nodes
      (record t {
        node_id_map = HashMap.insert t.node_id_map (subnet_key (destination entry)) entry;
      })
      entries

unfoldable pub extend_paths : InMemoryFwdTables → List PathIdEntry → InMemoryFwdTables
extend_paths t [] = t
extend_paths t (entry ∷ entries) =
    extend_paths (record t { path_id_map = HashMap.insert t.path_id_map (in_path_id entry) entry })
      entries

abbrev pub forwarding_tables : AsyncForwardingTables InMemoryFwdTables FwdTableError
forwarding_tables = record {
  node_id_table = record {
    create = create_node;
    update = update_node;
    create_or_update = create_or_update_node;
    remove = remove_node;
  };
  path_id_table = record {
    create = create_path;
    update = update_path;
    create_or_update = create_or_update_path;
    remove = remove_path;
  };
}
