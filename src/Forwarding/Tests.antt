-- ===== src/Forwarding/Tests.antt =====
-- Requests to the forwarding tables at concrete entries.
use kira_rust.Prelude.{ℕ, ◌≡◌, refl, List, none, [], ◌∷◌}
use kira_rust.HashMap
use kira_rust.NodeId.{new_subnet}
use kira_rust.Forwarding.{
  NodeIdEntry, ForwardingTablesUpdate, forward, create, update, remove, node_id_table_update,
  path_id_table_update, update_path, forward_path,
}
use kira_rust.Forwarding.InMemory.{InMemoryFwdTables}
use kira_rust.Forwarding.Refinement.{
  Tables, Represents, handle_all, all_reports, all_after, handle_all_refines,
}

abbrev to : ℕ → ℕ → NodeIdEntry
to id hop = forward (record { destination = new_subnet id; next_hop = hop })

abbrev requests : List ForwardingTablesUpdate
requests =
    node_id_table_update (create (to 5 1))
    ∷ node_id_table_update (create (to 5 2))
    ∷ node_id_table_update (update (to 7 2))
    ∷ path_id_table_update
        (update_path (forward_path (record { in_path_id = 3; out_path_id = 4; next_hop = 1 })))
    ∷ node_id_table_update (remove (new_subnet 5))
    ∷ []

abbrev empty : InMemoryFwdTables
empty = record { node_id_map = []; path_id_map = [] }

abbrev nothing : Tables
nothing = record { nodes = λ k. none; paths = λ k. none }

handle_all_example :
    ((handle_all empty requests).1 ≡ all_reports requests nothing)
    × Represents (handle_all empty requests).0 (all_after requests nothing)
unfolding HashMap.get
handle_all_example =
    handle_all_refines requests empty nothing
      (record { nodes_same = λ k. refl; paths_same = λ k. refl })
