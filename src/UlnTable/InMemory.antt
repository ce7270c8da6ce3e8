-- ===== src/UlnTable/InMemory.antt =====
-- kira-r2kad/src/domain/underlay_neighbor_table/in_memory_underlay_neighbor_table.rs: the table in a
-- hash map.
use kira_rust.Prelude.{
  ℕ, Bool, true, false, Option, none, some, [], if◌then◌else◌, length, Outcome, returns, panics,
  ◌>>=◌, expect,
}
use kira_rust.StateSeqNr.{SafeStateSeqNr, safe_add, value}
use kira_rust.HashMap.{HashMap, get-insert, get-remove, IsUnique}
use kira_rust.HashMap
use kira_rust.UlnTable.{UnderlayNeighborId, UlnState, tentative, bidirectional, same_ulnid}

pub record InMemoryUlnTable : Type 0 where
  pub state_seq_nr : SafeStateSeqNr
  pub map : HashMap (UnderlayNeighborId × UlnState)

unfoldable pub new : InMemoryUlnTable
new = record { state_seq_nr = record { ssn = 1 }; map = [] }

unfoldable pub insert :
    InMemoryUlnTable → ℕ → UnderlayNeighborId → InMemoryUlnTable × Option UnderlayNeighborId
insert t id ulnid = elim (HashMap.get t.map id) [
  | some (existing_ulnid, state) ↦
      if same_ulnid existing_ulnid ulnid
      then (t, none)
      else (record t { map = HashMap.insert t.map id (ulnid, tentative) }, some existing_ulnid)
  | none ↦ (record t { map = HashMap.insert t.map id (ulnid, tentative) }, none)
]

-- `(state_seq_nr + 1).value()`, with the `todo!()` of the overflow.
unfoldable pub count_up : SafeStateSeqNr → Outcome SafeStateSeqNr
unfolding safe_add value
count_up state_seq_nr = do next ← safe_add state_seq_nr 1; expect (value next)

unfoldable pub confirm :
    InMemoryUlnTable → ℕ → UnderlayNeighborId → Outcome (InMemoryUlnTable × Bool)
unfolding count_up
confirm t id ulnid = elim (HashMap.get t.map id) [
  | none ↦ panics
  | some (existing_ulnid, bidirectional) ↦
      if same_ulnid existing_ulnid ulnid then returns (t, false) else panics
  | some (existing_ulnid, tentative) ↦
      if same_ulnid existing_ulnid ulnid
      then (do
        new_ssn ← count_up t.state_seq_nr
        returns (
          record { state_seq_nr = new_ssn; map = HashMap.insert t.map id (ulnid, bidirectional) },
          true,
        ))
      else panics
]

unfoldable pub contains_id : InMemoryUlnTable → ℕ → Bool
contains_id t id = HashMap.contains_key t.map id

unfoldable pub remove :
    InMemoryUlnTable → ℕ → Outcome (InMemoryUlnTable × Option UnderlayNeighborId)
unfolding count_up
remove t id =
    let t' : InMemoryUlnTable = record t { map = HashMap.remove t.map id } in
    elim (HashMap.get t.map id) [
      | none ↦ returns (t', none)
      | some (ulnid, tentative) ↦ returns (t', some ulnid)
      | some (ulnid, bidirectional) ↦ do
        new_ssn ← count_up t.state_seq_nr
        returns (record t' { state_seq_nr = new_ssn }, some ulnid)
    ]

unfoldable pub size : InMemoryUlnTable → ℕ
size t = length t.map
