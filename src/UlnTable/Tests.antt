-- ===== src/UlnTable/Tests.antt =====
-- Confirmations, a change of the connection and notifications at a concrete table.
use kira_rust.Prelude.{ℕ, ◌+◌, ◌≡◌, refl, Bool, some, [], ◌∷◌, arith, ◌==◌, if◌then◌else◌, returns}
use kira_rust.HashMap.{get}
use kira_rust.StateSeqNr.{safe_add, value}
use kira_rust.UlnTable.{UnderlayNeighborId, tentative, bidirectional}
use kira_rust.UlnTable.InMemory.{InMemoryUlnTable, insert, confirm, count_up}
use kira_rust.UlnTable.Counting.{confirm_lem, insert_downgrades, uln_table, counts}
use kira_rust.UlnTable.Observable.{ObservableUlnTable, confirms, step, Tells, step-Tells}
use kira_rust.UlnTable.Observable
use kira_rust.HashMap

abbrev first : UnderlayNeighborId
first = record { interface_id = 1; connection_id = 1 }

abbrev second : UnderlayNeighborId
second = record { interface_id = 1; connection_id = 2 }

-- Node 7 is not confirmed yet, and node 8 is.
abbrev table : InMemoryUlnTable
table = record {
  state_seq_nr = record { ssn = 2 };
  map = (7, (first, tentative)) ∷ (8, (second, bidirectional)) ∷ [];
}

confirm_example :
    (t' : InMemoryUlnTable) × (changed : Bool) × (confirm table 7 first ≡ returns (t', changed))
    × (changed ≡ counts tentative == 1)
    × (t'.state_seq_nr.ssn ≡ 2 + 1)
    × ((id' : ℕ)
        → get t'.map id' ≡ (if 7 == id' then some (first, bidirectional) else get table.map id'))
unfolding get
confirm_example = confirm_lem table 7 first tentative ((omega arith, omega arith), omega arith) refl

insert_downgrades_example :
    (get (insert table 8 first).0.map 8 ≡ some (first, tentative))
    × ((insert table 8 first).1 ≡ some second)
    × ((insert table 8 first).0.state_seq_nr ≡ table.state_seq_nr)
unfolding get
insert_downgrades_example = insert_downgrades table 8 second first refl refl

abbrev observed : ObservableUlnTable uln_table
observed = record { inner = table; events = [] }

abbrev confirmed : ObservableUlnTable uln_table
confirmed = record {
  inner = record {
    state_seq_nr = record { ssn = 3 };
    map = (7, (first, bidirectional)) ∷ (8, (second, bidirectional)) ∷ [];
  };
  events = Observable.ssn_changed ∷ [];
}

step-Tells_example : Tells uln_table observed confirmed
unfolding step Observable.confirm confirm count_up safe_add value Observable.emit get HashMap.insert
    HashMap.remove
step-Tells_example = step-Tells uln_table observed confirmed (confirms 7 first) refl
