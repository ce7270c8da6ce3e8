-- ===== src/UlnTable.antt =====
-- kira-r2kad/src/domain/underlay.rs and underlay_neighbor_table/: the table of the direct neighbors and
-- the state sequence number that counts changes in it.
mod Tests
pub mod Observable
pub mod Counting
pub mod InMemory
use kira_rust.Prelude.{
  ℕ, zero, suc, ◌+◌, ◌-◌, ◌*◌, ◌/◌, ◌%◌, ◌^◌, ◌≤◌, ◌<◌, min, max, dec_lt, dec_le, ℕ_discrete, ◌≡◌,
  refl, sym, ap, ◌∙◌, subst, ◌≢◌, ◌↔◌, ◌⊎◌, inl, inr, Bool, true, false, ◌&&◌, ◌||◌, not, Option,
  none, some, List, [], ◌∷◌, ◌++◌, map, arith, ltb, leb, ◌==◌, if◌then◌else◌, is_some, ltb→lt,
  lt→ltb, ==→eq, ==_self, ==_ne, Bool-cases, Option-cases, length, get_elem?, take, drop,
  length-append, length-drop-le, take-length_append, drop-length_append, contains, contains-append,
  length-take, length-drop, take-append-drop, get_elem?-inside, get_elem?-outside, Outcome, returns,
  panics, Result, ok, err, ◌>>=◌, ◌>>◌, assert, expect,
}
use kira_rust.StateSeqNr.{SafeStateSeqNr}

pub record UnderlayNeighborId : Type 0 where
  pub interface_id : ℕ
  pub connection_id : ℕ

pub data UlnState : Type 0 where
  tentative bidirectional : UlnState

abbrev pub same_ulnid : UnderlayNeighborId → UnderlayNeighborId → Bool
same_ulnid u v = u.interface_id == v.interface_id && u.connection_id == v.connection_id

-- The trait `ULNTable`, and what an observing table relies on: a confirmation tells whether the number
-- changed.
pub record UlnTable : Type 1 where
  pub Table : Type 0
  pub insert : Table → ℕ → UnderlayNeighborId → Table × Option UnderlayNeighborId
  pub confirm : Table → ℕ → UnderlayNeighborId → Outcome (Table × Bool)
  pub contains_id : Table → ℕ → Bool
  pub state_seq_nr : Table → SafeStateSeqNr
  pub remove : Table → ℕ → Outcome (Table × Option UnderlayNeighborId)
  pub size : Table → ℕ
  pub confirm_tells :
      (t t' : Table) (id : ℕ) (u : UnderlayNeighborId) (changed : Bool)
      → confirm t id u ≡ returns (t', changed)
      → changed ≡ not ((state_seq_nr t').ssn == (state_seq_nr t).ssn)
  pub remove_tells :
      (t t' : Table) (id : ℕ) → remove t id ≡ returns (t', none) → state_seq_nr t' ≡ state_seq_nr t
