-- ===== src/UlnTable/Counting.antt =====
-- When the state sequence number of the table counts up.
use kira_rust.Prelude.{
  ℕ, ◌+◌, ◌<◌, ◌≡◌, refl, inl, inr, Bool, true, false, not, Option, none, some, arith, ◌==◌,
  if◌then◌else◌, ==→eq, ==_self, Bool-cases, Outcome-cases, returns,
}
use kira_rust.StateSeqNr.{SafeStateSeqNr, IsSafe, u32_max, safe_add, value}
use kira_rust.HashMap.{get, get-insert, get-remove}
use kira_rust.HashMap
use kira_rust.UlnTable.{
  UnderlayNeighborId, UlnState, tentative, bidirectional, same_ulnid, UlnTable,
}
use kira_rust.UlnTable.InMemory.{
  InMemoryUlnTable, insert, confirm, remove, count_up, contains_id, size,
}

pub same_ulnid-eq : (u v : UnderlayNeighborId) → same_ulnid u v ≡ true → u ≡ v
same_ulnid-eq u v h = ground arith

-- The number can count up: it is safe and below the reset marker.
abbrev pub HasRoom : InMemoryUlnTable → Type 0
HasRoom t = IsSafe t.state_seq_nr × (t.state_seq_nr.ssn + 1 < u32_max)

count_up_lem :
    (s : SafeStateSeqNr) (n : SafeStateSeqNr) → count_up s ≡ returns n → (n.ssn == s.ssn) ≡ false
unfolding count_up safe_add value
count_up_lem s n h = ground arith

count_up_room :
    (s : SafeStateSeqNr) → s.ssn + 1 < u32_max → count_up s ≡ returns (record { ssn = s.ssn + 1 })
unfolding count_up safe_add value
count_up_room s h = ground arith

-- The neighbor that a lookup gives, with its state.
abbrev pub Mapped : Type 0
Mapped = UnderlayNeighborId × UlnState

abbrev pub counts : UlnState → ℕ
counts tentative = 1
counts bidirectional = 0

-- A confirmation of what was inserted makes the mapping bidirectional and keeps all others. The number counts
-- up, and the call tells so, exactly if the mapping was tentative.
pub confirm_lem :
    (t : InMemoryUlnTable) (id : ℕ) (u : UnderlayNeighborId) (state : UlnState)
    → HasRoom t
    → get t.map id ≡ some (u, state)
    → (t' : InMemoryUlnTable) × (changed : Bool) × (confirm t id u ≡ returns (t', changed))
      × (changed ≡ counts state == 1)
      × (t'.state_seq_nr.ssn ≡ t.state_seq_nr.ssn + counts state)
      × ((id' : ℕ)
          → get t'.map id' ≡ (if id == id' then some (u, bidirectional) else get t.map id'))
unfolding confirm
confirm_lem t id u bidirectional v h = (
  t,
  false,
  ground (arith, h),
  refl,
  omega arith,
  λ id'. elim (Bool-cases (id == id')) [
    | inl e ↦ ground (arith, h, ==→eq id id' e)
    | inr e ↦ ground (arith, e)
  ],
)
confirm_lem t id u tentative v h =
    let next : SafeStateSeqNr = record { ssn = t.state_seq_nr.ssn + 1 } in
    (
      record { state_seq_nr = next; map = HashMap.insert t.map id (u, bidirectional) },
      true,
      ground (arith, h, count_up_room t.state_seq_nr v.1),
      refl,
      refl,
      λ id'. get-insert t.map id id' (u, bidirectional),
    )

abbrev pub lost : Option Mapped → ℕ
lost none = 0
lost (some (u, tentative)) = 0
lost (some (u, bidirectional)) = 1

abbrev pub neighbor : Option Mapped → Option UnderlayNeighborId
neighbor none = none
neighbor (some (u, state)) = some u

-- A removal returns what the node was mapped to and drops exactly that; the number counts up exactly if the
-- mapping was bidirectional.
pub remove_lem :
    (t : InMemoryUlnTable) (id : ℕ)
    → HasRoom t
    → (t' : InMemoryUlnTable) × (remove t id ≡ returns (t', neighbor (get t.map id)))
      × (t'.state_seq_nr.ssn ≡ t.state_seq_nr.ssn + lost (get t.map id))
      × ((id' : ℕ) → get t'.map id' ≡ (if id == id' then none else get t.map id'))
unfolding remove
remove_lem t id v = go (get t.map id) refl
  where
    go :
        (mapped : Option Mapped)
        → get t.map id ≡ mapped
        → (t' : InMemoryUlnTable) × (remove t id ≡ returns (t', neighbor (get t.map id)))
          × (t'.state_seq_nr.ssn ≡ t.state_seq_nr.ssn + lost (get t.map id))
          × ((id' : ℕ) → get t'.map id' ≡ (if id == id' then none else get t.map id'))
    go none h = (
      record t { map = HashMap.remove t.map id },
      ground (arith, h),
      ground (arith, h),
      λ id'. get-remove t.map id id',
    )
    go (some (u, tentative)) h = (
      record t { map = HashMap.remove t.map id },
      ground (arith, h),
      ground (arith, h),
      λ id'. get-remove t.map id id',
    )
    go (some (u, bidirectional)) h =
        let next : SafeStateSeqNr = record { ssn = t.state_seq_nr.ssn + 1 } in
        (
          record { state_seq_nr = next; map = HashMap.remove t.map id },
          ground (arith, h, count_up_room t.state_seq_nr v.1),
          ground (arith, h),
          λ id'. get-remove t.map id id',
        )

-- The insertion of another connection for a bidirectional neighbor takes its mapping back to tentative, while
-- the number stays.
pub insert_downgrades :
    (t : InMemoryUlnTable) (id : ℕ) (u u' : UnderlayNeighborId)
    → get t.map id ≡ some (u, bidirectional)
    → same_ulnid u u' ≡ false
    → (get (insert t id u').0.map id ≡ some (u', tentative))
      × ((insert t id u').1 ≡ some u)
      × ((insert t id u').0.state_seq_nr ≡ t.state_seq_nr)
unfolding insert
insert_downgrades t id u u' h d = (
  ground (arith, h, d, get-insert t.map id id (u', tentative)),
  ground (arith, h, d),
  ground (arith, h, d),
)

pub confirm_tells_lem :
    (t t' : InMemoryUlnTable) (id : ℕ) (u : UnderlayNeighborId) (changed : Bool)
    → confirm t id u ≡ returns (t', changed)
    → changed ≡ not (t'.state_seq_nr.ssn == t.state_seq_nr.ssn)
unfolding confirm
confirm_tells_lem t t' id u changed h = go (get t.map id) refl
  where
    go :
        (mapped : Option Mapped)
        → get t.map id ≡ mapped
        → changed ≡ not (t'.state_seq_nr.ssn == t.state_seq_nr.ssn)
    go none e = absurd (ground (arith, e))
    go (some (v, bidirectional)) e = ground (arith, e, h, ==_self t.state_seq_nr.ssn)
    go (some (v, tentative)) e = elim (Outcome-cases (count_up t.state_seq_nr)) [
      | inl f ↦ absurd (ground (arith, e, h, f))
      | inr (n, f) ↦ ground (arith, e, h, f, count_up_lem t.state_seq_nr n f)
    ]

pub remove_tells_lem :
    (t t' : InMemoryUlnTable) (id : ℕ)
    → remove t id ≡ returns (t', none)
    → t'.state_seq_nr ≡ t.state_seq_nr
unfolding remove
remove_tells_lem t t' id h = go (get t.map id) refl
  where
    go : (mapped : Option Mapped) → get t.map id ≡ mapped → t'.state_seq_nr ≡ t.state_seq_nr
    go none e = ground (arith, e, h)
    go (some (v, tentative)) e = absurd (ground (arith, e, h))
    go (some (v, bidirectional)) e = elim (Outcome-cases (count_up t.state_seq_nr)) [
      | inl f ↦ absurd (ground (arith, e, h, f))
      | inr (n, f) ↦ absurd (ground (arith, e, h, f))
    ]

-- The table as an implementation of the interface.
abbrev pub uln_table : UlnTable
uln_table = record {
  Table = InMemoryUlnTable;
  insert = insert;
  confirm = confirm;
  contains_id = contains_id;
  state_seq_nr = λ t. t.state_seq_nr;
  remove = remove;
  size = size;
  confirm_tells = confirm_tells_lem;
  remove_tells = remove_tells_lem;
}
