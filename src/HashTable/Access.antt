-- ===== src/HashTable/Access.antt =====
-- The access time of an entry over several accesses.
use kira_rust.Prelude.{
  ℕ, max, dec_lt, ◌≡◌, refl, ap, ◌∙◌, inl, inr, Option, none, some, List, [], ◌∷◌, arith,
  Option-cases,
}
use kira_rust.HashTable.{Entry, access}

-- Accesses at the readings of the list, in its order.
unfoldable pub accesses {ℓ} : {V : Type ℓ} → Entry V → List ℕ → Entry V
accesses e [] = e
accesses e (now ∷ times) = accesses (access e now).0 times

-- The later one of two readings, and the latest of some.
abbrev pub later_of : Option ℕ → ℕ → Option ℕ
later_of none now = some now
later_of (some last) now = some (max last now)

abbrev pub latest_of : Option ℕ → List ℕ → Option ℕ
latest_of last [] = last
latest_of last (now ∷ times) = latest_of (later_of last now) times

access_later :
    {V : Type 0} (e : Entry V) (now : ℕ)
    → ((access e now).0.accessed ≡ later_of e.accessed now)
      × ((access e now).0.value ≡ e.value)
      × ((access e now).0.republished ≡ e.republished)
unfolding access
access_later e now = elim (Option-cases e.accessed) [
  | inl h ↦ (ground (arith, h), ground (arith, h), ground (arith, h))
  | inr (last, h) ↦ elim (dec_lt last now) [
    | yes k ↦ (ground (arith, h), ground (arith, h), ground (arith, h))
    | no k ↦ (ground (arith, h), ground (arith, h), ground (arith, h))
  ]
]

-- Whatever the order of the accesses is, the access time of an entry becomes the latest of them and of
-- the time before; the value and the republish time stay.
pub accesses_latest :
    {V : Type 0} (e : Entry V) (times : List ℕ)
    → ((accesses e times).accessed ≡ latest_of e.accessed times)
      × ((accesses e times).value ≡ e.value)
      × ((accesses e times).republished ≡ e.republished)
unfolding accesses
accesses_latest e [] = (refl, refl, refl)
accesses_latest e (now ∷ times) =
    let (a, v, r) = accesses_latest (access e now).0 times in
    let (a', v', r') = access_later e now in (a ∙ ap (λ o. latest_of o times) a', v ∙ v', r ∙ r')
