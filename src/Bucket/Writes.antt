-- ===== src/Bucket/Writes.antt =====
-- A write to the contact of a node in a bucket that keeps the node.
use kira_rust.Prelude.{
  ℕ, ◌≡◌, refl, sym, ◌∙◌, subst, inl, inr, Option, none, some, List, [], ◌∷◌, arith, ◌==◌,
  if◌then◌else◌, ==→eq, ==_self, Bool-cases, length,
}
use kira_rust.Contact.{Contact}
use kira_rust.Bucket.{find_id, modify_id}
use kira_rust.Bucket.Slots.{IsDistinct, modify_id-hit, modify_id-miss}

abbrev pub IsRewritten : ℕ → Contact → List (Option Contact) → List (Option Contact) → Type 0
IsRewritten id e entries rewritten =
    IsDistinct rewritten
    × (length rewritten ≡ length entries)
    × ((id' : ℕ) → find_id id' rewritten ≡ (if id == id' then some e else find_id id' entries))

pub modify_id_rewrites :
    (id : ℕ) (e old : Contact) (entries : List (Option Contact))
    → IsDistinct entries
    → find_id id entries ≡ some old
    → e.dest_id ≡ id
    → IsRewritten id e entries (modify_id id (λ _. e) entries)
unfolding modify_id find_id
modify_id_rewrites id e old [] v h same = absurd (ground arith)
modify_id_rewrites id e old (none ∷ entries) v h same =
    let (w, n, look) = modify_id_rewrites id e old entries v h same in (w, omega (arith, n), look)
modify_id_rewrites id e old (some d ∷ entries) v h same = elim (Bool-cases (d.dest_id == id)) [
  | inl k ↦
      let at : d.dest_id ≡ e.dest_id = ==→eq d.dest_id id k ∙ sym same in
      subst (IsRewritten id e (some d ∷ entries)) (sym (modify_id-hit id (λ _. e) d entries k)) (
        (subst (λ j. find_id j entries ≡ none) at v.0, v.1),
        refl,
        λ id'. ground (arith, ==→eq d.dest_id id k, same),
      )
  | inr k ↦
      let (w, n, look) = modify_id_rewrites id e old entries v.1 (ground (arith, k, h)) same in
      subst (IsRewritten id e (some d ∷ entries)) (sym (modify_id-miss id (λ _. e) d entries k)) (
        (ground (arith, look d.dest_id, v.0, k, ==_self id), w),
        omega (arith, n),
        λ id'. elim (Bool-cases (d.dest_id == id')) [
          | inl l ↦ ground (arith, look id', k, l, ==→eq d.dest_id id' l, ==_self id)
          | inr l ↦ ground (arith, look id', l)
        ],
      )
]
