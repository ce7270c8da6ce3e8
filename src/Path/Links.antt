-- ===== src/Path/Links.antt =====
-- The links of a path.
use kira_rust.Prelude.{
  ℕ, ◌≡◌, refl, ap, ◌↔◌, ◌⊎◌, inl, inr, Bool, true, List, [], ◌∷◌, ◌++◌, arith, Bool-cases,
}
use kira_rust.Link.{Link}
use kira_rust.Link
use kira_rust.Path.{NodePath, some_hop, joins, contains_link}

-- A test holds of some hop of a list exactly if the list has two neighbours that pass it.
pub data Hop (ids : List ℕ) : ℕ → ℕ → Type 0 where
  hop : (xs : List ℕ) (a b : ℕ) (ys : List ℕ) → ids ≡ xs ++ (a ∷ b ∷ ys) → Hop ids a b

pub Hop-cons : {x a b : ℕ} {ids : List ℕ} → Hop ids a b → Hop (x ∷ ids) a b
Hop-cons {x = x} (hop xs a b ys e) = hop (x ∷ xs) a b ys (ap (◌∷◌ x) e)

pub some_hop_sound :
    (test : ℕ → ℕ → Bool) (ids : List ℕ)
    → some_hop test ids ≡ true
    → (a b : ℕ) × Hop ids a b × (test a b ≡ true)
unfolding some_hop
some_hop_sound test [] h = cc
some_hop_sound test (a ∷ []) h = cc
some_hop_sound test (a ∷ b ∷ ids) h = elim (Bool-cases (test a b)) [
  | inl e ↦ (a, b, hop [] a b ids refl, e)
  | inr e ↦ let (c, d, q, k) = some_hop_sound test (b ∷ ids) (ground arith) in (c, d, Hop-cons q, k)
]

some_hop-append :
    (test : ℕ → ℕ → Bool) (xs : List ℕ) (a b : ℕ) (ys : List ℕ)
    → test a b ≡ true
    → some_hop test (xs ++ (a ∷ b ∷ ys)) ≡ true
unfolding some_hop
some_hop-append test [] a b ys h = rw h
some_hop-append test (x ∷ []) a b ys h = ground (arith, some_hop-append test [] a b ys h)
some_hop-append test (x ∷ y ∷ xs) a b ys h = ground (arith, some_hop-append test (y ∷ xs) a b ys h)

pub some_hop_complete :
    (test : ℕ → ℕ → Bool) (ids : List ℕ) {a b : ℕ}
    → Hop ids a b
    → test a b ≡ true
    → some_hop test ids ≡ true
some_hop_complete test ids (hop xs a b ys e) h = rw e (some_hop-append test xs a b ys h)

joins-new : (a b : ℕ) → joins (Link.new a b) a b ≡ true
unfolding Link.new
joins-new a b = ground arith

joins-new_swapped : (a b : ℕ) → joins (Link.new a b) b a ≡ true
unfolding Link.new
joins-new_swapped a b = ground arith

joins_inv :
    (a b c d : ℕ) → joins (Link.new a b) c d ≡ true → ((c ≡ a) × (d ≡ b)) ⊎ ((c ≡ b) × (d ≡ a))
unfolding Link.new
joins_inv a b c d h = ground arith

Hop-ends :
    (ids : List ℕ) (a b c d : ℕ)
    → joins (Link.new a b) c d ≡ true
    → Hop ids c d
    → Hop ids a b ⊎ Hop ids b a
Hop-ends ids a b c d h q = elim (joins_inv a b c d h) [
  | inl (e, f) ↦ inl (rw (← e, ← f) q)
  | inr (e, f) ↦ inr (rw (← e, ← f) q)
]

-- A path contains a link exactly if its ends are neighbours on the path, in either order.
pub contains_link_iff :
    (p : NodePath) (a b : ℕ)
    → (contains_link p (Link.new a b) ≡ true) ↔ (Hop p.ids a b ⊎ Hop p.ids b a)
unfolding contains_link Link.new
contains_link_iff p a b = (
  λ h.
      let (c, d, q, k) = some_hop_sound (joins (Link.new a b)) p.ids h in
      Hop-ends p.ids a b c d k q,
  λ w. elim w [
    | inl q ↦ some_hop_complete (joins (Link.new a b)) p.ids q (joins-new a b)
    | inr q ↦ some_hop_complete (joins (Link.new a b)) p.ids q (joins-new_swapped a b)
  ],
)
