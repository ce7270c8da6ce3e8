-- ===== src/CycleRemover/Shortcut.antt =====
-- The specification of the cycle removal: from each node on, go on behind its last occurrence.
use kira_rust.Prelude.{
  ℕ, zero, suc, ◌≤◌, ◌≡◌, refl, sym, ap, ◌∙◌, ◌⊎◌, inl, inr, true, false, none, some, List, [], ◌∷◌,
  ◌++◌, arith, ◌==◌, if◌then◌else◌, ==→eq, Bool-cases, length, get_elem?, contains,
}
use kira_rust.Path.{last?}
use kira_rust.Path.Links.{Hop, hop, Hop-cons}
use kira_rust.CycleRemover.{last_position}

-- What follows the last occurrence of a node, or all if there is none.
unfoldable pub after_last : ℕ → List ℕ → List ℕ
after_last id [] = []
after_last id (x ∷ xs) =
    let rest = after_last id xs in if contains id xs then rest else if x == id then xs else x ∷ xs

unfoldable pub shortcut : ℕ → List ℕ → List ℕ
unfolding after_last
shortcut zero xs = []
shortcut (suc n) [] = []
shortcut (suc n) (x ∷ xs) = x ∷ shortcut n (after_last x xs)

abbrev pub IsSimple : List ℕ → Type 0
IsSimple [] = Unit
IsSimple (x ∷ xs) = (contains x xs ≡ false) × IsSimple xs

-- `after_last` in terms of the position that the code searches.
pub last_position-after_last :
    (id : ℕ) (xs : List ℕ)
    → ((last_position id xs ≡ none) × (contains id xs ≡ false) × (after_last id xs ≡ xs))
      ⊎ ((before : List ℕ) × (last_position id xs ≡ some (length before))
          × (contains id xs ≡ true)
          × (xs ≡ before ++ (id ∷ after_last id xs)))
unfolding last_position after_last
last_position-after_last id [] = inl (refl, refl, refl)
last_position-after_last id (x ∷ xs) = elim (last_position-after_last id xs) [
  | inl (e, f, g) ↦ elim (Bool-cases (x == id)) [
    | inl h ↦ inr ([], ground arith, ground arith, ground (arith, ==→eq x id))
    | inr h ↦ inl (ground arith, ground arith, ground arith)
  ]
  | inr (before, e, f, g) ↦ inr (x ∷ before, rw e, ground arith, rw f (ap (◌∷◌ x) g))
]

pub length-after_last-le : (id : ℕ) (xs : List ℕ) → length (after_last id xs) ≤ length xs
unfolding after_last
length-after_last-le id [] = omega arith
length-after_last-le id (x ∷ xs) = ground (arith, length-after_last-le id xs)

not-contains-after_last : (id : ℕ) (xs : List ℕ) → contains id (after_last id xs) ≡ false
unfolding after_last
not-contains-after_last id [] = refl
not-contains-after_last id (x ∷ xs) = ground (arith, not-contains-after_last id xs)

contains-after_last :
    (id a : ℕ) (xs : List ℕ) → contains a (after_last id xs) ≡ true → contains a xs ≡ true
unfolding after_last
contains-after_last id a [] h = h
contains-after_last id a (x ∷ xs) h = ground (arith, contains-after_last id a xs)

contains-shortcut :
    (n a : ℕ) (xs : List ℕ) → contains a (shortcut n xs) ≡ true → contains a xs ≡ true
unfolding shortcut
contains-shortcut zero a xs h = cc
contains-shortcut (suc n) a [] h = cc
contains-shortcut (suc n) a (x ∷ xs) h =
    ground (arith, contains-shortcut n a (after_last x xs), contains-after_last x a xs)

-- No node is visited twice.
pub shortcut-IsSimple : (n : ℕ) (xs : List ℕ) → IsSimple (shortcut n xs)
unfolding shortcut
shortcut-IsSimple zero xs = tt
shortcut-IsSimple (suc n) [] = tt
shortcut-IsSimple (suc n) (x ∷ xs) = (
  ground (arith, contains-shortcut n x (after_last x xs), not-contains-after_last x xs),
  shortcut-IsSimple n (after_last x xs),
)

-- The last node, `d` for the empty list.
abbrev last_or : ℕ → List ℕ → ℕ
last_or d [] = d
last_or d (x ∷ xs) = last_or x xs

last?-cons : (x : ℕ) (xs : List ℕ) → last? (x ∷ xs) ≡ some (last_or x xs)
last?-cons x [] = refl
last?-cons x (y ∷ ys) = last?-cons y ys

last_or-after_last :
    (x d : ℕ) (xs : List ℕ) → contains x xs ≡ true → last_or x (after_last x xs) ≡ last_or d xs
unfolding after_last
last_or-after_last x d [] h = cc
last_or-after_last x d (y ∷ ys) h = ground (arith, last_or-after_last x y ys)

last_or-skip : (x : ℕ) (xs : List ℕ) → last_or x (after_last x xs) ≡ last_or x xs
last_or-skip x xs = elim (last_position-after_last x xs) [
  | inl (e, f, g) ↦ rw g
  | inr (before, e, f, g) ↦ last_or-after_last x x xs f
]

last_or-shortcut :
    (n x : ℕ) (xs : List ℕ) → length xs ≤ n → last_or x (shortcut n xs) ≡ last_or x xs
unfolding shortcut
last_or-shortcut zero x [] h = refl
last_or-shortcut zero x (y ∷ ys) h = absurd (omega arith)
last_or-shortcut (suc n) x [] h = refl
last_or-shortcut (suc n) x (y ∷ ys) h =
    last_or-shortcut n y (after_last y ys) (omega (arith, length-after_last-le y ys))
    ∙ last_or-skip y ys

-- The destination stays.
pub last?-shortcut : (n : ℕ) (xs : List ℕ) → length xs ≤ n → last? (shortcut n xs) ≡ last? xs
unfolding shortcut
last?-shortcut zero [] h = refl
last?-shortcut zero (x ∷ xs) h = absurd (omega arith)
last?-shortcut (suc n) [] h = refl
last?-shortcut (suc n) (x ∷ xs) h =
    let e =
      last_or-shortcut n x (after_last x xs) (omega (arith, length-after_last-le x xs))
      ∙ last_or-skip x xs in
    last?-cons x (shortcut n (after_last x xs)) ∙ ap some e ∙ sym (last?-cons x xs)

-- The source stays.
pub first-shortcut :
    (n x : ℕ) (xs : List ℕ) → get_elem? (shortcut (suc n) (x ∷ xs)) 0 ≡ get_elem? (x ∷ xs) 0
unfolding shortcut
first-shortcut n x xs = refl

shortcut_head : (n b : ℕ) (zs ys : List ℕ) → shortcut n zs ≡ b ∷ ys → (ws : List ℕ) × (zs ≡ b ∷ ws)
unfolding shortcut
shortcut_head zero b zs ys e = absurd (cc)
shortcut_head (suc n) b [] ys e = absurd (cc)
shortcut_head (suc n) b (z ∷ zs) ys e = (zs, cc)

Hop-append : {a b : ℕ} (xs : List ℕ) {ids : List ℕ} → Hop ids a b → Hop (xs ++ ids) a b
Hop-append [] q = q
Hop-append (x ∷ xs) q = Hop-cons (Hop-append xs q)

Hop-after_last : {a b : ℕ} (x : ℕ) (xs : List ℕ) → Hop (after_last x xs) a b → Hop (x ∷ xs) a b
Hop-after_last x xs q = elim (last_position-after_last x xs) [
  | inl (e, f, g) ↦ Hop-cons (rw g at q)
  | inr (before, e, f, g) ↦ rw g (Hop-append (x ∷ before) (Hop-cons q))
]

Hop-over : (x b : ℕ) (xs ws : List ℕ) → after_last x xs ≡ b ∷ ws → Hop (x ∷ xs) x b
Hop-over x b xs ws h = elim (last_position-after_last x xs) [
  | inl (e, f, g) ↦ hop [] x b ws (ground arith)
  | inr (before, e, f, g) ↦ hop (x ∷ before) x b ws (rw g (rw h))
]

-- Every hop of the result is a hop of the given path.
pub Hop-shortcut : {a b : ℕ} (n : ℕ) (xs : List ℕ) → Hop (shortcut n xs) a b → Hop xs a b
unfolding shortcut
Hop-shortcut zero xs (hop [] a b ys e) = absurd (cc)
Hop-shortcut zero xs (hop (w ∷ ws) a b ys e) = absurd (cc)
Hop-shortcut (suc n) [] (hop [] a b ys e) = absurd (cc)
Hop-shortcut (suc n) [] (hop (w ∷ ws) a b ys e) = absurd (cc)
Hop-shortcut (suc n) (x ∷ xs) (hop [] a b ys e) =
    let (ws, f) = shortcut_head n b (after_last x xs) ys (cc) in
    let same : x ≡ a = cc in rw (← same) (Hop-over x b xs ws f)
Hop-shortcut (suc n) (x ∷ xs) (hop (w ∷ ws) a b ys e) =
    Hop-after_last x xs (Hop-shortcut n (after_last x xs) (hop ws a b ys (cc)))

not-contains-after_last_eq : (x : ℕ) (xs : List ℕ) → contains x xs ≡ false → after_last x xs ≡ xs
not-contains-after_last_eq x xs h = elim (last_position-after_last x xs) [
  | inl (e, f, g) ↦ g
  | inr (before, e, f, g) ↦ absurd (ground arith)
]

-- A path that visits no node twice stays as it is.
pub shortcut-of_simple : (n : ℕ) (xs : List ℕ) → length xs ≤ n → IsSimple xs → shortcut n xs ≡ xs
unfolding shortcut
shortcut-of_simple zero [] h s = refl
shortcut-of_simple zero (x ∷ xs) h s = absurd (omega arith)
shortcut-of_simple (suc n) [] h s = refl
shortcut-of_simple (suc n) (x ∷ xs) h s =
    rw (not-contains-after_last_eq x xs s.0)
      (ap (◌∷◌ x) (shortcut-of_simple n xs (omega arith) s.1))
