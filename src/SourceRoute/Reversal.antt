-- ===== src/SourceRoute/Reversal.antt =====
-- The route of an answer: the reversed part of a route that was traveled.
use kira_rust.Prelude.{
  ℕ, zero, suc, ◌<◌, ◌≡◌, refl, sym, ap, ◌∙◌, some, List, [], ◌∷◌, ◌++◌, arith, length, get_elem?,
  take, length-append, length-take, get_elem?-inside, returns, expect,
}
use mathlib.Core.List.{reverse, reverse-cons, reverse-reverse}
use native.Mathlib.Numerals.{add-one}
use kira_rust.Path.{last?}
use kira_rust.SourceRoute.{SourceRoute, IsRoute, from_reversed, current_hop, source, destination}

last?-snoc : (xs : List ℕ) (a : ℕ) → last? (xs ++ a ∷ []) ≡ some a
last?-snoc [] a = refl
last?-snoc (x ∷ []) a = refl
last?-snoc (x ∷ y ∷ xs) a = last?-snoc (y ∷ xs) a

first-snoc : (xs ys : List ℕ) (a : ℕ) → get_elem? xs 0 ≡ some a → get_elem? (xs ++ ys) 0 ≡ some a
first-snoc [] ys a h = cc
first-snoc (x ∷ xs) ys a h = h

last?-reverse : (xs : List ℕ) → last? (reverse xs) ≡ get_elem? xs 0
last?-reverse [] = refl
last?-reverse (x ∷ xs) = rw (reverse-cons x xs) (last?-snoc (reverse xs) x)

pub first-reverse : (xs : List ℕ) (a : ℕ) → last? xs ≡ some a → get_elem? (reverse xs) 0 ≡ some a
first-reverse [] a h = cc
first-reverse (x ∷ []) a h = h
first-reverse (x ∷ y ∷ xs) a h =
    rw (reverse-cons x (y ∷ xs))
      (first-snoc (reverse (y ∷ xs)) (x ∷ []) a (first-reverse (y ∷ xs) a h))

length-reverse : (xs : List ℕ) → length (reverse xs) ≡ length xs
length-reverse [] = refl
length-reverse (x ∷ xs) =
    omega
      (arith, ap length (reverse-cons x xs), length-append (reverse xs) (x ∷ []), length-reverse xs)

first-take : (n : ℕ) (xs : List ℕ) → get_elem? (take (suc n) xs) 0 ≡ get_elem? xs 0
first-take n [] = refl
first-take n (x ∷ xs) = refl

last?-take : (n : ℕ) (xs : List ℕ) → n < length xs → last? (take (suc n) xs) ≡ get_elem? xs n
last?-take n [] h = absurd (omega arith)
last?-take zero (x ∷ xs) h = refl
last?-take (suc n) (x ∷ []) h = absurd (omega arith)
last?-take (suc n) (x ∷ y ∷ xs) h = last?-take n (y ∷ xs) (omega arith)

-- The answer's route: reversing at the current hop gives a route from there back to the source, which
-- is at its first hop and whose nodes are those traveled so far, in the opposite order.
pub from_reversed_lem :
    (r : SourceRoute)
    → IsRoute r
    → (r' : SourceRoute) × (from_reversed r ≡ returns r')
      × IsRoute r'
      × (source r' ≡ current_hop r)
      × (destination r' ≡ source r)
      × (r'.progress ≡ 1)
      × (reverse r'.ids ≡ take (suc r.progress) r.ids)
unfolding from_reversed source current_hop destination
from_reversed_lem r v =
    let n = r.progress in
    let back = reverse (take (suc n) r.ids) in
    let len : length back ≡ suc n =
      omega (arith, length-reverse (take (suc n) r.ids), length-take (suc n) r.ids) in
    let (a, e) = get_elem?-inside r.ids n v.inside in
    (
      record { ids = back; progress = 1 },
      rw add-one (ground (arith, len)),
      record { long = omega (arith, len); started = omega arith; inside = omega (arith, len) },
      ap expect (first-reverse (take (suc n) r.ids) a (last?-take n r.ids v.inside ∙ e) ∙ sym e),
      ap expect (last?-reverse (take (suc n) r.ids) ∙ first-take n r.ids),
      refl,
      reverse-reverse (take (suc n) r.ids),
    )
