-- ===== src/Path/Edits.antt =====
-- What the index loops of `Path` do to its nodes, and prefix and link tests.
use kira_rust.Prelude.{
  ℕ, ◌+◌, ◌-◌, ◌≤◌, ◌≡◌, refl, ap, ◌≢◌, ◌↔◌, true, false, List, [], ◌∷◌, ◌++◌, arith, ==→eq,
  ==_self, length, length-append, returns,
}
use mathlib.Core.List.{append_assoc}
use kira_rust.Vec.{remove_middle, insert_middle}
use kira_rust.Path.{
  NodePath, remove_times, remove_in, insert_all, replace_interval, starts_with_ids, starts_with,
  is_better_than,
}

pub remove_times-append :
    (xs ys zs : List ℕ)
    → remove_times (length ys) (xs ++ (ys ++ zs)) (length xs) ≡ returns (xs ++ zs)
unfolding remove_times
remove_times-append xs [] zs = refl
remove_times-append xs (y ∷ ys) zs =
    rw (remove_middle xs y (ys ++ zs)) (remove_times-append xs ys zs)

pub insert_all-append :
    (part xs ys : List ℕ) → insert_all part (xs ++ ys) (length xs) ≡ returns (xs ++ (part ++ ys))
unfolding insert_all
insert_all-append [] xs ys = refl
insert_all-append (a ∷ part) xs ys = rw (insert_middle xs a ys) (
    rw
      (
        append_assoc xs (a ∷ []) ys,
        append_assoc xs (a ∷ []) (part ++ ys),
        length-append xs (a ∷ []),
      )
      at (insert_all-append part (xs ++ a ∷ []) ys))

-- Removing an interval inside the path leaves what stands before and behind it.
pub remove_in_lem :
    (p : NodePath) (xs ys zs : List ℕ)
    → p.ids ≡ xs ++ (ys ++ zs)
    → ys ≢ []
    → remove_in p (length xs) (length xs + length ys) ≡ returns (record p { ids = xs ++ zs })
unfolding remove_in
remove_in_lem p xs [] zs e h = absurd (h refl)
remove_in_lem p xs (y ∷ ys) zs e h =
    let n = length xs in
    let k = length (y ∷ ys) in
    let fits : n + k ≤ length p.ids =
      omega (arith, ap length e, length-append xs ((y ∷ ys) ++ zs), length-append (y ∷ ys) zs) in
    let steps : remove_times (n + k - n) p.ids n ≡ returns (xs ++ zs) =
      rw (e, num n k) (remove_times-append xs (y ∷ ys) zs) in
    ground (arith, fits, steps)
  where
    num : (n k : ℕ) → n + k - n ≡ k
    num n k = omega arith

-- Replacing an interval puts the new part between what stands before and behind it.
pub replace_interval_lem :
    (p : NodePath) (xs ys zs part : List ℕ) (start_index end_index : ℕ)
    → p.ids ≡ xs ++ (ys ++ zs)
    → start_index ≡ length xs
    → end_index + 1 ≡ length xs + length ys
    → start_index ≤ end_index
    → replace_interval p start_index end_index part
      ≡ returns (record p { ids = xs ++ (part ++ zs) })
unfolding replace_interval
replace_interval_lem p xs ys zs part i j e f g h =
    let count : j - i + 1 ≡ length ys = omega arith in
    let steps : remove_times (j - i + 1) p.ids i ≡ returns (xs ++ zs) =
      rw (count, e, f) (remove_times-append xs ys zs) in
    let longer : insert_all part (xs ++ zs) i ≡ returns (xs ++ (part ++ zs)) =
      rw f (insert_all-append part xs zs) in
    ground (arith, steps, longer)

starts_with_ids_sound :
    (ids iter : List ℕ) → starts_with_ids ids iter ≡ true → (rest : List ℕ) × (ids ≡ iter ++ rest)
unfolding starts_with_ids
starts_with_ids_sound [] [] h = ([], refl)
starts_with_ids_sound [] (b ∷ iter) h = cc
starts_with_ids_sound (a ∷ ids) [] h = (a ∷ ids, refl)
starts_with_ids_sound (a ∷ ids) (b ∷ iter) h =
    let (rest, e) = starts_with_ids_sound ids iter (ground arith) in
    (rest, ground (arith, ==→eq a b))

starts_with_ids-append : (iter rest : List ℕ) → starts_with_ids (iter ++ rest) iter ≡ true
unfolding starts_with_ids
starts_with_ids-append [] [] = refl
starts_with_ids-append [] (a ∷ rest) = refl
starts_with_ids-append (a ∷ iter) rest = rw (==_self a) (starts_with_ids-append iter rest)

-- A path starts with some nodes exactly if they are a prefix of it.
pub starts_with_iff :
    (p : NodePath) (iter : List ℕ)
    → (starts_with p iter ≡ true) ↔ ((rest : List ℕ) × (p.ids ≡ iter ++ rest))
unfolding starts_with
starts_with_iff p iter =
    (starts_with_ids_sound p.ids iter, λ w. rw (w.1) (starts_with_ids-append iter w.0))

-- Among paths with one destination "better" is a strict order, whatever the hash and the anchor are:
-- no two paths are each better than the other, and it is transitive.
pub is_better_than_order :
    (rank : List ℕ → ℕ) (p q r : NodePath)
    → is_better_than rank p q ≡ returns true
    → is_better_than rank q r ≡ returns true
    → (is_better_than rank q p ≡ returns false) × (is_better_than rank p r ≡ returns true)
unfolding is_better_than
is_better_than_order rank p q r h k = (ground arith, ground arith)
