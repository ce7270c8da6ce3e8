-- ===== src/Vec.antt =====
-- The operations of `std::vec::Vec` that the program edits paths with, panics included.
use kira_rust.Prelude.{
  ℕ, zero, suc, ◌≤◌, ◌≡◌, refl, List, [], ◌∷◌, ◌++◌, arith, length, get_elem?, ◌<◌, Outcome,
  returns, panics, ◌>>=◌,
}

module _ {ℓ} {A : Type ℓ} where
  -- `Vec::remove`, less the removed element.
  unfoldable pub remove : List A → ℕ → Outcome (List A)
  remove [] i = panics
  remove (x ∷ xs) zero = returns xs
  remove (x ∷ xs) (suc i) = do rest ← remove xs i; returns (x ∷ rest)

  -- `Vec::insert`.
  unfoldable pub insert : List A → ℕ → A → Outcome (List A)
  insert xs zero a = returns (a ∷ xs)
  insert [] (suc i) a = panics
  insert (x ∷ xs) (suc i) a = do rest ← insert xs i a; returns (x ∷ rest)

  pub remove_middle :
      (xs : List A) (a : A) (ys : List A) → remove (xs ++ a ∷ ys) (length xs) ≡ returns (xs ++ ys)
  unfolding remove
  remove_middle [] a ys = refl
  remove_middle (x ∷ xs) a ys = rw (remove_middle xs a ys)

  pub insert_middle :
      (xs : List A) (a : A) (ys : List A) → insert (xs ++ ys) (length xs) a ≡ returns (xs ++ a ∷ ys)
  unfolding insert
  insert_middle [] a ys = refl
  insert_middle (x ∷ xs) a ys = rw (insert_middle xs a ys)

  pub remove_beyond : (xs : List A) (i : ℕ) → length xs ≤ i → remove xs i ≡ panics
  unfolding remove
  remove_beyond [] i h = refl
  remove_beyond (x ∷ xs) zero h = absurd (omega arith)
  remove_beyond (x ∷ xs) (suc i) h = rw (remove_beyond xs i (omega arith))

  -- A removal of the last element.
  pub remove_last :
      (xs : List A) (n : ℕ)
      → length xs ≡ suc n
      → (others : List A) × (remove xs n ≡ returns others)
        × (length others ≡ n)
        × ((i : ℕ) → i < n → get_elem? others i ≡ get_elem? xs i)
  unfolding remove
  remove_last [] n h = absurd (omega arith)
  remove_last (x ∷ xs) zero h = (xs, refl, omega arith, λ i k. absurd (omega arith))
  remove_last (x ∷ xs) (suc n) h =
      let (others, e, m, same) = remove_last xs n (omega arith) in
      (x ∷ others, rw e refl, omega (arith, m), below others same)
    where
      below :
          (others : List A)
          → ((i : ℕ) → i < n → get_elem? others i ≡ get_elem? xs i)
          → (i : ℕ) → i < suc n
          → get_elem? (x ∷ others) i ≡ get_elem? (x ∷ xs) i
      below others same zero k = refl
      below others same (suc i) k = same i (omega arith)
