-- ===== src/HashMap.antt =====
-- The `std::collections::HashMap` that the program keeps its state in, for keys compared as numbers.
-- A map is an association list with unique keys; the order of the list stands for the
-- iteration order, which the standard library leaves open.
use kira_rust.Prelude.{
  ℕ, ◌≡◌, refl, Bool, true, false, Option, none, some, List, [], ◌∷◌, arith, ◌==◌, if◌then◌else◌,
  is_some, not,
}

abbrev pub HashMap {ℓ} : Type ℓ → Type ℓ
HashMap V = List (ℕ × V)

module _ {ℓ} {V : Type ℓ} where
  unfoldable pub get : HashMap V → ℕ → Option V
  get [] k = none
  get ((j, v) ∷ m) k = if j == k then some v else get m k

  abbrev pub contains_key : HashMap V → ℕ → Bool
  contains_key m k = is_some (get m k)

  unfoldable pub remove : HashMap V → ℕ → HashMap V
  remove [] k = []
  remove ((j, v) ∷ m) k = let rest = remove m k in if j == k then rest else (j, v) ∷ rest

  -- Replaces the value of a key that is there.
  unfoldable pub insert : HashMap V → ℕ → V → HashMap V
  insert m k v = (k, v) ∷ remove m k

  unfoldable pub retain : (ℕ → V → Bool) → HashMap V → HashMap V
  retain p [] = []
  retain p ((j, v) ∷ m) = let rest = retain p m in if p j v then (j, v) ∷ rest else rest

  -- A write through `get_mut`.
  unfoldable pub modify : HashMap V → ℕ → (V → V) → HashMap V
  modify [] k f = []
  modify ((j, v) ∷ m) k f = (if j == k then (j, f v) else (j, v)) ∷ modify m k f

  -- Keys are unique.
  abbrev pub IsUnique : HashMap V → Type ℓ
  IsUnique [] = Unit
  IsUnique ((j, v) ∷ m) = (get m j ≡ none) × IsUnique m

  pub get-remove :
      (m : HashMap V) (k j : ℕ) → get (remove m k) j ≡ (if k == j then none else get m j)
  unfolding get remove
  get-remove [] k j = ground arith
  get-remove ((i, v) ∷ m) k j = ground (arith, get-remove m k j)

  pub get-insert :
      (m : HashMap V) (k j : ℕ) (v : V)
      → get (insert m k v) j ≡ (if k == j then some v else get m j)
  unfolding get insert
  get-insert m k j v = ground (arith, get-remove m k j)

  pub remove-IsUnique : (m : HashMap V) (k : ℕ) → IsUnique m → IsUnique (remove m k)
  unfolding remove
  remove-IsUnique [] k u = tt
  remove-IsUnique ((i, v) ∷ m) k u = ground (arith, remove-IsUnique m k u.1, get-remove m k i)

  pub insert-IsUnique : (m : HashMap V) (k : ℕ) (v : V) → IsUnique m → IsUnique (insert m k v)
  unfolding insert
  insert-IsUnique m k v u = (ground (arith, get-remove m k k), remove-IsUnique m k u)

  -- What `retain` leaves of an entry.
  abbrev pub keep : (ℕ → V → Bool) → ℕ → Option V → Option V
  keep p k none = none
  keep p k (some v) = if p k v then some v else none

  pub get-retain :
      (p : ℕ → V → Bool) (m : HashMap V) (k : ℕ)
      → IsUnique m
      → get (retain p m) k ≡ keep p k (get m k)
  unfolding get retain
  get-retain p [] k u = refl
  get-retain p ((i, v) ∷ m) k u = ground (arith, get-retain p m k u.1)

  pub retain-IsUnique : (p : ℕ → V → Bool) (m : HashMap V) → IsUnique m → IsUnique (retain p m)
  unfolding retain
  retain-IsUnique p [] u = tt
  retain-IsUnique p ((i, v) ∷ m) u = ground (arith, retain-IsUnique p m u.1, get-retain p m i u.1)

  -- `iter().find_map(..)`: the first entry with a property.
  unfoldable pub find_entry : (ℕ → V → Bool) → HashMap V → Option (ℕ × V)
  find_entry p [] = none
  find_entry p ((j, v) ∷ m) = if p j v then some (j, v) else find_entry p m

  pub find_entry-eq_some :
      (p : ℕ → V → Bool) (m : HashMap V) (k : ℕ) (v : V)
      → IsUnique m
      → find_entry p m ≡ some (k, v)
      → (get m k ≡ some v) × (p k v ≡ true)
  unfolding get find_entry
  find_entry-eq_some p [] k v u e = cc
  find_entry-eq_some p ((i, w) ∷ m) k v u e = ground (arith, find_entry-eq_some p m k v u.1)

  pub find_entry-eq_none :
      (p : ℕ → V → Bool) (m : HashMap V) (k : ℕ) (v : V)
      → find_entry p m ≡ none
      → get m k ≡ some v
      → p k v ≡ false
  unfolding get find_entry
  find_entry-eq_none p [] k v e h = cc
  find_entry-eq_none p ((i, w) ∷ m) k v e h = ground (arith, find_entry-eq_none p m k v)

  -- A search for what `retain` drops finds nothing, one for what it keeps finds the same.
  pub find_entry-retain-not :
      (q : ℕ → V → Bool) (m : HashMap V) → find_entry q (retain (λ k v. not (q k v)) m) ≡ none
  unfolding find_entry retain
  find_entry-retain-not q [] = refl
  find_entry-retain-not q ((i, v) ∷ m) = ground (arith, find_entry-retain-not q m)

  pub find_entry-retain_imp :
      (p q : ℕ → V → Bool) (m : HashMap V)
      → ((k : ℕ) (v : V) → q k v ≡ true → p k v ≡ true)
      → find_entry q (retain p m) ≡ find_entry q m
  unfolding find_entry retain
  find_entry-retain_imp p q [] h = refl
  find_entry-retain_imp p q ((i, v) ∷ m) h = ground (arith, find_entry-retain_imp p q m h, h i v)

  abbrev pub map_some : (V → V) → Option V → Option V
  map_some f none = none
  map_some f (some v) = some (f v)

  pub get-modify :
      (m : HashMap V) (k j : ℕ) (f : V → V)
      → get (modify m k f) j ≡ (if k == j then map_some f (get m j) else get m j)
  unfolding get modify
  get-modify [] k j f = ground arith
  get-modify ((i, v) ∷ m) k j f = ground (arith, get-modify m k j f)

  pub modify-IsUnique : (m : HashMap V) (k : ℕ) (f : V → V) → IsUnique m → IsUnique (modify m k f)
  unfolding modify
  modify-IsUnique [] k f u = tt
  modify-IsUnique ((i, v) ∷ m) k f u = ground (arith, modify-IsUnique m k f u.1, get-modify m k i f)
