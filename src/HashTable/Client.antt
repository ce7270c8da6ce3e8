-- ===== src/HashTable/Client.antt =====
-- Sequences of stores and removals on any local hash table.
use kira_rust.Prelude.{
  ℕ, ◌≡◌, refl, ap, ◌∙◌, Bool, true, false, ◌||◌, List, [], ◌∷◌, arith, ◌==◌, ==_self, err,
}
use kira_rust.HashTable.{LocalHashTable, created, not_found_err, gives}

pub data Request : Type 0 where
  stores : ℕ → List ℕ → Request
  removes : ℕ → Request

-- Whether a request is about the key.
abbrev pub is_about : ℕ → Request → Bool
is_about key (stores other value) = other == key
is_about key (removes other) = other == key

abbrev pub any_about : ℕ → List Request → Bool
any_about key [] = false
any_about key (request ∷ requests) = is_about key request || any_about key requests

module _ (H : LocalHashTable) where
  unfoldable pub step : H.Table → Request → H.Table
  step t (stores key value) = (H.store t key value).0
  step t (removes key) = (H.remove t key).0

  unfoldable pub run : H.Table → List Request → H.Table
  run t [] = t
  run t (request ∷ requests) = run (step t request) requests

  step-other :
      (t : H.Table) (key : ℕ) (request : Request)
      → is_about key request ≡ false
      → H.fetch (step t request) key ≡ H.fetch t key
  unfolding step
  step-other t key (stores other value) h = H.store-other t other key value (λ e. ground arith)
  step-other t key (removes other) h = ground (arith, H.fetch-remove t other key)

  run-other :
      (t : H.Table) (key : ℕ) (requests : List Request)
      → any_about key requests ≡ false
      → H.fetch (run t requests) key ≡ H.fetch t key
  unfolding run
  run-other t key [] h = refl
  run-other t key (request ∷ requests) h =
      run-other (step t request) key requests (ground arith)
      ∙ step-other t key request (ground arith)

  -- A value that was stored is fetched after any requests about other keys.
  pub run-gives :
      (t : H.Table) (key : ℕ) (value : List ℕ) (requests : List Request)
      → any_about key requests ≡ false
      → gives value (H.fetch (run t (stores key value ∷ requests)) key) ≡ true
  unfolding run step
  run-gives t key value requests h =
      ap (gives value) (run-other (H.store t key value).0 key requests h)
      ∙ H.gives-store t key value

  -- After the removal of a key nothing is fetched for it until a value is stored for it again, and the
  -- store then reports a new entry.
  pub run-removed :
      (t : H.Table) (key : ℕ) (value : List ℕ) (requests : List Request)
      → any_about key requests ≡ false
      → (H.fetch (run t (removes key ∷ requests)) key ≡ err not_found_err)
        × ((H.store (run t (removes key ∷ requests)) key value).1 ≡ created)
  unfolding run step
  run-removed t key value requests h =
      let gone : H.fetch (run t (removes key ∷ requests)) key ≡ err not_found_err =
        run-other (H.remove t key).0 key requests h
        ∙ ground (arith, H.fetch-remove t key key, ==_self key) in
      (gone, (H.store-created (run t (removes key ∷ requests)) key value).1 gone)
