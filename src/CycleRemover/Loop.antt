-- ===== src/CycleRemover/Loop.antt =====
-- The loop of the cycle removal beside its specification.
use kira_rust.Prelude.{
  ℕ, zero, suc, ◌+◌, ◌-◌, ◌<◌, dec_lt, ◌≡◌, refl, sym, ap, ◌∙◌, ◌≢◌, ◌⊎◌, inl, inr, false, none,
  some, List, [], ◌∷◌, ◌++◌, arith, ◌==◌, length, drop, length-append, Outcome, returns,
}
use mathlib.Core.List.{append_assoc}
use native.Mathlib.Nat.{add_assoc}
use kira_rust.Path.{NodePath, size, remove_in, undefined}
use kira_rust.Path.Edits.{remove_in_lem}
use kira_rust.CycleRemover.{
  last_position, remove_round, remove_loop, remove_cycles_in_place, slice_from,
}
use kira_rust.CycleRemover.Shortcut.{
  after_last, shortcut, last_position-after_last, length-after_last-le,
}

abbrev with_ids : NodePath → List ℕ → NodePath
with_ids p ids = record p { ids = ids }

drop-length_cons : (xs : List ℕ) (x : ℕ) (ys : List ℕ) → drop (length xs + 1) (xs ++ (x ∷ ys)) ≡ ys
drop-length_cons [] x ys = refl
drop-length_cons (z ∷ xs) x ys = rw (shift (length xs)) (drop-length_cons xs x ys)
  where
    shift : (n : ℕ) → suc n + 1 ≡ suc (n + 1)
    shift n = omega arith

cut_cycle :
    (p : NodePath) (done before after : List ℕ) (x : ℕ) (xs : List ℕ)
    → xs ≡ before ++ (x ∷ after)
    → remove_in (with_ids p (done ++ (x ∷ xs))) (length done) (length done + 1 + length before)
      ≡ returns (with_ids p (done ++ (x ∷ after)))
cut_cycle p done before after x xs f =
    rw (add_assoc (length done) 1 (length before), one (length before))
      (remove_in_lem (with_ids p (done ++ (x ∷ xs))) done (x ∷ before) (x ∷ after) (rw f) (λ e. cc))
  where
    one : (n : ℕ) → 1 + n ≡ suc n
    one n = omega arith

skip_cycle :
    (n : ℕ) (before after : List ℕ) (x : ℕ) (xs : List ℕ)
    → xs ≡ before ++ (x ∷ after)
    → drop (n + 1 + length before - n - 1 + 1) xs ≡ after
skip_cycle n before after x xs f = rw (f, count n (length before)) (drop-length_cons before x after)
  where
    count : (n k : ℕ) → n + 1 + k - n - 1 + 1 ≡ k + 1
    count n k = omega arith

module _ (next_round : List ℕ → NodePath → Outcome NodePath) (p : NodePath) (done : List ℕ) (x : ℕ)
    (xs : List ℕ) where
  inside : (length done == length (done ++ (x ∷ xs))) ≡ false
  inside = ground (arith, length-append done (x ∷ xs))

  fits : slice_from (length done + 1) (done ++ (x ∷ xs)) ≡ returns xs
  fits = ground (arith, length-append done (x ∷ xs), drop-length_cons done x xs)

  remove_round-fresh :
      last_position x xs ≡ none
      → remove_round next_round x xs (with_ids p (done ++ (x ∷ xs))) (length done)
        ≡ next_round xs (with_ids p (done ++ (x ∷ xs)))
  unfolding remove_round
  remove_round-fresh e = ground (arith, inside, fits)

  remove_round-cycle :
      (before after : List ℕ)
      → last_position x xs ≡ some (length before)
      → xs ≡ before ++ (x ∷ after)
      → remove_round next_round x xs (with_ids p (done ++ (x ∷ xs))) (length done)
        ≡ next_round after (with_ids p (done ++ (x ∷ after)))
  unfolding remove_round
  remove_round-cycle before after e f =
      let cut : remove_in (with_ids p (done ++ (x ∷ xs))) (length done)
            (length done + 1 + length before)
          ≡ returns (with_ids p (done ++ (x ∷ after))) =
        cut_cycle p done before after x xs f in
      let skip : drop (length done + 1 + length before - length done - 1 + 1) xs ≡ after =
        skip_cycle (length done) before after x xs f in
      ground (arith, inside, fits, cut, skip)

-- The nodes before the index are final, and the iterator holds the nodes from the index on.
abbrev Computes : ℕ → NodePath → List ℕ → Type 0
Computes fuel p done =
    (iter : List ℕ)
    → length iter < fuel
    → remove_loop fuel iter (with_ids p (done ++ iter)) (length done)
      ≡ returns (with_ids p (done ++ shortcut fuel iter))

Computes-snoc :
    (fuel : ℕ) (p : NodePath) (done : List ℕ) (x : ℕ)
    → Computes fuel p (done ++ x ∷ [])
    → (ys : List ℕ) → length ys < fuel
    → remove_loop fuel ys (with_ids p (done ++ (x ∷ ys))) (length done + 1)
      ≡ returns (with_ids p (done ++ (x ∷ shortcut fuel ys)))
Computes-snoc fuel p done x ih ys h =
    rw
      (
        append_assoc done (x ∷ []) ys,
        append_assoc done (x ∷ []) (shortcut fuel ys),
        length-append done (x ∷ []),
      )
      at (ih ys h)

remove_loop-shortcut : (fuel : ℕ) (p : NodePath) (done : List ℕ) → Computes fuel p done
unfolding remove_loop shortcut
remove_loop-shortcut zero p done iter h = absurd (omega arith)
remove_loop-shortcut (suc fuel) p done [] h = refl
remove_loop-shortcut (suc fuel) p done (x ∷ xs) h =
    let next = Computes-snoc fuel p done x (remove_loop-shortcut fuel p (done ++ x ∷ [])) in
    let go_on = λ (ys : List ℕ) (q : NodePath). remove_loop fuel ys q (length done + 1) in
    elim (last_position-after_last x xs) [
      | inl (e, f, g) ↦
          remove_round-fresh go_on p done x xs e
          ∙ next xs (omega arith)
          ∙ ap (λ ys. returns (with_ids p (done ++ (x ∷ shortcut fuel ys)))) (sym g)
      | inr (before, e, f, g) ↦
          remove_round-cycle go_on p done x xs before (after_last x xs) e g
          ∙ next (after_last x xs) (omega (arith, length-after_last-le x xs))
    ]

-- What the removal makes of the nodes.
abbrev pub simplified : List ℕ → List ℕ
simplified ids = shortcut (length ids + 1) ids

simplified_short : (ids : List ℕ) → length ids < 2 → simplified ids ≡ ids
unfolding shortcut after_last
simplified_short [] h = refl
simplified_short (x ∷ []) h = refl
simplified_short (x ∷ y ∷ ids) h = absurd (omega arith)

-- On every path that `size` accepts the removal returns, and computes the specification.
pub remove_cycles_in_place_lem :
    (p : NodePath)
    → (p.path_state ≢ undefined) ⊎ (p.ids ≢ [])
    → remove_cycles_in_place p ≡ returns (record p { ids = simplified p.ids })
unfolding remove_cycles_in_place size
remove_cycles_in_place_lem p h = elim (dec_lt (length p.ids) 2) [
  | yes k ↦ ground (arith, simplified_short p.ids k)
  | no k ↦ ground (arith, remove_loop-shortcut (length p.ids + 1) p [] p.ids (omega arith))
]
