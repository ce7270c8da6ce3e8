-- ===== src/UlnTable/Observable.antt =====
-- kira-r2kad/src/domain/underlay_neighbor_table/observable_underlay_neighbor_table.rs: a table that tells its
-- observers when the state sequence number changes. The events that were emitted are a list, latest first.
use kira_rust.Prelude.{
  ℕ, ◌≡◌, inl, inr, Bool, ◌&&◌, not, Option, none, some, List, ◌∷◌, arith, ◌==◌, if◌then◌else◌,
  is_some, Outcome, Outcome-cases, returns, ◌>>=◌,
}
use kira_rust.UlnTable.{UnderlayNeighborId, UlnTable}

pub data UlnTableEvent : Type 0 where
  ssn_changed : UlnTableEvent

module _ (U : UlnTable) where
  pub record ObservableUlnTable : Type 0 where
    pub inner : U.Table
    pub events : List UlnTableEvent

  unfoldable pub emit : ObservableUlnTable → ObservableUlnTable
  emit o = record o { events = ssn_changed ∷ o.events }

  abbrev pub ssn_of : U.Table → ℕ
  ssn_of t = (U.state_seq_nr t).ssn

  unfoldable pub insert :
      ObservableUlnTable → ℕ → UnderlayNeighborId → ObservableUlnTable × Option UnderlayNeighborId
  unfolding emit
  insert o id ulnid =
      let (inner, last_mapping) = U.insert o.inner id ulnid in
      let o' : ObservableUlnTable = record o { inner = inner } in
      (if ssn_of inner == ssn_of o.inner then o' else emit o', last_mapping)

  unfoldable pub confirm :
      ObservableUlnTable → ℕ → UnderlayNeighborId → Outcome (ObservableUlnTable × Bool)
  unfolding emit
  confirm o id ulnid = do
    (inner, result) ← U.confirm o.inner id ulnid
    let o' : ObservableUlnTable = record o { inner = inner }
    returns (if result then emit o' else o', result)

  unfoldable pub remove :
      ObservableUlnTable → ℕ → Outcome (ObservableUlnTable × Option UnderlayNeighborId)
  unfolding emit
  remove o id = do
    (inner, removed) ← U.remove o.inner id
    let o' : ObservableUlnTable = record o { inner = inner }
    returns
        (if is_some removed && not (ssn_of inner == ssn_of o.inner) then emit o' else o', removed)

  pub data Call : Type 0 where
    inserts confirms : ℕ → UnderlayNeighborId → Call
    removes : ℕ → Call

  -- The state that a call leaves, if it does not panic.
  unfoldable pub step : ObservableUlnTable → Call → Outcome ObservableUlnTable
  step o (inserts id u) = returns (insert o id u).0
  step o (confirms id u) = do (o', r) ← confirm o id u; returns o'
  step o (removes id) = do (o', r) ← remove o id; returns o'

  -- Observers are told exactly if the number changes, and once.
  abbrev pub Tells : ObservableUlnTable → ObservableUlnTable → Type 0
  Tells o o' =
      o'.events ≡ (if ssn_of o'.inner == ssn_of o.inner then o.events else ssn_changed ∷ o.events)

  -- A call on an observable table, whatever table is inside, tells the observers exactly if it changes the
  -- state sequence number, and once.
  pub step-Tells : (o o' : ObservableUlnTable) (call : Call) → step o call ≡ returns o' → Tells o o'
  unfolding step insert confirm remove emit
  step-Tells o o' (inserts id u) h = ground (arith, h)
  step-Tells o o' (confirms id u) h = elim (Outcome-cases (U.confirm o.inner id u)) [
    | inl e ↦ absurd (ground (arith, h, e))
    | inr (r, e) ↦ ground (arith, h, e, U.confirm_tells o.inner r.0 id u r.1)
  ]
  step-Tells o o' (removes id) h = elim (Outcome-cases (U.remove o.inner id)) [
    | inl e ↦ absurd (ground (arith, h, e))
    | inr ((t, none), e) ↦ ground (arith, h, e, U.remove_tells o.inner t id e)
    | inr ((t, some u), e) ↦ ground (arith, h, e)
  ]
