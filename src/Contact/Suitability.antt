-- ===== src/Contact/Suitability.antt =====
-- Which candidates suit the state of a contact, as comparisons of their lengths and ranks.
use kira_rust.Prelude.{
  ℕ, ◌<◌, ◌≡◌, refl, ◌↔◌, ◌⊎◌, inl, inr, Bool, true, false, ◌&&◌, ◌||◌, Option, none, some, List,
  arith, ltb, ◌==◌, ltb→lt, lt→ltb, ==→eq, ==_self, Bool-cases, length, returns,
}
use kira_rust.Path.{NodePath, is_better_than, last?}
use kira_rust.Contact.{
  Contact, ContactState, unknown, valid, invalid, rediscovering, dead, path_suitable,
}

-- A path, if it is there, leads to the node.
abbrev pub LeadsTo : ℕ → Option NodePath → Type 0
LeadsTo id none = Unit
LeadsTo id (some p) = last? p.ids ≡ some id

-- A valid contact has an active path.
abbrev pub HasActive : ContactState → Option NodePath → Type 0
HasActive valid none = ⊥
HasActive valid (some p) = Unit
HasActive unknown p = Unit
HasActive (invalid list) p = Unit
HasActive (rediscovering rds) p = Unit
HasActive dead p = Unit

-- A path is better than another one if it is shorter, or as long and ranked before.
abbrev pub IsBetter : (List ℕ → ℕ) → NodePath → NodePath → Type 0
IsBetter rank p q =
    (length p.ids < length q.ids) ⊎ ((length p.ids ≡ length q.ids) × (rank p.ids < rank q.ids))

-- A valid contact takes better paths than its active one only, a dead one takes none.
abbrev pub Suits : (List ℕ → ℕ) → NodePath → ContactState → Option NodePath → Type 0
Suits rank p unknown active = Unit
Suits rank p (invalid list) active = Unit
Suits rank p (rediscovering rds) active = Unit
Suits rank p dead active = ⊥
Suits rank p valid none = ⊥
Suits rank p valid (some q) = IsBetter rank p q

-- A comparison of two paths to the same node does not panic.
IsBetter-iff :
    (rank : List ℕ → ℕ) (p q : NodePath)
    → ((ltb (length p.ids) (length q.ids)
          || length p.ids == length q.ids && ltb (rank p.ids) (rank q.ids))
        ≡ true)
      ↔ IsBetter rank p q
IsBetter-iff rank p q = (
  λ h. elim (Bool-cases (ltb (length p.ids) (length q.ids))) [
    | inl e ↦ inl (ltb→lt _ _ e)
    | inr e ↦ inr (
      ==→eq (length p.ids) (length q.ids) (ground (arith, e, h)),
      ltb→lt (rank p.ids) (rank q.ids) (ground (arith, e, h)),
    )
  ],
  λ h. elim h [
    | inl e ↦ ground (arith, lt→ltb _ _ e)
    | inr (e, f) ↦ ground (arith, e, lt→ltb (rank p.ids) (rank q.ids) f, ==_self (length q.ids))
  ],
)

pub is_better_than_total :
    (rank : List ℕ → ℕ) (p q : NodePath) (id : ℕ)
    → last? p.ids ≡ some id
    → last? q.ids ≡ some id
    → (b : Bool) × (is_better_than rank p q ≡ returns b) × ((b ≡ true) ↔ IsBetter rank p q)
unfolding is_better_than
is_better_than_total rank p q id h k = (
  ltb (length p.ids) (length q.ids)
      || length p.ids == length q.ids && ltb (rank p.ids) (rank q.ids),
  ground (arith, h, k),
  IsBetter-iff rank p q,
)

module _ (rank : List ℕ → ℕ) (c : Contact) (p : NodePath) (h : last? p.ids ≡ some c.dest_id) where
  pub path_suitable_of :
      (state : ContactState) (active : Option NodePath)
      → c.state ≡ state
      → c.path_collection.active_path ≡ active
      → HasActive state active
      → LeadsTo c.dest_id active
      → (b : Bool) × (path_suitable rank c p ≡ returns b) × ((b ≡ true) ↔ Suits rank p state active)
  unfolding path_suitable
  path_suitable_of unknown active e f u l = (true, ground (arith, e), (λ g. tt, λ g. refl))
  path_suitable_of (invalid list) active e f u l = (true, ground (arith, e), (λ g. tt, λ g. refl))
  path_suitable_of (rediscovering rds) active e f u l =
      (true, ground (arith, e), (λ g. tt, λ g. refl))
  path_suitable_of dead active e f u l =
      (false, ground (arith, e), (λ g. ground (arith, g), λ g. absurd g))
  path_suitable_of valid none e f u l = absurd u
  path_suitable_of valid (some q) e f u l =
      let (b, g, better) = is_better_than_total rank p q c.dest_id h l in
      (b, ground (arith, e, f, g), better)
