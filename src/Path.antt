-- ===== src/Path.antt =====
-- kira-r2kad/src/domain/path/mod.rs: a path of nodes with its state of validation.
-- Times are arguments where the source reads the clock. `debug_assert!` is on, as in the development
-- profile.
pub mod Edits
pub mod Links
mod Tests
use kira_rust.Prelude.{
  ℕ, zero, suc, ◌+◌, ◌-◌, ◌*◌, ◌/◌, ◌%◌, ◌^◌, ◌≤◌, ◌<◌, min, max, dec_lt, dec_le, ℕ_discrete, ◌≡◌,
  refl, sym, ap, ◌∙◌, subst, ◌≢◌, ◌↔◌, ◌⊎◌, inl, inr, Bool, true, false, ◌&&◌, ◌||◌, not, Option,
  none, some, List, [], ◌∷◌, ◌++◌, map, arith, ltb, leb, ◌==◌, if◌then◌else◌, is_some, ltb→lt,
  lt→ltb, ==→eq, ==_self, ==_ne, Bool-cases, Option-cases, length, get_elem?, take, drop,
  length-append, length-drop-le, take-length_append, drop-length_append, contains, contains-append,
  Outcome, returns, panics, Result, ok, err, ◌>>=◌, ◌>>◌, assert, expect,
}
use kira_rust.Link.{Link}
use kira_rust.Vec
use mathlib.Core.List.{reverse}

pub data PathState : Type 0 where
  undefined valid faulty not_validated : PathState

pub record NodePath : Type 0 where
  pub ids : List ℕ
  pub path_state : PathState
  pub last_validated : Option ℕ
  pub last_path_refresh : Option ℕ

pub data EmptyPathError : Type 0 where
  empty_path : EmptyPathError

abbrev untimed : List ℕ → PathState → NodePath
untimed ids state = record {
  ids = ids;
  path_state = state;
  last_validated = none;
  last_path_refresh = none;
}

-- `Path::try_from(Vec<NodeId>)`, and the same from a slice.
unfoldable pub try_from : List ℕ → Result NodePath EmptyPathError
try_from [] = err empty_path
try_from (id ∷ ids) = ok (untimed (id ∷ ids) undefined)

-- `Path::from([NodeId; N])`.
unfoldable pub from_array : List ℕ → Outcome NodePath
from_array [] = panics
from_array (id ∷ ids) = returns (untimed (id ∷ ids) valid)

-- `Path::from(NodeId)`.
unfoldable pub from_id : ℕ → NodePath
from_id id = untimed (id ∷ []) valid

-- `FromIterator<NodeId>`.
unfoldable pub collect : List ℕ → Result NodePath EmptyPathError
collect [] = err empty_path
collect (id ∷ ids) = ok (untimed (id ∷ ids) valid)

unfoldable pub clear : NodePath → NodePath
clear p = untimed [] undefined

unfoldable pub reverse_path : NodePath → NodePath
reverse_path p = record p { ids = reverse p.ids }

abbrev pub is_undefined : PathState → Bool
is_undefined undefined = true
is_undefined valid = false
is_undefined faulty = false
is_undefined not_validated = false

abbrev pub is_empty {ℓ} : {A : Type ℓ} → List A → Bool
is_empty [] = true
is_empty (x ∷ xs) = false

unfoldable pub size : NodePath → Outcome ℕ
size p = do
  assert (not (is_undefined p.path_state) || is_undefined p.path_state && not (is_empty p.ids))
  returns (length p.ids)

unfoldable pub path_contains : NodePath → ℕ → Bool
path_contains p id = contains id p.ids

-- The zip of a list with its tail, tested pair by pair.
unfoldable pub some_hop : (ℕ → ℕ → Bool) → List ℕ → Bool
some_hop test [] = false
some_hop test (a ∷ []) = false
some_hop test (a ∷ b ∷ ids) = test a b || some_hop test (b ∷ ids)

abbrev pub joins : Link → ℕ → ℕ → Bool
joins l first second =
    first == l.first && second == l.second || first == l.second && second == l.first

unfoldable pub contains_link : NodePath → Link → Bool
unfolding some_hop
contains_link p l = some_hop (joins l) p.ids

unfoldable pub first : NodePath → Outcome ℕ
first p = expect (get_elem? p.ids 0)

unfoldable pub second : NodePath → Option ℕ
second p = get_elem? p.ids 1

abbrev pub last? : List ℕ → Option ℕ
last? [] = none
last? (a ∷ []) = some a
last? (a ∷ b ∷ ids) = last? (b ∷ ids)

unfoldable pub last : NodePath → Outcome ℕ
last p = expect (last? p.ids)

unfoldable pub push : NodePath → ℕ → NodePath
push p id = record p { ids = p.ids ++ id ∷ [] }

-- `for _ in 0..num { ids.remove(start_index) }`.
unfoldable pub remove_times : ℕ → List ℕ → ℕ → Outcome (List ℕ)
remove_times zero ids start_index = returns ids
remove_times (suc num) ids start_index = do
  rest ← Vec.remove ids start_index
  remove_times num rest start_index

unfoldable pub remove_in : NodePath → ℕ → ℕ → Outcome NodePath
remove_in p start_index end_index = do
  assert (ltb start_index end_index)
  assert (leb end_index (length p.ids))
  rest ← remove_times (end_index - start_index) p.ids start_index
  returns (record p { ids = rest })

-- `for (i, id) in part.enumerate() { ids.insert(start_index + i, id) }`, from `i` on.
unfoldable pub insert_all : List ℕ → List ℕ → ℕ → Outcome (List ℕ)
insert_all [] ids index = returns ids
insert_all (id ∷ part) ids index = do
  longer ← Vec.insert ids index id
  insert_all part longer (index + 1)

unfoldable pub replace_interval : NodePath → ℕ → ℕ → List ℕ → Outcome NodePath
replace_interval p start_index end_index part = if ltb end_index start_index then panics else do
  rest ← remove_times (end_index - start_index + 1) p.ids start_index
  longer ← insert_all part rest start_index
  returns (record p { ids = longer })

-- The loop over the path's own nodes beside the iterator.
unfoldable pub starts_with_ids : List ℕ → List ℕ → Bool
starts_with_ids [] [] = true
starts_with_ids [] (b ∷ iter) = false
starts_with_ids (a ∷ ids) [] = true
starts_with_ids (a ∷ ids) (b ∷ iter) = if a == b then starts_with_ids ids iter else false

unfoldable pub starts_with : NodePath → List ℕ → Bool
unfolding starts_with_ids
starts_with p iter = starts_with_ids p.ids iter

abbrev same_end : Option ℕ → Option ℕ → Outcome Bool
same_end none b = panics
same_end (some a) none = panics
same_end (some a) (some b) = returns (a == b)

-- `rank` is the hash of the nodes, xored with the anchor node: the order of equally long paths.
unfoldable pub is_better_than : (List ℕ → ℕ) → NodePath → NodePath → Outcome Bool
is_better_than rank p other = do
  same ← same_end (last? p.ids) (last? other.ids)
  assert same
  returns (
      ltb (length p.ids) (length other.ids)
      || length p.ids == length other.ids && ltb (rank p.ids) (rank other.ids))

-- `==` on the vectors.
abbrev pub same_ids : List ℕ → List ℕ → Bool
same_ids [] [] = true
same_ids [] (b ∷ bs) = false
same_ids (a ∷ as') [] = false
same_ids (a ∷ as') (b ∷ bs) = a == b && same_ids as' bs

unfoldable pub is_same_path_as : NodePath → NodePath → Bool
is_same_path_as p other = same_ids p.ids other.ids

unfoldable pub set_state : NodePath → PathState → Outcome NodePath
set_state p undefined = panics
set_state p valid = returns (record p { path_state = valid })
set_state p faulty = returns (record p { path_state = faulty })
set_state p not_validated = returns (record p { path_state = not_validated })

unfoldable pub update_last_validated : NodePath → ℕ → NodePath
update_last_validated p now = record p { last_validated = some now }

unfoldable pub set_valid : NodePath → ℕ → Outcome NodePath
unfolding set_state update_last_validated
set_valid p now = do p' ← set_state p valid; returns (update_last_validated p' now)

unfoldable pub set_notvalidated : NodePath → Outcome NodePath
unfolding set_state
set_notvalidated p = set_state p not_validated

unfoldable pub invalidate : NodePath → ℕ → Outcome NodePath
unfolding set_state update_last_validated
invalidate p now = do p' ← set_state p faulty; returns (update_last_validated p' now)

unfoldable pub is_valid : NodePath → Bool
is_valid p = elim p.path_state [ valid ↦ true | _ ↦ false ]

unfoldable pub is_faulty : NodePath → Bool
is_faulty p = elim p.path_state [ faulty ↦ true | _ ↦ false ]

unfoldable pub is_notvalidated : NodePath → Bool
is_notvalidated p = elim p.path_state [ not_validated ↦ true | _ ↦ false ]

unfoldable pub is_older_than : NodePath → ℕ → Bool
is_older_than p ts = elim p.last_validated [ none ↦ true | some last_ts ↦ ltb last_ts ts ]

unfoldable pub unset_last_validated : NodePath → NodePath
unset_last_validated p = record p { last_validated = none }

unfoldable pub update_last_path_refresh : NodePath → ℕ → NodePath
update_last_path_refresh p instant = record p { last_path_refresh = some instant }

-- As in the source, this clears the time of the validation.
unfoldable pub unset_last_path_refresh : NodePath → NodePath
unset_last_path_refresh p = record p { last_validated = none }

unfoldable pub extend : NodePath → List ℕ → NodePath
extend p iter = record p { ids = p.ids ++ iter }
