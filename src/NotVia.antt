-- ===== src/NotVia.antt =====
-- kira-r2kad/src/domain/mod.rs and kira-r2kad/src/use_cases/failure_handling.rs: failed links with the
-- time of the failure, and the state of a rediscovery.
pub mod Sets
mod Tests
use kira_rust.Prelude.{
  ℕ, zero, suc, ◌+◌, ◌-◌, ◌*◌, ◌/◌, ◌%◌, ◌^◌, ◌≤◌, ◌<◌, min, max, dec_lt, dec_le, ℕ_discrete, ◌≡◌,
  refl, sym, ap, ◌∙◌, subst, ◌≢◌, ◌↔◌, ◌⊎◌, inl, inr, Bool, true, false, ◌&&◌, ◌||◌, not, Option,
  none, some, List, [], ◌∷◌, ◌++◌, map, arith, ltb, leb, ◌==◌, if◌then◌else◌, is_some, ltb→lt,
  lt→ltb, ==→eq, ==_self, ==_ne, Bool-cases, Option-cases, length, get_elem?, take, drop,
  length-append, length-drop-le, take-length_append, drop-length_append, contains, contains-append,
  length-take, length-drop, take-append-drop, get_elem?-inside, get_elem?-outside, Outcome, returns,
  panics, Result, ok, err, ◌>>=◌, ◌>>◌, assert, expect,
}
use mathlib.Core.List.{reverse}
use kira_rust.Link.{Link}
use kira_rust.Backoff.{ExponentialBackoff, new_random}

pub record NotViaState : Type 0 where
  pub link : Link
  pub timestamp : ℕ

-- `==` on links.
abbrev pub same_link : Link → Link → Bool
same_link k l = k.first == l.first && k.second == l.second

-- `HashSet<NotViaState>`: equality ignores the time. The order of the list stands for the iteration.
pub record NotViaStateList : Type 0 where
  pub nvs_list : List NotViaState

abbrev pub has_link : Link → List NotViaState → Bool
has_link l [] = false
has_link l (nvs ∷ set) = same_link nvs.link l || has_link l set

-- `HashSet::insert`: an equal element that is there stays, with its time.
unfoldable pub insert : NotViaState → List NotViaState → List NotViaState
insert nvs set = if has_link nvs.link set then set else nvs ∷ set

unfoldable pub insert_all : List NotViaState → List NotViaState → List NotViaState
insert_all [] set = set
insert_all (nvs ∷ more) set = insert_all more (insert nvs set)

pub record RediscoveryState : Type 0 where
  pub notviastate_list : NotViaStateList
  pub rev_via_contact_list : List ℕ
  pub backoff : ExponentialBackoff

unfoldable pub new_rediscovery : NotViaStateList → List ℕ → ℕ → ℕ → RediscoveryState
unfolding new_random
new_rediscovery notviastate_list via_contact_list max_retries start_duration = record {
  notviastate_list = notviastate_list;
  rev_via_contact_list = reverse via_contact_list;
  backoff = new_random 2 max_retries start_duration;
}

-- The entry passes through its age; `aged` is what the clock makes of its time on the way.
unfoldable pub add_notvia : (ℕ → ℕ) → RediscoveryState → NotViaState → RediscoveryState × Bool
unfolding insert
add_notvia aged r nvs =
    let entry : NotViaState = record nvs { timestamp = aged nvs.timestamp } in
    (
      record r {
        notviastate_list = record { nvs_list = insert entry r.notviastate_list.nvs_list };
      },
      not (has_link nvs.link r.notviastate_list.nvs_list),
    )

unfoldable pub get_via_contact_list : RediscoveryState → List ℕ
get_via_contact_list r = reverse r.rev_via_contact_list

-- `Vec::pop`: all but the last element, and the last.
unfoldable pub pop {ℓ} : {A : Type ℓ} → List A → List A × Option A
pop [] = ([], none)
pop (a ∷ []) = ([], some a)
pop (a ∷ b ∷ xs) = let (rest, final) = pop (b ∷ xs) in (a ∷ rest, final)

unfoldable pub get_next_via_contact_id : RediscoveryState → RediscoveryState × Option ℕ
unfolding pop
get_next_via_contact_id r =
    let (rest, id) = pop r.rev_via_contact_list in (record r { rev_via_contact_list = rest }, id)

unfoldable pub drop_from_next_via_contact_id : RediscoveryState → ℕ → RediscoveryState
drop_from_next_via_contact_id r len =
    let n = length r.rev_via_contact_list in
    if leb len n
    then record r { rev_via_contact_list = take (n - len) r.rev_via_contact_list }
    else r

unfoldable pub set_via_contact_list : RediscoveryState → List ℕ → Outcome RediscoveryState
set_via_contact_list r via_contact_list = elim r.rev_via_contact_list [
  | [] ↦ returns (record r { rev_via_contact_list = reverse via_contact_list })
  | id ∷ ids ↦ panics
]
