-- ===== src/Link.antt =====
-- kira-r2kad/src/domain/mod.rs: `Link`, an undirected link between two nodes in sorted order.
use kira_rust.Prelude.{ℕ, ◌≡◌, Bool, ◌||◌, arith, ltb, ◌==◌, if◌then◌else◌}

pub record Link : Type 0 where
  pub first : ℕ
  pub second : ℕ

unfoldable pub new : ℕ → ℕ → Link
new first second =
    if ltb first second
    then record { first = first; second = second }
    else record { first = second; second = first }

unfoldable pub has_end : Link → ℕ → Bool
has_end l node_id = l.first == node_id || l.second == node_id

-- A link has no direction: the two orders of its ends make one link, and it has exactly these ends.
pub new_undirected : (a b c : ℕ) → (new a b ≡ new b a) × (has_end (new a b) c ≡ (a == c || b == c))
unfolding new has_end
new_undirected a b c = (ground arith, ground arith)
