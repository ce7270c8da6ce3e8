-- ===== src/Prelude/Order.antt =====
-- The result of a comparison.
use Prim.Native.Nat.{ℕ}
use kira_rust.Prelude.Tests.{ltb, ◌==◌, if◌then◌else◌}

pub data Ordering : Type 0 where
  less equal greater : Ordering

-- `Ord::cmp` on numbers.
abbrev pub cmp : ℕ → ℕ → Ordering
cmp a b = if ltb a b then less else if a == b then equal else greater

-- `Ordering::reverse`.
abbrev pub flip : Ordering → Ordering
flip less = greater
flip equal = equal
flip greater = less
