-- ===== src/Base/Table.antt =====
-- Facts about bytes by evaluation at every value.
use Prim.Native.Nat.{ℕ, zero, suc, ◌<◌}
use mathlib.Core.Path.{◌≡◌}
use mathlib.Core.Bool.{Bool, true, ◌&&◌}
use native.Mathlib.Omega.{arith}

unfoldable pub each_below : (ℕ → Bool) → ℕ → Bool
each_below p zero = true
each_below p (suc n) = each_below p n && p n

pub each_below_at : (p : ℕ → Bool) (x n : ℕ) → x < n → each_below p n ≡ true → p x ≡ true
unfolding each_below
each_below_at p x zero lt all = absurd (omega arith)
each_below_at p x (suc last) lt all = ground (arith, each_below_at p x last)
