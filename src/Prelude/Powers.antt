-- ===== src/Prelude/Powers.antt =====
-- Powers of two.
use Prim.Native.Nat.{ℕ, zero, suc, ◌+◌, ◌*◌, ◌^◌, ◌≤◌, ◌<◌}
use mathlib.Core.Path.{◌≡◌, sym}
use native.Mathlib.Omega.{arith}
use native.Mathlib.Nat.{add-zero, mul-suc, pow-suc, add-suc, le_dest}

pub two_pow_add : (a b : ℕ) → 2 ^ (a + b) ≡ 2 ^ a * 2 ^ b
two_pow_add a zero = rw (add-zero a) (omega arith)
two_pow_add a (suc b) =
    rw (add-suc a b, pow-suc 2 (a + b), pow-suc 2 b, two_pow_add a b) (omega arith)

pub two_pow_positive : (a : ℕ) → 0 < 2 ^ a
two_pow_positive zero = omega arith
two_pow_positive (suc a) = omega (arith, two_pow_positive a, pow-suc 2 a)

mul-positive : (m n : ℕ) → 0 < n → m ≤ m * n
mul-positive m zero h = absurd (omega (arith, h))
mul-positive m (suc n) h = omega (arith, mul-suc m n)

pub two_pow_le : (a b : ℕ) → a ≤ b → 2 ^ a ≤ 2 ^ b
two_pow_le a b h =
    let (k, e) = le_dest h in
    rw (sym e) (omega (arith, two_pow_add a k, mul-positive (2 ^ a) (2 ^ k) (two_pow_positive k)))
