-- ===== src/Base/Pow.antt =====
-- Powers of ten, and comparisons and quotients of products.
use Prim.Native.Nat.{ℕ, zero, suc, ◌+◌, ◌*◌, ◌/◌, ◌%◌, ◌^◌, ◌<◌, compare}
use mathlib.Core.Path.{◌≡◌, sym, ap, ◌∙◌}
use native.Mathlib.Omega.{arith}
use native.Mathlib.Nat.{
  pow-suc, pow-zero, suc-add, zero-add, one-mul, mul_assoc, mul_comm, one-le-pow,
  mul-lt-mul_of_pos_right, div-add-mod, add-mul-mod_self_left, mod-lt, mod-eq_of_lt,
}

pub pow-add : (b m n : ℕ) → b ^ (m + n) ≡ b ^ m * b ^ n
pow-add b zero n = simp (pow-zero, zero-add, one-mul)
pow-add b (suc m) n = simp (suc-add, pow-suc, pow-add b m n, mul_assoc) (simp (mul_comm (b ^ n) b))

pub pow10-pos : (n : ℕ) → 0 < 10 ^ n
pow10-pos n = one-le-pow n 10 (omega arith)

-- The comparison of two numbers is that of their multiples.
pub compare-mul : (a b c : ℕ) → 0 < c → compare (a * c) (b * c) ≡ compare a b
compare-mul a b c h = ground (
  arith,
  mul-lt-mul_of_pos_right {m = a} {n = b} {k = c},
  mul-lt-mul_of_pos_right {m = b} {n = a} {k = c},
)

-- A factor may be reduced before a product is.
pub mul-mod-mod : (a b m : ℕ) → a * (b % m) % m ≡ a * b % m
mul-mod-mod a b m =
    let split : a * b ≡ a * (b % m) + m * (a * (b / m)) =
      omega (arith, ap (λ (t : ℕ). a * t) (div-add-mod b m)) in
    rw split (sym (add-mul-mod_self_left (a * (b % m)) m (a * (b / m))))

-- The last digit, and the rest of a remainder.
pub mod10-mul : (a m : ℕ) → 0 < m → a % 10 + 10 * (a / 10 % m) ≡ a % (10 * m)
mod10-mul a m pos =
    let low : ℕ = a % 10 + 10 * (a / 10 % m) in
    let q : ℕ = a / 10 / m in
    let split : a ≡ low + 10 * m * q =
      omega (arith, ap (λ (t : ℕ). 10 * t) (div-add-mod (a / 10) m)) in
    let bound : low < 10 * m = omega (arith, mod-lt (a / 10) pos) in
    sym (ap (λ n. n % (10 * m)) split ∙ add-mul-mod_self_left low (10 * m) q ∙ mod-eq_of_lt bound)
