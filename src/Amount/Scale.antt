-- ===== src/Amount/Scale.antt =====
-- `with_precision` of src/domain/amount.rs, while nothing overflows.
use native.Mathlib.Nat.{mod-eq_of_lt, pow-le-pow_right, mul-one, pow-zero, mul-div_left, div-one}
use risq.Base.{ℕ, ◌-◌, ◌*◌, ◌/◌, ◌%◌, ◌^◌, ◌≤◌, ◌<◌, ◌≡◌, ap, ap₂, ◌∙◌, sym, max, compare, arith}
use risq.Base.Pow.{mul-mod-mod, pow10-pos}
use risq.Amount.{NumberWithPrecision, new, u64_mod, pow10, rescale, with_precision, cmp}

-- The amount fits 64 bits at the finer of two precisions.
abbrev pub FitsAt : NumberWithPrecision → ℕ → Type 0
FitsAt n target = n.base_amount * 10 ^ (target - n.precision) < u64_mod

pub pow10-small : (k : ℕ) → k ≤ 19 → pow10 k ≡ 10 ^ k
unfolding pow10
pow10-small k h =
    mod-eq_of_lt (omega (arith, pow-le-pow_right {n = 10} (omega arith) {i = k} {j = 19} h))

-- Wrap-around in the power does no harm where the product fits.
pub mul-pow10 : (a k : ℕ) → a * 10 ^ k < u64_mod → a * pow10 k % u64_mod ≡ a * 10 ^ k
unfolding pow10
mul-pow10 a k fits = mul-mod-mod a (10 ^ k) u64_mod ∙ mod-eq_of_lt fits

self-scaled : (a p t : ℕ) → p ≡ t → a ≡ a * 10 ^ (t - p)
self-scaled a p t e = let none_left : t - p ≡ 0 = omega arith in rw (none_left, pow-zero, mul-one)

pub rescale_up : (a p t : ℕ) → p ≤ t → a * 10 ^ (t - p) < u64_mod → rescale a p t ≡ a * 10 ^ (t - p)
unfolding rescale
rescale_up a p t le fits = ground (arith, mul-pow10 a (t - p) fits, self-scaled a p t)

pub rescale_down : (a p t : ℕ) → t ≤ p → p - t ≤ 19 → rescale a p t ≡ a / 10 ^ (p - t)
unfolding rescale
rescale_down a p t le small =
    let same : t ≡ p → a ≡ a / 10 ^ (p - t) =
      λ e. let none_left : p - t ≡ 0 = omega arith in rw (none_left, pow-zero, div-one) in
    ground (arith, pow10-small (p - t) small, same)

with_precision-same :
    (n : NumberWithPrecision) (t : ℕ)
    → n.precision ≡ t
    → (with_precision n t).base_amount ≡ n.base_amount
unfolding with_precision rescale
with_precision-same n t h = ground (arith, h)

-- Numbers of one precision are compared by their amounts.
pub cmp_same :
    (p : ℕ) (a b : NumberWithPrecision)
    → a.precision ≡ p
    → b.precision ≡ p
    → cmp a b ≡ compare a.base_amount b.base_amount
unfolding cmp
cmp_same p a b h k =
    let finer : max a.precision b.precision ≡ p = omega (arith, h, k) in
    ap₂ compare (with_precision-same a (max a.precision b.precision) (h ∙ sym finer))
      (with_precision-same b (max a.precision b.precision) (k ∙ sym finer))

-- Widening a number by at most 19 decimals and narrowing it again gives it back, if the wider
-- amount fits 64 bits.
pub with_precision_roundtrip :
    (n : NumberWithPrecision) (t : ℕ)
    → n.precision ≤ t
    → t - n.precision ≤ 19
    → FitsAt n t
    → with_precision (with_precision n t) n.precision ≡ n
unfolding with_precision
with_precision_roundtrip n t le small fits =
    let a = n.base_amount in
    let p = n.precision in
    let down = rescale_down (a * 10 ^ (t - p)) t p le small in
    let back = mul-div_left a {n = 10 ^ (t - p)} (pow10-pos (t - p)) in
    rw (rescale_up a p t le fits) (ap (λ b. new b p) (down ∙ back))
