-- ===== src/Amount/Product.antt =====
-- `mul` of src/domain/amount.rs.
use native.Mathlib.Nat.{mod-eq_of_lt, mul-one, pow-zero, pow-suc, mul-div-mul_right, div-one}
use risq.Base.{
  ℕ, zero, suc, ◌+◌, ◌-◌, ◌*◌, ◌/◌, ◌%◌, ◌^◌, ◌≤◌, ◌<◌, max, ◌≡◌, ◌≢◌, refl, ap, ap₂, ◌∙◌, sym,
  arith, nat_beq, Bool-cases, inl, inr, ltb, ltb→lt, ltb→le, ◌&&◌,
}
use risq.Base.Pow.{pow-add, pow10-pos}
use risq.Amount.{NumberWithPrecision, new, u64_mod, u32_mod, mul, strip_zeros, adjust}
use risq.Amount.Scale.{pow10-small}

-- What a loop of `mul` returns: `count` zeros are gone from the value and from the precision.
record Stripped (target value res_precision : ℕ) (out : ℕ × ℕ) : Type 0 where
  count : ℕ
  value_split : value ≡ out.0 * 10 ^ count
  precision_split : res_precision ≡ out.1 + count
  above : target ≤ res_precision → target ≤ out.1

tenth_times : (v w k : ℕ) → v % 10 ≡ 0 → v / 10 ≡ w * 10 ^ k → v ≡ w * 10 ^ suc k
tenth_times v w k whole e = rw pow-suc (omega (arith, e))

strip_zeros-Stripped :
    (fuel target value res_precision : ℕ)
    → Stripped target value res_precision (strip_zeros fuel target value res_precision)
unfolding strip_zeros
strip_zeros-Stripped zero target v r = record {
  count = 0;
  value_split = rw (pow-zero, mul-one);
  precision_split = omega arith;
  above = λ h. h;
}
strip_zeros-Stripped (suc fuel) target v r =
    elim (Bool-cases (ltb target r && nat_beq (v % 10) 0)) [
      | inl more ↦
          let ih = strip_zeros-Stripped fuel target (v / 10) (r - 1) in
          rw more (record {
            count = suc ih.count;
            value_split = tenth_times v _ ih.count (ground arith) ih.value_split;
            precision_split = ground (arith, ih.precision_split);
            above = λ h. ih.above (ground arith);
          })
      | inr done ↦ rw done (record {
        count = 0;
        value_split = rw (pow-zero, mul-one);
        precision_split = omega arith;
        above = λ h. h;
      })
    ]

-- Dropping trailing zeros first leaves the quotient as it is.
quotient-stripped : (x k d p : ℕ) → p ≡ d + k → x / 10 ^ d ≡ x * 10 ^ k / 10 ^ p
quotient-stripped x k d p e =
    rw e (rw (pow-add 10 d k) (sym (mul-div-mul_right x (10 ^ d) (pow10-pos k))))

-- Where decimals are left to drop, `adjust` divides by 10 ^ left.precision, whatever the target is.
adjust_left :
    (x k res left right target : ℕ)
    → target < res
    → right ≤ target
    → left ≤ 19
    → left + right ≡ res + k
    → adjust x res right target ≡ x * 10 ^ k / 10 ^ left
unfolding adjust
adjust_left x k res left right target more le small e =
    let pow_is = pow10-small (res - right) (omega arith) in
    ground (arith, pow_is, quotient-stripped x k (res - right) left)

adjust_none : (x res right : ℕ) → adjust x res right res ≡ x
unfolding adjust
adjust_none x res right = ground arith

factors_le : (x k : ℕ) → x ≤ x * 10 ^ k
factors_le x k = grind (arith, pow10-pos k)

regroup : (a b i j : ℕ) → a * 10 ^ i * (b * 10 ^ j) ≡ a * b * 10 ^ (i + j)
regroup a b i j = rw (pow-add 10 i j) (omega arith)

module _ (left right : NumberWithPrecision) (narrow : left.precision + right.precision < u32_mod)
    (small : left.precision ≤ 19) (fits : left.base_amount * right.base_amount < u64_mod) where
  abbrev lp : ℕ
  lp = left.precision

  abbrev rp : ℕ
  rp = right.precision

  abbrev target : ℕ
  target = max lp rp

  abbrev first : ℕ × ℕ
  first = strip_zeros (lp + rp) target left.base_amount (lp + rp)

  abbrev second : ℕ × ℕ
  second = strip_zeros first.1 target right.base_amount first.1

  mul-eq : mul left right ≡ new (adjust (first.0 * second.0 % u64_mod) second.1 rp target) target
  unfolding mul
  mul-eq = rw (mod-eq_of_lt narrow)

  -- What is left of the two numbers, and how many zeros are gone.
  stripped :
      (k : ℕ) × (left.base_amount * right.base_amount ≡ first.0 * second.0 * 10 ^ k)
      × (lp + rp ≡ second.1 + k)
      × (target ≤ second.1)
  stripped =
      let one = strip_zeros-Stripped (lp + rp) target left.base_amount (lp + rp) in
      let two = strip_zeros-Stripped first.1 target right.base_amount first.1 in
      (
        one.count + two.count,
        ap₂ ◌*◌ one.value_split two.value_split ∙ regroup first.0 second.0 one.count two.count,
        omega (arith, one.precision_split, two.precision_split),
        two.above (one.above (omega arith)),
      )

  no_wrap : first.0 * second.0 % u64_mod ≡ first.0 * second.0
  no_wrap =
      let (k, value, _, _) = stripped in
      mod-eq_of_lt (omega (arith, factors_le (first.0 * second.0) k))

  -- With decimals left to drop, the product is divided by 10 ^ left.precision.
  mul_open :
      target < second.1
      → mul left right ≡ new (left.base_amount * right.base_amount / 10 ^ lp) target
  mul_open more =
      let (k, value, split, _) = stripped in
      mul-eq
      ∙ ap (λ b. new b target)
          (ap (λ x. adjust x second.1 rp target) no_wrap
            ∙ adjust_left (first.0 * second.0) k second.1 lp rp target more (omega arith) small
                split
            ∙ ap (λ x. x / 10 ^ lp) (sym value))

  -- With none left, nothing is divided any more.
  mul_closed :
      lp ≤ rp
      → second.1 ≡ target
      → mul left right ≡ new (left.base_amount * right.base_amount / 10 ^ lp) target
  mul_closed le same =
      let (k, value, split, _) = stripped in
      let x = first.0 * second.0 in
      mul-eq
      ∙ ap (λ b. new b target)
          (ap₂ (λ y p. adjust y p rp target) no_wrap same
            ∙ adjust_none x target rp
            ∙ (rw (pow-zero, div-one) at (quotient-stripped x k 0 lp (omega arith)))
            ∙ ap (λ y. y / 10 ^ lp) (sym value))

  -- Where the left factor has no more decimals than the right one, 19 at most, and the product of
  -- the amounts fits 64 bits: `*` gives the exact product of the fractions, rounded down to the
  -- right factor's precision.
  pub mul_exact : lp ≤ rp → mul left right ≡ new (left.base_amount * right.base_amount / 10 ^ lp) rp
  mul_exact le =
      let finer : target ≡ rp = omega arith in
      elim (Bool-cases (ltb target second.1)) [
        | inl more ↦ mul_open (ltb→lt _ _ more) ∙ ap (new _) finer
        | inr done ↦
            let (_, _, _, above) = stripped in
            mul_closed le (omega (arith, ltb→le target second.1 done)) ∙ ap (new _) finer
      ]

  strip_none : (fuel t v r : ℕ) → v % 10 ≢ 0 → strip_zeros fuel t v r ≡ (v, r)
  unfolding strip_zeros
  strip_none zero t v r odd = refl
  strip_none (suc fuel) t v r odd = ground arith

  -- Where the left factor has more decimals than the right one, which has some, 19 at most, the
  -- product of the amounts fits 64 bits and neither ends in the digit 0: the product is divided by
  -- 10 ^ left.precision, where the precision of the result calls for 10 ^ right.precision.
  pub mul_wider_left :
      rp < lp
      → 0 < rp
      → left.base_amount % 10 ≢ 0
      → right.base_amount % 10 ≢ 0
      → mul left right ≡ new (left.base_amount * right.base_amount / 10 ^ lp) lp
  mul_wider_left wider some_left odd_left odd_right =
      let kept_first : first ≡ (left.base_amount, lp + rp) =
        strip_none (lp + rp) target left.base_amount (lp + rp) odd_left in
      let kept_second : second.1 ≡ lp + rp =
        ap (λ p. p.1) (strip_none first.1 target right.base_amount first.1 odd_right)
        ∙ ap (λ p. p.1) kept_first in
      let wide : target ≡ lp = omega arith in
      mul_open (omega (arith, kept_second)) ∙ ap (new _) wide
