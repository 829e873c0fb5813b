-- ===== src/Amount/Compare.antt =====
-- Comparison and addition in src/domain/amount.rs, against the fractions that the numbers stand
-- for.
use native.Mathlib.Nat.{mod-eq_of_lt, mul_assoc}
use risq.Base.{
  ℕ, ◌+◌, ◌-◌, ◌*◌, ◌^◌, ◌≤◌, ◌<◌, max, compare, ◌≡◌, true, ap, ap₂, ◌∙◌, sym, arith, ◌↔◌,
}
use risq.Base.Pow.{compare-mul, pow-add, pow10-pos}
use risq.Amount.{NumberWithPrecision, u64_mod, with_precision, add_assign, amount_eq, cmp}
use risq.Amount.Scale.{FitsAt, rescale_up}

module _ (a b : NumberWithPrecision) where
  -- Both amounts fit 64 bits at the finer of their precisions.
  abbrev pub BothFit : Type 0
  BothFit = FitsAt a (max a.precision b.precision) × FitsAt b (max a.precision b.precision)

-- 10 ^ (t - p) * 10 ^ (p + q - t) = 10 ^ q for p ≤ t ≤ p + q
complement : (p q t : ℕ) → p ≤ t → t ≤ p + q → 10 ^ (t - p) * 10 ^ (p + q - t) ≡ 10 ^ q
complement p q t h k =
    sym (pow-add 10 (t - p) (p + q - t))
    ∙ (let e : t - p + (p + q - t) ≡ q = omega arith in ap (λ (n : ℕ). 10 ^ n) e)

module _ (a b : NumberWithPrecision) (fits : BothFit a b) where
  abbrev target : ℕ
  target = max a.precision b.precision

  left_scaled : (with_precision a target).base_amount ≡ a.base_amount * 10 ^ (target - a.precision)
  unfolding with_precision
  left_scaled = rescale_up a.base_amount a.precision target (omega arith) fits.0

  right_scaled : (with_precision b target).base_amount ≡ b.base_amount * 10 ^ (target - b.precision)
  unfolding with_precision
  right_scaled = rescale_up b.base_amount b.precision target (omega arith) fits.1

  abbrev rest : ℕ
  rest = a.precision + b.precision - target

  left_cross : (with_precision a target).base_amount * 10 ^ rest ≡ a.base_amount * 10 ^ b.precision
  left_cross = rw left_scaled (
      mul_assoc a.base_amount (10 ^ (target - a.precision)) (10 ^ rest)
      ∙ ap (λ n. a.base_amount * n)
          (complement a.precision b.precision target (omega arith) (omega arith)))

  right_cross : (with_precision b target).base_amount * 10 ^ rest ≡ b.base_amount * 10 ^ a.precision
  right_cross =
      let same : b.precision + a.precision - target ≡ rest = omega arith in
      rw right_scaled (
        mul_assoc b.base_amount (10 ^ (target - b.precision)) (10 ^ rest)
        ∙ ap (λ n. b.base_amount * n)
            (ap (λ n. 10 ^ (target - b.precision) * 10 ^ n) (sym same)
              ∙ complement b.precision a.precision target (omega arith) (omega arith)))

  -- Where both amounts fit 64 bits at the finer of the precisions, the order of two numbers is that
  -- of the fractions: a / 10 ^ p against b / 10 ^ q is a * 10 ^ q against b * 10 ^ p.
  pub cmp_exact :
      cmp a b ≡ compare (a.base_amount * 10 ^ b.precision) (b.base_amount * 10 ^ a.precision)
  unfolding cmp
  cmp_exact =
      sym (
        compare-mul (with_precision a target).base_amount (with_precision b target).base_amount
          (10 ^ rest) (pow10-pos rest))
      ∙ ap₂ compare left_cross right_cross

  -- Where both amounts fit 64 bits at the finer of the precisions, two numbers are equal for `==`
  -- exactly if their fractions are.
  pub amount_eq_exact :
      (amount_eq a b ≡ true) ↔ (a.base_amount * 10 ^ b.precision ≡ b.base_amount * 10 ^ a.precision)
  unfolding amount_eq cmp
  amount_eq_exact = ground (arith, cmp_exact)

  sum_precision : a.precision + b.precision ≡ rest + target
  sum_precision = omega arith

  -- Where both amounts and their sum fit 64 bits at the finer of the precisions, the sum by `+=` is
  -- that of the fractions.
  pub add_assign_exact :
      (with_precision a target).base_amount + (with_precision b target).base_amount < u64_mod
      → (add_assign a b).base_amount * 10 ^ (a.precision + b.precision)
        ≡ (a.base_amount * 10 ^ b.precision + b.base_amount * 10 ^ a.precision)
          * 10 ^ (add_assign a b).precision
  unfolding add_assign
  add_assign_exact small =
      rw (mod-eq_of_lt small, sum_precision, pow-add 10 rest target)
        (rw (← left_cross, ← right_cross) (omega arith))
