-- ===== src/Amount/Format.antt =====
-- `format` of src/domain/amount.rs, read back as a decimal fraction.
use mathlib.Core.List.{reverse-append, append_assoc}
use native.Mathlib.Nat.{
  mod-one, div-one, pow-zero, pow-suc, div-div-eq-div-mul, mul_comm, mul_assoc, mul-div_left,
  mul-div-mul_right,
}
use risq.Base.{
  ℕ, zero, suc, ◌+◌, ◌-◌, ◌*◌, ◌/◌, ◌%◌, ◌^◌, ◌≤◌, ◌≡◌, ◌≢◌, refl, ap, ◌∙◌, sym, arith, nat_beq,
  Bool-cases, inl, inr, ltb, true, false, List, [], ◌∷◌, ◌++◌, reverse, length, length-append, All,
  subst, ltb→le, ltb→lt,
}
use risq.Base.Pow.{mod10-mul, pow10-pos, pow-add}
use risq.Amount.{
  rescale, rest_amount, NumberWithPrecision, char_of_last_digit, push_digits, drop_digits, push_all,
  close_whole, format,
}
use risq.Amount.Scale.{FitsAt, rescale_up, rescale_down}

-- The number that a string of decimal digits stands for.
abbrev pub decimal_from : ℕ → List ℕ → ℕ
decimal_from acc [] = acc
decimal_from acc (c ∷ cs) = decimal_from (acc * 10 + (c - b'0')) cs

abbrev pub decimal : List ℕ → ℕ
decimal = decimal_from 0

abbrev pub IsDigit : ℕ → Type 0
IsDigit c = (b'0' ≤ c) × (c ≤ b'9')

-- The same for digits of which the last comes first.
rev_value : List ℕ → ℕ
rev_value [] = 0
rev_value (c ∷ cs) = c - b'0' + 10 * rev_value cs

decimal_from-append :
    (acc : ℕ) (xs ys : List ℕ) → decimal_from acc (xs ++ ys) ≡ decimal_from (decimal_from acc xs) ys
decimal_from-append acc [] ys = refl
decimal_from-append acc (x ∷ xs) ys = decimal_from-append (acc * 10 + (x - b'0')) xs ys

reverse-cons : (c : ℕ) (cs : List ℕ) → reverse (c ∷ cs) ≡ reverse cs ++ (c ∷ [])
reverse-cons c cs = reverse-append (c ∷ []) cs

decimal-reverse : (cs : List ℕ) → decimal (reverse cs) ≡ rev_value cs
unfolding rev_value
decimal-reverse [] = refl
decimal-reverse (c ∷ cs) =
    ap decimal (reverse-cons c cs)
    ∙ decimal_from-append 0 (reverse cs) (c ∷ [])
    ∙ omega (arith, decimal-reverse cs)

length-reverse : (cs : List ℕ) → length (reverse cs) ≡ length cs
length-reverse [] = refl
length-reverse (c ∷ cs) =
    ap length (reverse-cons c cs)
    ∙ omega (arith, length-append (reverse cs) (c ∷ []), length-reverse cs)

All-append : (P : ℕ → Type 0) (xs ys : List ℕ) → All P xs → All P ys → All P (xs ++ ys)
All-append P [] ys h k = k
All-append P (x ∷ xs) ys h k = (h.0, All-append P xs ys h.1 k)

All-reverse : (P : ℕ → Type 0) (xs : List ℕ) → All P xs → All P (reverse xs)
All-reverse P [] h = tt
All-reverse P (x ∷ xs) h =
    rw (reverse-cons x xs) (All-append P (reverse xs) (x ∷ []) (All-reverse P xs h.1) (h.0, tt))

IsDigit-char : (n : ℕ) → IsDigit (char_of_last_digit n) × (char_of_last_digit n - b'0' ≡ n % 10)
unfolding char_of_last_digit
IsDigit-char n = omega arith

push_digits-lem : (k a : ℕ) → (length (push_digits k a) ≡ k) × All IsDigit (push_digits k a)
unfolding push_digits
push_digits-lem zero a = (refl, tt)
push_digits-lem (suc k) a =
    let (len, digits) = push_digits-lem k (a / 10) in (ap suc len, ((IsDigit-char a).0, digits))

rev_value-push_digits : (k a : ℕ) → rev_value (push_digits k a) ≡ a % 10 ^ k
unfolding push_digits rev_value
rev_value-push_digits zero a = rw (pow-zero, mod-one)
rev_value-push_digits (suc k) a =
    omega (
      arith,
      (IsDigit-char a).1,
      rev_value-push_digits k (a / 10),
      mod10-mul a (10 ^ k) (pow10-pos k),
    )
    ∙ ap (λ n. a % n) (mul_comm 10 (10 ^ k) ∙ sym (pow-suc 10 k))

drop_digits-eq-div : (k a : ℕ) → drop_digits k a ≡ a / 10 ^ k
unfolding drop_digits
drop_digits-eq-div zero a = rw (pow-zero, div-one)
drop_digits-eq-div (suc k) a =
    drop_digits-eq-div k (a / 10)
    ∙ div-div-eq-div-mul a 10 (10 ^ k)
    ∙ ap (λ n. a / n) (mul_comm 10 (10 ^ k) ∙ sym (pow-suc 10 k))

push_all-value :
    (fuel a : ℕ) → a ≤ fuel → (rev_value (push_all fuel a) ≡ a) × All IsDigit (push_all fuel a)
unfolding push_all rev_value
push_all-value zero a h = (omega arith, tt)
push_all-value (suc fuel) a h =
    let (value, digits) = push_all-value fuel (a / 10) (omega arith) in
    elim (Bool-cases (ltb 0 a)) [
      | inl more ↦ rw more (omega (arith, value, (IsDigit-char a).1), ((IsDigit-char a).0, digits))
      | inr done ↦ rw done (ground arith, tt)
    ]

-- The string before it is reversed, in its two parts.
close_whole-append :
    (t : ℕ) (p q : List ℕ)
    → length p ≡ t
    → (w : List ℕ) × (close_whole t (p ++ (b'.' ∷ q)) ≡ p ++ (b'.' ∷ w))
      × (w ≢ [])
      × (rev_value w ≡ rev_value q)
      × (All IsDigit q → All IsDigit w)
unfolding close_whole rev_value
close_whole-append t p [] len =
    let closed : nat_beq (length (p ++ (b'.' ∷ []))) (t + 1) ≡ true =
      ground (arith, length-append p (b'.' ∷ [])) in
    (b'0' ∷ [], rw closed (append_assoc p (b'.' ∷ []) (b'0' ∷ [])), cc, refl, λ h. omega arith)
close_whole-append t p (c ∷ q) len =
    let open_ : nat_beq (length (p ++ (b'.' ∷ c ∷ q))) (t + 1) ≡ false =
      ground (arith, length-append p (b'.' ∷ c ∷ q)) in
    (c ∷ q, rw open_, cc, refl, λ h. h)

-- A decimal fraction: digits, a point, and more digits.
pub record IsDecimal (text : List ℕ) (whole_value fraction_value decimals : ℕ) : Type 0 where
  pub whole : List ℕ
  pub fraction : List ℕ
  pub parts : text ≡ whole ++ (b'.' ∷ fraction)
  pub whole_reads : decimal whole ≡ whole_value
  pub fraction_reads : decimal fraction ≡ fraction_value
  pub fraction_length : length fraction ≡ decimals
  pub some_whole : whole ≢ []
  pub whole_digits : All IsDigit whole
  pub fraction_digits : All IsDigit fraction

reverse-nil : (w : List ℕ) → w ≢ [] → reverse w ≢ []
reverse-nil [] h = h
reverse-nil (c ∷ w) h = λ e. grind (arith, length-reverse (c ∷ w), ap length e)

-- What `format` prints of the amount that its branches leave.
format-parts :
    (n : NumberWithPrecision) (t : ℕ)
    → let amount = rest_amount n.base_amount n.precision t in
      IsDecimal (format n t) (amount / 10 ^ t) (amount % 10 ^ t) t
unfolding format
format-parts n t =
    let amount : ℕ = rest_amount n.base_amount n.precision t in
    let p = push_digits t amount in
    let rest : ℕ = drop_digits t amount in
    let (len, digits) = push_digits-lem t amount in
    let (value, rest_digits) = push_all-value rest rest (omega arith) in
    let (w, closed, some, same, keep) = close_whole-append t p (push_all rest rest) len in
    record {
      whole = reverse w;
      fraction = reverse p;
      parts =
          ap reverse closed
          ∙ reverse-append p (b'.' ∷ w)
          ∙ ap (λ s. s ++ reverse p) (reverse-cons b'.' w)
          ∙ append_assoc (reverse w) (b'.' ∷ []) (reverse p);
      whole_reads = decimal-reverse w ∙ same ∙ value ∙ drop_digits-eq-div t amount;
      fraction_reads = decimal-reverse p ∙ rev_value-push_digits t amount;
      fraction_length = length-reverse p ∙ len;
      some_whole = reverse-nil w some;
      whole_digits = All-reverse IsDigit w (keep rest_digits);
      fraction_digits = All-reverse IsDigit p digits;
    }

-- The value base_amount / 10 ^ precision as a whole number of units of t decimals, rounded down.
abbrev pub units_at : NumberWithPrecision → ℕ → ℕ
units_at n t = n.base_amount * 10 ^ t / 10 ^ n.precision

units-widen : (a p t : ℕ) → p ≤ t → a * 10 ^ t / 10 ^ p ≡ a * 10 ^ (t - p)
units-widen a p t h =
    let split : 10 ^ t ≡ 10 ^ (t - p) * 10 ^ p =
      let parts : t ≡ t - p + p = omega arith in
      ap (λ (n : ℕ). 10 ^ n) parts ∙ pow-add 10 (t - p) p in
    rw split (
      ap (λ n. n / 10 ^ p) (sym (mul_assoc a (10 ^ (t - p)) (10 ^ p)))
      ∙ mul-div_left (a * 10 ^ (t - p)) {n = 10 ^ p} (pow10-pos p))

units-narrow : (a p t : ℕ) → t ≤ p → a * 10 ^ t / 10 ^ p ≡ a / 10 ^ (p - t)
units-narrow a p t h =
    let split : 10 ^ p ≡ 10 ^ (p - t) * 10 ^ t =
      let parts : p ≡ p - t + t = omega arith in
      ap (λ (n : ℕ). 10 ^ n) parts ∙ pow-add 10 (p - t) t in
    rw split (mul-div-mul_right {m = 10 ^ t} a (10 ^ (p - t)) (pow10-pos t))

rest_amount-units :
    (n : NumberWithPrecision) (t : ℕ)
    → FitsAt n t
    → n.precision - t ≤ 19
    → rest_amount n.base_amount n.precision t ≡ units_at n t
unfolding rest_amount rescale
rest_amount-units n t fits small = elim (Bool-cases (ltb t n.precision)) [
  | inr wider ↦
      rescale_up n.base_amount n.precision t (ltb→le _ _ wider) fits
      ∙ sym (units-widen n.base_amount n.precision t (ltb→le _ _ wider))
  | inl narrower ↦
      let le : t ≤ n.precision = omega (arith, ltb→lt _ _ narrower) in
      rescale_down n.base_amount n.precision t le small
      ∙ sym (units-narrow n.base_amount n.precision t le)
]

-- If the number fits 64 bits at t decimals, and has at most 19 decimals more than t, `format n t`
-- is its value rounded down to t decimals, written with exactly t digits after the point and at
-- least one before it.
pub format-IsDecimal :
    (n : NumberWithPrecision) (t : ℕ)
    → FitsAt n t
    → n.precision - t ≤ 19
    → IsDecimal (format n t) (units_at n t / 10 ^ t) (units_at n t % 10 ^ t) t
format-IsDecimal n t fits small =
    subst (λ amount. IsDecimal (format n t) (amount / 10 ^ t) (amount % 10 ^ t) t)
      (rest_amount-units n t fits small) (format-parts n t)
