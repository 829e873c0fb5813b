-- ===== src/Amount.antt =====
-- src/domain/amount.rs: `NumberWithPrecision`, a fixed-point decimal number.
-- Arithmetic on `u64` and `u32` wraps around, as in a release build. `x / 0` is 0 here where the
-- source panics: `10_u64.pow(k)` is 0 from k = 64 on, and the laws that narrow a number ask for
-- k ≤ 19.
pub mod Scale
pub mod Compare
pub mod Product
pub mod Format
mod Tests
use risq.Base.{
  ℕ, zero, suc, ◌+◌, ◌-◌, ◌*◌, ◌/◌, ◌%◌, ◌^◌, max, compare, Ordering, Bool, ◌&&◌, Option, none,
  some, List, [], ◌∷◌, ◌++◌, reverse, length, ltb, nat_beq, if◌then◌else◌,
}
use risq.F64.{F64}

abbrev pub u64_mod : ℕ
u64_mod = 2 ^ 64

abbrev pub u32_mod : ℕ
u32_mod = 2 ^ 32

-- The value is base_amount / 10 ^ precision.
pub record NumberWithPrecision : Type 0 where
  pub base_amount : ℕ
  pub precision : ℕ

abbrev pub new : ℕ → ℕ → NumberWithPrecision
new base_amount precision = record { base_amount = base_amount; precision = precision }

-- `ZERO`
abbrev pub zero_amount : NumberWithPrecision
zero_amount = new 0 8

-- `10_u64.pow(k)`
pub pow10 : ℕ → ℕ
pow10 k = 10 ^ k % u64_mod

-- The branches of `with_precision`.
pub rescale : ℕ → ℕ → ℕ → ℕ
rescale amount precision target =
    if ltb precision target
    then (amount * pow10 (target - precision)) % u64_mod
    else if ltb target precision
    then amount / pow10 (precision - target)
    else amount

unfoldable pub with_precision : NumberWithPrecision → ℕ → NumberWithPrecision
unfolding rescale
with_precision n target = new (rescale n.base_amount n.precision target) target

-- The branches of `format`, before its loops.
pub rest_amount : ℕ → ℕ → ℕ → ℕ
rest_amount amount precision target_precision =
    if ltb precision target_precision
    then (amount * pow10 (target_precision - precision)) % u64_mod
    else if ltb target_precision precision
    then amount / pow10 (precision - target_precision)
    else amount

-- `AddAssign`
unfoldable pub add_assign : NumberWithPrecision → NumberWithPrecision → NumberWithPrecision
add_assign a b =
    let target = max a.precision b.precision in
    new (((with_precision a target).base_amount + (with_precision b target).base_amount) % u64_mod)
      target

-- `PartialEq`
unfoldable pub amount_eq : NumberWithPrecision → NumberWithPrecision → Bool
amount_eq a b =
    let target = max a.precision b.precision in
    nat_beq (with_precision a target).base_amount (with_precision b target).base_amount

-- `Ord`
unfoldable pub cmp : NumberWithPrecision → NumberWithPrecision → Ordering
cmp a b =
    let target = max a.precision b.precision in
    compare (with_precision a target).base_amount (with_precision b target).base_amount

-- A loop of `mul`: while more than `target` decimals are left, drop a trailing zero of `value`.
pub strip_zeros : ℕ → ℕ → ℕ → ℕ → ℕ × ℕ
strip_zeros zero target value res_precision = (value, res_precision)
strip_zeros (suc fuel) target value res_precision =
    let rest = strip_zeros fuel target (value / 10) (res_precision - 1) in
    if ltb target res_precision && nat_beq (value % 10) 0 then rest else (value, res_precision)

-- The end of `mul`: `-` does not go below 0 in either branch.
pub adjust : ℕ → ℕ → ℕ → ℕ → ℕ
adjust res res_precision right_precision target =
    if ltb target res_precision
    then res / pow10 (res_precision - right_precision)
    else if ltb res_precision target
    then (res * pow10 (right_precision - res_precision)) % u64_mod
    else res

-- `Mul`. The fuel of each loop is the precision that it counts down.
unfoldable pub mul : NumberWithPrecision → NumberWithPrecision → NumberWithPrecision
unfolding strip_zeros adjust
mul left right =
    let sum_precision : ℕ = (left.precision + right.precision) % u32_mod in
    let target : ℕ = max left.precision right.precision in
    let first = strip_zeros sum_precision target left.base_amount sum_precision in
    let second = strip_zeros first.1 target right.base_amount first.1 in
    new (adjust ((first.0 * second.0) % u64_mod) second.1 right.precision target) target

-- `Div<u64>`: `none` is the panic on 0.
unfoldable pub div : NumberWithPrecision → ℕ → Option NumberWithPrecision
div n rhs = if nat_beq rhs 0 then none else some (new (n.base_amount / rhs) n.precision)

-- `Div<NumberWithPrecision>`, in floating point.
unfoldable pub div_amount :
    {F : Type 0} → F64 F → NumberWithPrecision → NumberWithPrecision → Option NumberWithPrecision
div_amount f a b =
    let target : ℕ = max a.precision b.precision in
    let f1 = f.div (f.from_u64 a.base_amount) (f.from_u64 (10 ^ a.precision % u32_mod)) in
    let f2 = f.div (f.from_u64 b.base_amount) (f.from_u64 (10 ^ b.precision % u32_mod)) in
    if nat_beq b.base_amount 0
    then none
    else some (new (f.to_u64 (f.mul (f.div f1 f2) (f.ten_powf target))) target)

-- `char_of_last_digit`, as an ASCII code
pub char_of_last_digit : ℕ → ℕ
char_of_last_digit n = b'0' + n % 10

-- The first loop of `format`: `count` digits, the last first.
pub push_digits : ℕ → ℕ → List ℕ
unfolding char_of_last_digit
push_digits zero rest = []
push_digits (suc count) rest = char_of_last_digit rest ∷ push_digits count (rest / 10)

-- The amount that the first loop leaves.
pub drop_digits : ℕ → ℕ → ℕ
drop_digits zero rest = rest
drop_digits (suc count) rest = drop_digits count (rest / 10)

-- The second loop, with the amount itself as fuel: it falls in each round.
pub push_all : ℕ → ℕ → List ℕ
unfolding char_of_last_digit
push_all zero rest = []
push_all (suc fuel) rest =
    let more = push_all fuel (rest / 10) in
    if ltb 0 rest then char_of_last_digit rest ∷ more else []

-- A string without digits before the point gets a '0'.
pub close_whole : ℕ → List ℕ → List ℕ
close_whole target ret = if nat_beq (length ret) (target + 1) then ret ++ (b'0' ∷ []) else ret

unfoldable pub format : NumberWithPrecision → ℕ → List ℕ
unfolding rest_amount push_digits drop_digits push_all close_whole
format n target =
    let amount = rest_amount n.base_amount n.precision target in
    let rest = drop_digits target amount in
    reverse (close_whole target (push_digits target amount ++ (b'.' ∷ push_all rest rest)))
