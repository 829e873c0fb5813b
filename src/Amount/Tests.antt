-- ===== src/Amount/Tests.antt =====
-- The laws of src/domain/amount.rs at concrete numbers.
use risq.Base.{◌≡◌, ◌*◌, ◌/◌, ◌%◌, ◌^◌, arith, ◌+◌, ◌<◌}
use risq.Amount.{new, u64_mod, rescale, pow10, with_precision, mul, format}
use risq.Amount.Scale.{with_precision_roundtrip}
use risq.Amount.Product.{mul_exact}
use risq.Amount.Format.{IsDecimal, units_at, format-IsDecimal}

with_precision_roundtrip_example : with_precision (with_precision (new 123 2) 8) 2 ≡ new 123 2
with_precision_roundtrip_example =
    with_precision_roundtrip (new 123 2) 8 (omega arith) (omega arith) (omega arith)

scaled_small :
    (with_precision (new 123 2) 4).base_amount + (with_precision (new 45 4) 4).base_amount < u64_mod
unfolding with_precision rescale pow10
scaled_small = omega arith

mul_exact_example : mul (new 20_000 4) (new 150_000_000 8) ≡ new (20_000 * 150_000_000 / 10 ^ 4) 8
mul_exact_example =
    mul_exact (new 20_000 4) (new 150_000_000 8) (omega arith) (omega arith) (omega arith)
      (omega arith)

format-IsDecimal_example :
    IsDecimal
      (format (new 123_456 5) 2)
      (units_at (new 123_456 5) 2 / 10 ^ 2)
      (units_at (new 123_456 5) 2 % 10 ^ 2)
      2
format-IsDecimal_example = format-IsDecimal (new 123_456 5) 2 (omega arith) (omega arith)
