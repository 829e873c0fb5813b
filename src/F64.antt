-- ===== src/F64.antt =====
-- The operations on `f64` that the program uses. Floating point is a parameter of the model.
use risq.Base.{ℕ}

pub record F64 (F : Type 0) : Type 0 where
  pub one : F
  pub zero_f64 : F
  pub add : F → F → F
  pub sub : F → F → F
  pub mul : F → F → F
  pub div : F → F → F
  -- `n as f64`, `10_f64.powf(n as f64)` and `x as u64`
  pub from_u64 : ℕ → F
  pub ten_powf : ℕ → F
  pub to_u64 : F → ℕ
