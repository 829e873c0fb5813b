-- ===== src/Currency/Types.antt =====
-- `CurrencyType` and `Currency` of src/domain/currency.rs.
use risq.Base.{ℕ, String, Bool, true, false}

pub data CurrencyType : Type 0 where
  fiat crypto : CurrencyType

pub record Currency : Type 0 where
  pub code : String
  pub name : String
  pub currency_type : CurrencyType

abbrev pub currency : String → String → CurrencyType → Currency
currency code name currency_type = record {
  code = code;
  name = name;
  currency_type = currency_type;
}

-- `CurrencyType::bisq_internal_precision`
abbrev pub type_precision : CurrencyType → ℕ
type_precision fiat = 4
type_precision crypto = 8

abbrev pub bisq_internal_precision : Currency → ℕ
bisq_internal_precision c = type_precision c.currency_type

abbrev pub type_is_crypto : CurrencyType → Bool
type_is_crypto fiat = false
type_is_crypto crypto = true

abbrev pub is_crypto : Currency → Bool
is_crypto c = type_is_crypto c.currency_type
