-- ===== src/Currency.antt =====
-- src/domain/currency.rs: the currencies that bisq knows.
mod Types
mod TableA
mod TableB
pub use Types.{
  CurrencyType, fiat, crypto, Currency, currency, type_precision, bisq_internal_precision,
  type_is_crypto, is_crypto,
}
unfoldable pub use TableA.{
  currencies_one, currencies_two, currencies_three, currencies_four, currencies_five,
  currencies_six,
}
unfoldable pub use TableB.{
  currencies_seven, currencies_eight, currencies_nine, currencies_ten, currencies_eleven,
  currencies_twelve,
}
use risq.Base.{
  String, ◌≡◌, Bool, true, Option, none, some, List, [], ◌∷◌, ◌++◌, find, find-holds, ◌==◌,
  string_eq, if◌then◌else◌, Bool-cases, inl, inr, beq→eq,
}

-- `ALL`
unfoldable pub all_currencies : List Currency
unfolding currencies_one currencies_two currencies_three currencies_four currencies_five
    currencies_six currencies_seven currencies_eight currencies_nine currencies_ten
    currencies_eleven currencies_twelve
all_currencies =
    currencies_one
    ++ (currencies_two
        ++ (currencies_three
            ++ (currencies_four
                ++ (currencies_five
                    ++ (currencies_six
                        ++ (currencies_seven
                            ++ (currencies_eight
                                ++ (currencies_nine
                                    ++ (currencies_ten
                                        ++ (currencies_eleven ++ currencies_twelve))))))))))

unfoldable pub from_code : String → Option Currency
unfolding all_currencies
from_code code = find (λ c. c.code == code) all_currencies

-- A currency is found under its own code only.
pub from_code-code : (code : String) {c : Currency} → from_code code ≡ some c → c.code ≡ code
unfolding from_code
from_code-code code {c} found =
    beq→eq c.code code (find-holds (λ d. d.code == code) all_currencies found)
