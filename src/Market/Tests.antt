-- ===== src/Market/Tests.antt =====
-- The laws of src/domain/market.rs and src/domain/currency.rs at entries of the tables.
use risq.Base.{◌≡◌, refl}
use risq.Currency.{Currency, currency, crypto, fiat, from_code, from_code-code}
use risq.Market.{Market}

abbrev bitcoin : Currency
bitcoin = currency "BTC" "Bitcoin" crypto

abbrev euro : Currency
euro = currency "EUR" "Euro" fiat

abbrev btc_eur : Market
btc_eur = record { pair = "btc_eur"; name = "Bitcoin/Euro"; left = bitcoin; right = euro }

from_code-code_example : euro.code ≡ "EUR"
unfolding from_code
from_code-code_example = from_code-code "EUR" {c = euro} refl
