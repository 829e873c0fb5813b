-- ===== src/Market.antt =====
-- src/domain/market.rs: the markets, each a pair of currencies.
mod Table
pub mod Facts
mod Tests
unfoldable pub use Table.{pairs_one, pairs_two}
use Prim.Native.Char.{Char, code}
use Prim.Native.String
use Prim.Native.String.{char_at}
use risq.Base.{
  ℕ, ◌-◌, String, ◌≡◌, refl, Bool, true, ◌&&◌, ◌||◌, Option, none, some, List, [], ◌∷◌, ◌++◌, find,
  ◌==◌, string_eq, leb, if◌then◌else◌,
}
use risq.Currency.{Currency, from_code}

pub record Market : Type 0 where
  pub pair : String
  pub name : String
  pub left : Currency
  pub right : Currency

-- `to_lowercase` on the ASCII letters; the codes of the table hold no other letters.
abbrev lower_char : Char → Char
lower_char c =
    if leb 65 (code c) && leb (code c) 90
    then char_at "abcdefghijklmnopqrstuvwxyz" (code c - 65)
    else c

unfoldable pub to_lowercase : String → String
to_lowercase String.[] = String.[]
to_lowercase (String.◌∷◌ c s) = String.◌∷◌ (lower_char c) (to_lowercase s)

unfoldable pub make_market : Currency → Currency → Market
unfolding to_lowercase
make_market left right = record {
  pair = String.◌++◌ (to_lowercase left.code) (String.◌++◌ "_" (to_lowercase right.code));
  name = String.◌++◌ left.name (String.◌++◌ "/" right.name);
  left = left;
  right = right;
}

-- `new_market!`: `none` is the panic of `unwrap`.
unfoldable pub new_market : String × String → Option Market
unfolding from_code make_market
new_market (left, right) = elim (from_code left) [
  | none ↦ none
  | some l ↦ elim (from_code right) [ none ↦ none | some r ↦ some (make_market l r) ]
]

unfoldable pub new_markets : List (String × String) → Option (List Market)
unfolding new_market
new_markets [] = some []
new_markets (p ∷ ps) = elim (new_market p) [
  | none ↦ none
  | some m ↦ elim (new_markets ps) [ none ↦ none | some ms ↦ some (m ∷ ms) ]
]

-- The initialisation of `ALL`; `none` would be a panic.
unfoldable pub init_markets : Option (List Market)
unfolding new_markets pairs_one pairs_two
init_markets = new_markets (pairs_one ++ pairs_two)

-- `ALL`
unfoldable pub all_markets : List Market
unfolding init_markets
all_markets = elim init_markets [ none ↦ [] | some ms ↦ ms ]

unfoldable pub non_btc_side : Market → Currency
non_btc_side m = if m.left.code == "BTC" then m.right else m.left

unfoldable pub from_currency_pair : Currency → Currency → Option Market
unfolding all_markets
from_currency_pair left right =
    find (λ m. m.left.code == left.code && m.right.code == right.code) all_markets

unfoldable pub from_pair : String → Option Market
unfolding all_markets
from_pair market_pair = find (λ m. m.pair == market_pair) all_markets

-- `From<&Currency>`; `none` is the panic "Currency defined without market".
unfoldable pub from_currency : Currency → Option Market
unfolding all_markets
from_currency other =
    find (λ m. m.left.code == other.code || m.right.code == other.code) all_markets
