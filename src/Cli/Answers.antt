-- ===== src/Cli/Answers.antt =====
-- What `offers` of src/cli.rs asks and prints.
use risq.Base.{
  ℕ, ◌+◌, String, ◌≡◌, refl, ◌⊎◌, inl, inr, false, Bool-cases, Option-cases, Option, none, some,
  List, [], ◌∷◌, length, map, ◌==◌, string_eq, nat_eq, beq→eq, All, arith, length-append,
}
use risq.Base.Text.{from_str, scan}
use risq.Address.{ok, err, u16_from_str}
use risq.Currency.{Currency, from_code}
use risq.Market.{Market, from_currency}
use risq.Market.Facts.{from_currency_total}
use risq.Cli.{
  Matches, Offers, market, offers_args, variables, lines, offers, display, into_iter, len,
}
use risq.Cli.Config.{IsAccepted, IsPort, port_value-IsPort}

-- `all`, or the code of a currency and its first market.
abbrev pub IsAsked : String → List (String × String) → Type 0
IsAsked value vars =
    ((value ≡ "all") × (vars ≡ []))
    ⊎ ((c : Currency) × (m : Market) × (from_code value ≡ some c)
        × (from_currency c ≡ some m)
        × (vars ≡ ("market", m.pair) ∷ []))

accepted_market : (value : String) → from_code value ≡ none → market value ≡ ok tt → value ≡ "all"
unfolding market
accepted_market value unknown e = elim (Bool-cases (value == "all")) [
  | inl same ↦ beq→eq value "all" same
  | inr other ↦ let bad : err _ ≡ ok tt = rw (other, unknown) at e in cc
]

all_or :
    {value : String}
    → from_code value ≡ none
    → (value ≡ "all") ⊎ (market value ≡ ok tt)
    → value ≡ "all"
all_or unknown (inl same) = same
all_or {value} unknown (inr e) = accepted_market value unknown e

variables-IsAsked :
    (value : String)
    → (value ≡ "all") ⊎ (market value ≡ ok tt)
    → (vars : List (String × String)) × (variables value ≡ some vars) × IsAsked value vars
unfolding variables
variables-IsAsked value fits = elim (Option-cases (from_code value)) [
  | inl unknown ↦ ([], rw unknown refl, inl (all_or unknown fits, refl))
  | inr (c, known) ↦
      let (m, made) = from_currency_total value known in
      (("market", m.pair) ∷ [], rw (known, made) refl, inr (c, m, known, made, refl))
]

-- With arguments that clap has accepted, the command does not panic: it asks the API on the port of
-- the arguments for all offers, or for those of the first market that has the currency, and prints
-- the answer.
pub offers-IsAsked :
    (query : ℕ → List (String × String) → Option Offers) (matches : Matches)
    → All (IsAccepted matches) offers_args
    → (port : ℕ) × (value : String) × (vars : List (String × String)) × IsPort matches "API_PORT"
        port
      × (matches.value_of "MARKET" ≡ some value)
      × IsAsked value vars
      × (offers query matches ≡ some (lines (query port vars)))
unfolding offers u16_from_str from_str scan
offers-IsAsked query matches (api, (wanted, _)) =
    let (port, is_port) = port_value-IsPort matches "API_PORT" "7477" 7477 refl (omega arith) api in
    let (value, given, fits) = wanted in
    let (vars, made, is_asked) = variables-IsAsked value fits in
    (port, value, vars, is_port, given, is_asked, rw (is_port.0, given, made) refl)

length-map : {A B : Type 0} (f : A → B) (xs : List A) → length (map f xs) ≡ length xs
length-map f [] = refl
length-map f (x ∷ xs) = omega (arith, length-map f xs)

-- One line for each offer, the offers to buy first, behind the heading.
pub lines-length :
    (o : Offers)
    → (len o == 0) ≡ false
    → length (lines (some o)) ≡ 1 + (length o.buys + length o.sells)
unfolding lines
lines-length o h =
    rw h (omega (arith, length-map display (into_iter o), length-append o.buys o.sells))
