-- ===== src/Address/Tests.antt =====
-- The texts of addresses of src/bisq/payload.rs at work.
use risq.Base.{◌≡◌, refl, arith}
use risq.Base.Text.{split, from_str, to_string}
use risq.Address.{
  ok, err, address, parse_address, display, address_of_parts, u16_from_str, display_i32,
}
use risq.Address.Texts.{IsAddress, parse_address-display, parse_address-IsAddress}

-- What follows a second colon is not read.
third_part : parse_address "127.0.0.1:4002:x" ≡ ok (address "127.0.0.1" 4002)
unfolding parse_address address_of_parts u16_from_str split from_str
third_part = refl

too_high : parse_address "127.0.0.1:65536" ≡ err "Couldn't parse port"
unfolding parse_address address_of_parts u16_from_str split from_str
too_high = refl

written : display (address "127.0.0.1" 4002) ≡ "127.0.0.1:4002"
unfolding display display_i32 to_string
written = refl

parse_address-display_example :
    parse_address (display (address "a.onion" 9999)) ≡ ok (address "a.onion" 9999)
parse_address-display_example =
    parse_address-display (address "a.onion" 9999) 9999 (omega arith) refl (omega arith)

parse_address-IsAddress_example : IsAddress (address "127.0.0.1" 4002)
parse_address-IsAddress_example = parse_address-IsAddress "127.0.0.1:4002:x" third_part
