-- ===== src/Address/Texts.antt =====
-- What the texts of addresses in src/bisq/payload.rs mean.
use Prim.Native.String.{◌++◌, char_at}
use text.Mathlib.TextLemmas.{cons-append, nil-append}
use risq.Base.{
  ℕ, ◌≤◌, ◌%◌, ◌^◌, String, ◌≡◌, refl, ap, sym, subst, Option, ◌∙◌, All, none, some, List, [], ◌∷◌,
  arith,
}
use risq.Base.Int.{pos}
use risq.Base.Text.{
  split, split-append, split_whole, split-Lacks, Lacks, to_string, to_string-Lacks,
  from_str-to_string, from_str, from_str_bound,
}
use risq.P2p.Status.{NodeAddress}
use risq.Address.{
  ok, u16_from_str, with_port, address_of_parts, parse_address, display_i32, display, socket_addr,
}

colon_first : (s : String) → ":" ++ s ≡ String.◌∷◌ (char_at ":" 0) s
colon_first s =
    cons-append (char_at ":" 0) String.[] s ∙ ap (String.◌∷◌ (char_at ":" 0)) (nil-append s)

-- An address is read back from its text if its name has no colon and its port is a `u16`.
pub parse_address-display :
    (a : NodeAddress) (port : ℕ)
    → Lacks b':' a.host_name
    → a.port ≡ pos port
    → port ≤ 65535
    → parse_address (display a) ≡ ok a
unfolding parse_address display display_i32 address_of_parts u16_from_str
parse_address-display a port no_colon p h =
    let parts : split b':' (display a) ≡ a.host_name ∷ to_string port ∷ [] =
      ap (λ n. split b':' (a.host_name ++ (":" ++ display_i32 n))) p
      ∙ ap (λ s. split b':' (a.host_name ++ s)) (colon_first (to_string port))
      ∙ split-append (char_at ":" 0) a.host_name (to_string port) no_colon
      ∙ ap (λ ps. a.host_name ∷ ps)
          (split_whole b':' (to_string port) (to_string-Lacks b':' port (omega arith))) in
    ap address_of_parts parts
    ∙ ap (with_port a.host_name) (from_str-to_string 65535 port h)
    ∙ ap (λ n. ok (record { host_name = a.host_name; port = n })) (sym p)

parsed : {a b : NodeAddress} → ok a ≡ ok b → a ≡ b
parsed e = cc

mod-eq : (n : ℕ) → n ≤ 65535 → n % 2 ^ 16 ≡ n
mod-eq n h = omega arith

abbrev pub IsAddress : NodeAddress → Type 0
IsAddress a =
    (port : ℕ) × (a.port ≡ pos port)
    × (port ≤ 65535)
    × Lacks b':' a.host_name
    × (socket_addr a ≡ (a.host_name, port))

with_port-IsAddress :
    (host_name : String) (port : Option ℕ) {a : NodeAddress}
    → Lacks b':' host_name
    → ((n : ℕ) → port ≡ some n → n ≤ 65535)
    → with_port host_name port ≡ ok a
    → IsAddress a
unfolding socket_addr
with_port-IsAddress host_name none h small e = cc
with_port-IsAddress host_name (some n) h small e =
    subst IsAddress (parsed e)
      (n, refl, small n refl, h, ap (λ m. (host_name, m)) (mod-eq n (small n refl)))

-- An address that is read has a port that fits a `u16`, so that a connection goes to just that
-- port, and a name without a colon.
pub parse_address-IsAddress : (s : String) {a : NodeAddress} → parse_address s ≡ ok a → IsAddress a
unfolding parse_address address_of_parts
parse_address-IsAddress s {a} e = of_parts (split b':' s) (split-Lacks b':' s) e
  where
    of_parts : (ps : List String) → All (Lacks b':') ps → address_of_parts ps ≡ ok a → IsAddress a
    of_parts [] h e = cc
    of_parts (p ∷ []) h e = cc
    of_parts (p ∷ q ∷ ps) h e =
        with_port-IsAddress p (from_str 65535 q) h.0 (λ n. from_str_bound 65535 q) e
