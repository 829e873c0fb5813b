-- ===== src/P2p/Tor/Line.antt =====
-- The lines of Tor's control port, of src/p2p/tor.rs: the errors, and what one line says. The
-- offsets into a text count its bytes in UTF-8.
use Prim.Native.Char.{Char, code}
use Prim.Native.String
use risq.Base.{
  ℕ, ◌+◌, ◌-◌, String, Bool, true, false, ◌&&◌, ◌||◌, Option, none, some, List, [], ◌∷◌, ◌==◌,
  string_eq, nat_eq, nat_beq, ltb, leb, if◌then◌else◌,
}
use risq.Base.Text.{from_str}

pub data TcErrorKind : Type 0 where
  resource_exhausted syntax_error_protocol unrecognized_cmd unimplemented_cmd : TcErrorKind
  syntax_error_cmd_arg unrecognized_cmd_arg auth_required bad_auth : TcErrorKind
  unspecified_tor_error internal_error unrecognized_entity invalid_config_value : TcErrorKind
  invalid_descriptor unmanaged_entity : TcErrorKind

-- The error of the system inside `io_error` is left out.
pub data TcError : Type 0 where
  io_error unknown_response cannot_read_auth_cookie authentication_error : TcError
  tor_error : TcErrorKind → TcError

-- `TryFrom<u32>`
unfoldable pub try_from : ℕ → Option TcErrorKind
try_from status =
    if status == 451
    then some resource_exhausted
    else if status == 500
    then some syntax_error_protocol
    else if status == 510
    then some unrecognized_cmd
    else if status == 511
    then some unimplemented_cmd
    else if status == 512
    then some syntax_error_cmd_arg
    else if status == 513
    then some unrecognized_cmd_arg
    else if status == 514
    then some auth_required
    else if status == 515
    then some bad_auth
    else if status == 550
    then some unspecified_tor_error
    else if status == 551
    then some internal_error
    else if status == 552
    then some unrecognized_entity
    else if status == 553
    then some invalid_config_value
    else if status == 554
    then some invalid_descriptor
    else if status == 555
    then some unmanaged_entity
    else none

-- A result of the source, or a panic.
pub data Outcome (A : Type 0) : Type 0 where
  done : A → Outcome A
  failed : TcError → Outcome A
  panicked : Outcome A

infixl 5 ◌>>=◌
abbrev pub ◌>>=◌ : {A B : Type 0} → Outcome A → (A → Outcome B) → Outcome B
done a >>= f = f a
failed e >>= f = failed e
panicked >>= f = panicked

-- `len_utf8`
abbrev pub len_utf8 : Char → ℕ
len_utf8 c =
    if ltb (code c) 128
    then 1
    else if ltb (code c) 2048
    then 2
    else if ltb (code c) 65536
    then 3
    else 4

abbrev pub len : String → ℕ
len String.[] = 0
len (String.◌∷◌ c s) = len_utf8 c + len s

abbrev pub onto : Char → Option (String × String) → Option (String × String)
onto c none = none
onto c (some (before, behind)) = some (String.◌∷◌ c before, behind)

-- `split_at`, which panics inside a character and behind the end.
unfoldable pub split_at : ℕ → String → Option (String × String)
split_at n String.[] = if n == 0 then some (String.[], String.[]) else none
split_at n (String.◌∷◌ c s) =
    let rest = split_at (n - len_utf8 c) s in
    if n == 0
    then some (String.[], String.◌∷◌ c s)
    else if ltb n (len_utf8 c)
    then none
    else onto c rest

abbrev pub or_panic : {A : Type 0} → Option A → Outcome A
or_panic none = panicked
or_panic (some a) = done a

abbrev pub status_of : Option ℕ → Outcome ℕ
status_of none = failed unknown_response
status_of (some status) = done status

unfoldable pub parse_status : String → Outcome ℕ
parse_status line = do
  (digits, behind) ← or_panic (split_at 3 line)
  status_of (from_str 4294967295 digits)

abbrev pub separates : String → Outcome Bool
separates separator =
    if separator == " "
    then done true
    else if separator == "+" || separator == "-"
    then done false
    else failed unknown_response

unfoldable pub is_last_line : String → Outcome Bool
is_last_line line = do
  (digits, behind) ← or_panic (split_at 3 line)
  (separator, rest) ← or_panic (split_at 1 behind)
  separates separator

-- `parse_line` on the line that it has read into an empty buffer.
unfoldable pub parse_line : String → Outcome (ℕ × Bool × String)
unfolding parse_status is_last_line
parse_line line = if ltb (len line) 4 then failed unknown_response else do
  (buf, msg) ← or_panic (split_at 4 line)
  status ← parse_status buf
  end ← is_last_line buf
  done (status, end, msg)

abbrev pub error_of : Option TcErrorKind → TcError
error_of none = unknown_response
error_of (some kind) = tor_error kind

unfoldable pub handle_code : ℕ → Outcome (Unit {0})
unfolding try_from
handle_code status =
    if status == 250 || status == 251 then done tt else failed (error_of (try_from status))

-- `char::is_whitespace`
abbrev pub is_whitespace : ℕ → Bool
is_whitespace n =
    leb 9 n && leb n 13
    || (n == 32 || n == 133 || n == 160 || n == 5760)
    || leb 8192 n && leb n 8202
    || (n == 8232 || n == 8233 || n == 8239 || n == 8287 || n == 12288)

abbrev pub unless_blank : Char → String → String
unless_blank c String.[] = if is_whitespace (code c) then String.[] else String.◌∷◌ c String.[]
unless_blank c (String.◌∷◌ d s) = String.◌∷◌ c (String.◌∷◌ d s)

unfoldable pub trim_end : String → String
trim_end String.[] = String.[]
trim_end (String.◌∷◌ c s) = unless_blank c (trim_end s)

-- `trim_matches`
unfoldable pub trim_start_matches : ℕ → String → String
trim_start_matches n String.[] = String.[]
trim_start_matches n (String.◌∷◌ c s) =
    let rest = trim_start_matches n s in if nat_beq (code c) n then rest else String.◌∷◌ c s

abbrev pub unless_match : ℕ → Char → String → String
unless_match n c String.[] = if nat_beq (code c) n then String.[] else String.◌∷◌ c String.[]
unless_match n c (String.◌∷◌ d s) = String.◌∷◌ c (String.◌∷◌ d s)

unfoldable pub trim_end_matches : ℕ → String → String
trim_end_matches n String.[] = String.[]
trim_end_matches n (String.◌∷◌ c s) = unless_match n c (trim_end_matches n s)

unfoldable pub trim_matches : ℕ → String → String
unfolding trim_start_matches trim_end_matches
trim_matches n s = trim_end_matches n (trim_start_matches n s)

-- `join(" ")`
abbrev pub join : List String → String
join [] = String.[]
join (p ∷ []) = p
join (p ∷ q ∷ ps) = Prim.Native.String.◌++◌ p (String.◌∷◌ " " (join (q ∷ ps)))

-- The two halves of a section around the one `=`.
abbrev pub halves : List String → Option (String × String)
halves (name ∷ value ∷ []) = some (name, value)
halves _ = none
