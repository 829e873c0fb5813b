-- ===== src/P2p/Tor/Reply.antt =====
-- What `read_lines` of src/p2p/tor.rs makes of the replies of Tor.
use Prim.Native.Char.{Char}
use Prim.Native.String.{◌++◌}
use text.Mathlib.TextLemmas.{cons-append, nil-append}
use risq.Base.{
  ℕ, ◌+◌, String, ◌≡◌, ◌≢◌, ◌∙◌, ap, refl, Bool, true, false, Option, none, some, List, [], ◌∷◌,
  map, All, arith,
}
use risq.Base as Base
use risq.Base.Text.{from_str, scan}
use risq.P2p.Tor.Line.{
  TcError, error_of, done, failed, parse_line, handle_code, trim_end, unless_blank, split_at,
  parse_status, is_last_line, try_from,
}
use risq.P2p.Tor.{TorControl, Read, read, checked_line, lines_from, read_lines}

-- A text that does not end in white space.
abbrev pub IsTrimmed : String → Type 0
IsTrimmed s = trim_end s ≡ s

split_at-zero : (s : String) → split_at 0 s ≡ some (String.[], s)
unfolding split_at
split_at-zero String.[] = refl
split_at-zero (String.◌∷◌ c s) = refl

-- A line of a reply with the status 250.
abbrev pub line : Char → String → String
line sep msg = String.◌∷◌ "2" (String.◌∷◌ "5" (String.◌∷◌ "0" (String.◌∷◌ sep (msg ++ "\r\n"))))

abbrev pub last_line : String → String
last_line = line " "

abbrev pub middle_line : String → String
middle_line = line "-"

trim_end-blank :
    (s blank : String) → trim_end blank ≡ String.[] → trim_end (s ++ blank) ≡ trim_end s
unfolding trim_end
trim_end-blank String.[] blank h = rw (nil-append blank) h
trim_end-blank (String.◌∷◌ c s) blank h =
    rw (cons-append c s blank) (ap (unless_blank c) (trim_end-blank s blank h))

newline_blank : trim_end "\r\n" ≡ String.[]
unfolding trim_end
newline_blank = refl

parse-middle : (msg : String) → parse_line (middle_line msg) ≡ done (250, false, msg ++ "\r\n")
unfolding parse_line split_at parse_status is_last_line from_str scan
parse-middle msg = rw (split_at-zero (msg ++ "\r\n")) (ground arith)

checked-middle : (msg : String) → IsTrimmed msg → checked_line (middle_line msg) ≡ done (false, msg)
unfolding handle_code
checked-middle msg h =
    rw (parse-middle msg) (ap (λ m. done (false, m)) (trim_end-blank msg "\r\n" newline_blank ∙ h))

parse-last : (msg : String) → parse_line (last_line msg) ≡ done (250, true, msg ++ "\r\n")
unfolding parse_line split_at parse_status is_last_line from_str scan
parse-last msg = rw (split_at-zero (msg ++ "\r\n")) (ground arith)

checked-last : (msg : String) → IsTrimmed msg → checked_line (last_line msg) ≡ done (true, msg)
unfolding handle_code
checked-last msg h =
    rw (parse-last msg) (ap (λ m. done (true, m)) (trim_end-blank msg "\r\n" newline_blank ∙ h))

-- What Tor sends for a reply of several lines.
abbrev pub reply : List String → String → List Read
reply [] end = read (last_line end) ∷ []
reply (m ∷ ms) end = read (middle_line m) ∷ reply ms end

lines_from-reply :
    (ms : List String) (end : String) (rest : List Read)
    → All IsTrimmed ms
    → IsTrimmed end
    → lines_from (Base.◌++◌ (reply ms end) rest) ≡ (done (Base.◌++◌ ms (end ∷ [])), rest)
unfolding lines_from
lines_from-reply [] end rest h k = rw (checked-last end k) refl
lines_from-reply (m ∷ ms) end rest h k =
    rw (checked-middle m h.0, lines_from-reply ms end rest h.1 k) refl

-- The lines of a reply are read back, without their ends and up to the last of them, if no line
-- ends in white space. What Tor sends afterwards is still to be read.
pub read_lines-reply :
    (tc : TorControl) (ms : List String) (end : String) (rest : List Read)
    → tc.received ≡ Base.◌++◌ (reply ms end) rest
    → All IsTrimmed ms
    → IsTrimmed end
    → read_lines tc ≡ (done (Base.◌++◌ ms (end ∷ [])), record tc { received = rest })
unfolding read_lines
read_lines-reply tc ms end rest e h k = rw (e, lines_from-reply ms end rest h k) refl

handle_code-refused :
    (status : ℕ)
    → status ≢ 250
    → status ≢ 251
    → handle_code status ≡ failed (error_of (try_from status))
unfolding handle_code
handle_code-refused status n m = ground arith

checked-refused :
    (bad : String) {status : ℕ} {end : Bool} {msg : String}
    → parse_line bad ≡ done (status, end, msg)
    → status ≢ 250
    → status ≢ 251
    → checked_line bad ≡ failed (error_of (try_from status))
checked-refused bad {status} p n m = rw (p, handle_code-refused status n m) refl

lines_from-refused :
    (ms : List String) (bad : String) (rest : List Read) (e : TcError)
    → All IsTrimmed ms
    → checked_line bad ≡ failed e
    → lines_from (Base.◌++◌ (map (λ m. read (middle_line m)) ms) (read bad ∷ rest))
      ≡ (failed e, rest)
unfolding lines_from
lines_from-refused [] bad rest e h p = rw p refl
lines_from-refused (m ∷ ms) bad rest e h p =
    rw (checked-middle m h.0, lines_from-refused ms bad rest e h.1 p) refl

-- A line with another status ends the reading with an error, whatever has been read before it and
-- whatever stands behind it.
pub read_lines-refused :
    (tc : TorControl) (ms : List String) (bad : String) (rest : List Read) {status : ℕ} {end : Bool}
    {msg : String}
    → tc.received ≡ Base.◌++◌ (map (λ m. read (middle_line m)) ms) (read bad ∷ rest)
    → All IsTrimmed ms
    → parse_line bad ≡ done (status, end, msg)
    → status ≢ 250
    → status ≢ 251
    → read_lines tc ≡ (failed (error_of (try_from status)), record tc { received = rest })
unfolding read_lines
read_lines-refused tc ms bad rest {status} e h p n m =
    rw
      (e, lines_from-refused ms bad rest (error_of (try_from status)) h (checked-refused bad p n m))
      refl
