-- ===== src/Base/Text.antt =====
-- Rust's `str`: `split` at a character, `join`, `trim_end`, and the decimal numbers, which
-- `from_str` reads and `Display` writes. Characters are given by their codes.
use Prim.Native.Nat.{ℕ, zero, suc, ◌+◌, ◌-◌, ◌*◌, ◌/◌, ◌%◌, ◌<◌, ◌≤◌}
use Prim.Native.Char.{Char, code}
use Prim.Native.String.{String, ◌++◌, char_at}
use text.Mathlib.TextLemmas.{nil-append, cons-append}
use mathlib.Core.Path.{◌≡◌, refl, ◌∙◌, ap}
use mathlib.Core.Logic.{◌≢◌, inl, inr}
use mathlib.Core.Bool.{Bool, true, false, ◌||◌}
use mathlib.Core.Option.{Option, none, some}
use mathlib.Core.List.{List, [], ◌∷◌}
use native.Mathlib.Omega.{arith}
use risq.Base.Lists.{All}
use risq.Base.Tests.{if◌then◌else◌, Bool-cases, ltb, nat_beq}

abbrev pub push : Char → List String → List String
push c [] = String.◌∷◌ c String.[] ∷ []
push c (p ∷ ps) = String.◌∷◌ c p ∷ ps

unfoldable pub split : ℕ → String → List String
split sep String.[] = String.[] ∷ []
split sep (String.◌∷◌ c s) =
    let rest = split sep s in if nat_beq (code c) sep then String.[] ∷ rest else push c rest

abbrev pub Lacks : ℕ → String → Type 0
Lacks sep String.[] = Unit
Lacks sep (String.◌∷◌ c s) = (code c ≢ sep) × Lacks sep s

pub split_whole : (sep : ℕ) (s : String) → Lacks sep s → split sep s ≡ s ∷ []
unfolding split
split_whole sep String.[] h = refl
split_whole sep (String.◌∷◌ c s) h = ground (arith, split_whole sep s h.1)

pub split-append :
    (sep : Char) (s t : String)
    → Lacks (code sep) s
    → split (code sep) (s ++ String.◌∷◌ sep t) ≡ s ∷ split (code sep) t
unfolding split
split-append sep String.[] t h = rw (nil-append (String.◌∷◌ sep t)) (ground arith)
split-append sep (String.◌∷◌ c s) t h =
    rw (cons-append c s (String.◌∷◌ sep t)) (ground (arith, split-append sep s t h.1))

push-Lacks :
    (sep : ℕ) (c : Char) (ps : List String)
    → code c ≢ sep
    → All (Lacks sep) ps
    → All (Lacks sep) (push c ps)
push-Lacks sep c [] h k = ((h, tt), tt)
push-Lacks sep c (p ∷ ps) h k = ((h, k.0), k.1)

-- No part has the separator.
pub split-Lacks : (sep : ℕ) (s : String) → All (Lacks sep) (split sep s)
unfolding split
split-Lacks sep String.[] = (tt, tt)
split-Lacks sep (String.◌∷◌ c s) = elim (Bool-cases (nat_beq (code c) sep)) [
  | inl there ↦ rw there (tt, split-Lacks sep s)
  | inr other ↦ rw other (push-Lacks sep c (split sep s) (ground arith) (split-Lacks sep s))
]

-- The digits behind a number that has been read, which may not exceed `limit`.
unfoldable pub scan : ℕ → String → ℕ → Option ℕ
scan limit String.[] n = some n
scan limit (String.◌∷◌ c s) n =
    let next = n * 10 + (code c - b'0') in
    let rest = scan limit s next in
    if ltb (code c) b'0' || ltb b'9' (code c) || ltb limit next then none else rest

abbrev pub is_empty : String → Bool
is_empty String.[] = true
is_empty (String.◌∷◌ c s) = false

-- `from_str` of an unsigned number up to `limit`: one or more digits, after a sign or none.
unfoldable pub from_str : ℕ → String → Option ℕ
unfolding scan
from_str limit String.[] = none
from_str limit (String.◌∷◌ c s) =
    if nat_beq (code c) b'+'
    then (if is_empty s then none else scan limit s 0)
    else scan limit (String.◌∷◌ c s) 0

pub digit : ℕ → Char
digit n = char_at "0123456789" (n % 10)

-- The digits of a number in front of those that are written, with the number as fuel.
pub write : ℕ → ℕ → String → String
unfolding digit
write zero n out = out
write (suc fuel) n out =
    let here = String.◌∷◌ (digit n) out in
    let more = write fuel (n / 10) here in if nat_beq (n / 10) 0 then here else more

-- `Display`
unfoldable pub to_string : ℕ → String
unfolding write
to_string n = write (n + 1) n String.[]

code-digit_below : (d : ℕ) → d < 10 → code (char_at "0123456789" d) ≡ b'0' + d
code-digit_below zero h = refl
code-digit_below (suc zero) h = refl
code-digit_below (suc (suc zero)) h = refl
code-digit_below (suc (suc (suc zero))) h = refl
code-digit_below (suc (suc (suc (suc zero)))) h = refl
code-digit_below (suc (suc (suc (suc (suc zero))))) h = refl
code-digit_below (suc (suc (suc (suc (suc (suc zero)))))) h = refl
code-digit_below (suc (suc (suc (suc (suc (suc (suc zero))))))) h = refl
code-digit_below (suc (suc (suc (suc (suc (suc (suc (suc zero)))))))) h = refl
code-digit_below (suc (suc (suc (suc (suc (suc (suc (suc (suc zero))))))))) h = refl
code-digit_below (suc (suc (suc (suc (suc (suc (suc (suc (suc (suc d)))))))))) h =
    absurd (omega arith)

pub code-digit : (n : ℕ) → code (digit n) ≡ b'0' + n % 10
unfolding digit
code-digit n = code-digit_below (n % 10) (omega arith)

scan_last :
    (limit n : ℕ) (out : String)
    → n ≤ limit
    → scan limit (String.◌∷◌ (digit n) out) (n / 10) ≡ scan limit out n
unfolding scan
scan_last limit n out h = ground (arith, code-digit n)

no_tens : (n : ℕ) → nat_beq (n / 10) 0 ≡ true → 0 ≡ n / 10
no_tens n h = ground arith

scan-write :
    (limit fuel n : ℕ) (out : String)
    → n < fuel
    → n ≤ limit
    → scan limit (write fuel n out) 0 ≡ scan limit out n
unfolding scan write
scan-write limit zero n out h k = absurd (omega arith)
scan-write limit (suc fuel) n out h k =
    let here = String.◌∷◌ (digit n) out in
    let last : scan limit here (n / 10) ≡ scan limit out n = scan_last limit n out k in
    elim (Bool-cases (nat_beq (n / 10) 0)) [
      | inl first ↦ rw first (ap (λ m. scan limit here m) (no_tens n first) ∙ last)
      | inr more ↦ rw more (scan-write limit fuel (n / 10) here (ground arith) (omega arith) ∙ last)
    ]

-- A text that begins, and not with a plus sign.
abbrev Unsigned : String → Type 0
Unsigned String.[] = ⊥
Unsigned (String.◌∷◌ c s) = code c ≢ b'+'

from_str-scan : (limit : ℕ) (s : String) → Unsigned s → from_str limit s ≡ scan limit s 0
unfolding from_str
from_str-scan limit String.[] h = absurd h
from_str-scan limit (String.◌∷◌ c s) h = ground arith

digit-Unsigned : (n : ℕ) (out : String) → Unsigned (String.◌∷◌ (digit n) out)
digit-Unsigned n out = omega (arith, code-digit n)

write-Unsigned : (fuel n : ℕ) (out : String) → Unsigned out → Unsigned (write fuel n out)
unfolding write
write-Unsigned zero n out h = h
write-Unsigned (suc fuel) n out h =
    let next = write-Unsigned fuel (n / 10) (String.◌∷◌ (digit n) out) (digit-Unsigned n out) in
    elim (Bool-cases (nat_beq (n / 10) 0)) [
      | inl first ↦ rw first (digit-Unsigned n out)
      | inr more ↦ rw more next
    ]

write_some-Unsigned : (fuel n : ℕ) → 0 < fuel → Unsigned (write fuel n String.[])
unfolding write
write_some-Unsigned zero n h = absurd (omega arith)
write_some-Unsigned (suc fuel) n h =
    let next =
      write-Unsigned fuel (n / 10) (String.◌∷◌ (digit n) String.[]) (digit-Unsigned n String.[]) in
    elim (Bool-cases (nat_beq (n / 10) 0)) [
      | inl first ↦ rw first (digit-Unsigned n String.[])
      | inr more ↦ rw more next
    ]

to_string-Unsigned : (n : ℕ) → Unsigned (to_string n)
unfolding to_string
to_string-Unsigned n = write_some-Unsigned (n + 1) n (omega arith)

scan-nil : (limit n : ℕ) → scan limit String.[] n ≡ some n
unfolding scan
scan-nil limit n = refl

-- A number that is written is read back.
pub from_str-to_string : (limit n : ℕ) → n ≤ limit → from_str limit (to_string n) ≡ some n
unfolding to_string
from_str-to_string limit n h =
    from_str-scan limit (to_string n) (to_string-Unsigned n)
    ∙ scan-write limit (n + 1) n String.[] (omega arith) h
    ∙ scan-nil limit n

-- The text of a number has digits only.
write-Lacks :
    (sep fuel n : ℕ) (out : String) → b'9' < sep → Lacks sep out → Lacks sep (write fuel n out)
unfolding write
write-Lacks sep zero n out k h = h
write-Lacks sep (suc fuel) n out k h =
    let here : Lacks sep (String.◌∷◌ (digit n) out) = (omega (arith, code-digit n), h) in
    let next = write-Lacks sep fuel (n / 10) (String.◌∷◌ (digit n) out) k here in
    elim (Bool-cases (nat_beq (n / 10) 0)) [ inl first ↦ rw first here | inr more ↦ rw more next ]

pub to_string-Lacks : (sep n : ℕ) → b'9' < sep → Lacks sep (to_string n)
unfolding to_string
to_string-Lacks sep n k = write-Lacks sep (n + 1) n String.[] k tt

scan_bound : (limit n : ℕ) (s : String) {m : ℕ} → n ≤ limit → scan limit s n ≡ some m → m ≤ limit
unfolding scan
scan_bound limit n String.[] h e = ground arith
scan_bound limit n (String.◌∷◌ c s) {m} h e =
    ground (arith, scan_bound limit (n * 10 + (code c - b'0')) s {m = m})

-- A number that is read is within the limit.
pub from_str_bound : (limit : ℕ) (s : String) {n : ℕ} → from_str limit s ≡ some n → n ≤ limit
unfolding from_str
from_str_bound limit String.[] e = cc
from_str_bound limit (String.◌∷◌ c s) {n} e =
    ground (arith, scan_bound limit 0 s {m = n}, scan_bound limit 0 (String.◌∷◌ c s) {m = n})
