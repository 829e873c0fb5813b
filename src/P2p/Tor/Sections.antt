-- ===== src/P2p/Tor/Sections.antt =====
-- How the replies to the commands of src/p2p/tor.rs are taken apart at spaces and at `=`.
use Prim.Native.Char.{Char, code}
use Prim.Native.String.{◌++◌}
use text.Mathlib.TextLemmas.{cons-append, nil-append}
use risq.Base.{
  ℕ, String, ◌≡◌, ◌≢◌, inl, inr, Bool-cases, nat_beq, ◌∙◌, ap, refl, subst, false, none, some, List,
  [], ◌∷◌, All, string_eq,
}
use risq.Base.Text.{push, split, split-append, split_whole, Lacks}
use risq.P2p.Tor.Line.{trim_end, unless_blank, is_whitespace, join, halves}
use risq.P2p.Tor.{section_of, sections}
use risq.P2p.Tor.Reply.{IsTrimmed}

abbrev pub IsSolid : String → Type 0
IsSolid String.[] = Unit
IsSolid (String.◌∷◌ c s) = (is_whitespace (code c) ≡ false) × IsSolid s

solid_end :
    (c : Char) (s : String) → is_whitespace (code c) ≡ false → unless_blank c s ≡ String.◌∷◌ c s
solid_end c String.[] h = rw h refl
solid_end c (String.◌∷◌ d s) h = refl

pub IsSolid-IsTrimmed : (s : String) → IsSolid s → IsTrimmed s
unfolding trim_end
IsSolid-IsTrimmed String.[] h = refl
IsSolid-IsTrimmed (String.◌∷◌ c s) h = rw (IsSolid-IsTrimmed s h.1) (solid_end c s h.0)

no_space : (n : ℕ) → is_whitespace n ≡ false → n ≢ b' '
no_space n h e =
    let blank : is_whitespace b' ' ≡ false = subst (λ m. is_whitespace m ≡ false) e h in cc

IsSolid-Lacks : (s : String) → IsSolid s → Lacks b' ' s
IsSolid-Lacks String.[] h = tt
IsSolid-Lacks (String.◌∷◌ c s) h = (no_space (code c) h.0, IsSolid-Lacks s h.1)

pub IsSolid-append : (s t : String) → IsSolid s → IsSolid t → IsSolid (s ++ t)
IsSolid-append String.[] t h k = rw (nil-append t) k
IsSolid-append (String.◌∷◌ c s) t h k = rw (cons-append c s t) (h.0, IsSolid-append s t h.1 k)

-- Parts without white space that are joined are taken apart again.
pub split-join : (p : String) (ps : List String) → All IsSolid (p ∷ ps) → sections (p ∷ ps) ≡ p ∷ ps
split-join p [] h = split_whole b' ' p (IsSolid-Lacks p h.0)
split-join p (q ∷ ps) h =
    split-append " " p (join (q ∷ ps)) (IsSolid-Lacks p h.0) ∙ ap (λ l. p ∷ l) (split-join q ps h.1)

abbrev pub assignment : String → String → String
assignment name value = name ++ String.◌∷◌ "=" value

pub section_of-assignment :
    (name value : String)
    → Lacks b'=' name
    → Lacks b'=' value
    → section_of (assignment name value) ≡ some (name, value)
section_of-assignment name value h k =
    ap halves (split-append "=" name value h ∙ ap (λ l. name ∷ l) (split_whole b'=' value k))

pushed : (c : Char) (ps : List String) → (p : String) × (qs : List String) × (push c ps ≡ p ∷ qs)
pushed c [] = (String.◌∷◌ c String.[], [], refl)
pushed c (p ∷ ps) = (String.◌∷◌ c p, ps, refl)

split-some : (sep : ℕ) (s : String) → (p : String) × (ps : List String) × (split sep s ≡ p ∷ ps)
unfolding split
split-some sep String.[] = (String.[], [], refl)
split-some sep (String.◌∷◌ c s) = elim (Bool-cases (nat_beq (code c) sep)) [
  | inl here ↦ rw here (String.[], split sep s, refl)
  | inr there ↦ rw there (pushed c (split sep s))
]

pub section_of-padded :
    (name a b : String)
    → Lacks b'=' name
    → Lacks b'=' a
    → section_of (assignment name (a ++ String.◌∷◌ "=" b)) ≡ none
section_of-padded name a b h k =
    let (p, ps, e) = split-some b'=' b in
    ap halves (
      split-append "=" name (a ++ String.◌∷◌ "=" b) h
      ∙ ap (λ l. name ∷ l) (split-append "=" a b k ∙ ap (λ l. a ∷ l) e))
