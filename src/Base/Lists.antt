-- ===== src/Base/Lists.antt =====
-- Lists measured by native numbers, and predicates on all elements.
use Prim.Native.Nat.{ℕ, zero, suc, ◌+◌}
use mathlib.Core.Path.{◌≡◌, subst}
use mathlib.Core.Bool.{Bool, true, false, ◌&&◌, ◌||◌}
use mathlib.Core.Option.{Option, none, some}
use mathlib.Core.List.{List, [], ◌∷◌, ◌++◌, Perm}
use mathlib.Core.List.Perm
use native.Mathlib.Omega.{arith}
use mathlib.Core.Logic.{inl, inr}
use risq.Base.Tests.{if◌then◌else◌, Bool-cases, and_parts}

module _ {ℓ} {A : Type ℓ} where
  abbrev pub length : List A → ℕ
  length [] = 0
  length (x ∷ xs) = suc (length xs)

  pub length-append : (xs ys : List A) → length (xs ++ ys) ≡ length xs + length ys
  length-append [] ys = omega arith
  length-append (x ∷ xs) ys = omega (arith, length-append xs ys)

  -- Rust's `Iterator::find`
  abbrev pub find : (A → Bool) → List A → Option A
  find p [] = none
  find p (x ∷ xs) = if p x then some x else find p xs

  abbrev pub filter : (A → Bool) → List A → List A
  filter p [] = []
  filter p (x ∷ xs) = if p x then x ∷ filter p xs else filter p xs

  abbrev pub any : (A → Bool) → List A → Bool
  any p [] = false
  any p (x ∷ xs) = p x || any p xs

  abbrev pub all : (A → Bool) → List A → Bool
  all p [] = true
  all p (x ∷ xs) = p x && all p xs

  abbrev pub All {κ} : (A → Type κ) → List A → Type κ
  All P [] = Unit
  All P (x ∷ xs) = P x × All P xs

  pub find-holds : (p : A → Bool) (xs : List A) {y : A} → find p xs ≡ some y → p y ≡ true
  find-holds p [] h = cc
  find-holds p (x ∷ xs) {y} h = elim (Bool-cases (p x)) [
    | inl here ↦
        let first : some x ≡ some y = rw here at h in
        let same : x ≡ y = cc in subst (λ z. p z ≡ true) same here
    | inr there ↦ find-holds p xs (rw there at h)
  ]

  -- What holds of all elements holds of the one that is found.
  pub find-all :
      (p q : A → Bool) (xs : List A) {y : A} → all q xs ≡ true → find p xs ≡ some y → q y ≡ true
  find-all p q [] every h = cc
  find-all p q (x ∷ xs) {y} every h = elim (Bool-cases (p x)) [
    | inl here ↦
        let first : some x ≡ some y = rw here at h in
        let same : x ≡ y = cc in subst (λ z. q z ≡ true) same (and_parts (q x) (all q xs) every).0
    | inr there ↦ find-all p q xs (and_parts (q x) (all q xs) every).1 (rw there at h)
  ]

  abbrev pub get_elem? : List A → ℕ → Option A
  get_elem? [] i = none
  get_elem? (x ∷ xs) zero = some x
  get_elem? (x ∷ xs) (suc i) = get_elem? xs i

  abbrev pub take : ℕ → List A → List A
  take zero xs = []
  take (suc n) [] = []
  take (suc n) (x ∷ xs) = x ∷ take n xs

  -- `Vec::insert`
  abbrev pub insert_at : ℕ → A → List A → List A
  insert_at zero a xs = a ∷ xs
  insert_at (suc i) a [] = a ∷ []
  insert_at (suc i) a (x ∷ xs) = x ∷ insert_at i a xs

  pub insert_at-perm : (i : ℕ) (a : A) (xs : List A) → Perm (insert_at i a xs) (a ∷ xs)
  insert_at-perm zero a xs = Perm.refl (a ∷ xs)
  insert_at-perm (suc i) a [] = Perm.refl (a ∷ [])
  insert_at-perm (suc i) a (x ∷ xs) =
      Perm.trans (Perm.cons x (insert_at-perm i a xs)) (Perm.swap a x xs)

  pub All-imp {κ μ} :
      {P : A → Type κ} {Q : A → Type μ} (xs : List A) → ((x : A) → P x → Q x) → All P xs → All Q xs
  All-imp [] f h = tt
  All-imp (x ∷ xs) f h = (f x h.0, All-imp xs f h.1)

  pub All-insert_at {κ} :
      (P : A → Type κ) (i : ℕ) (a : A) (xs : List A) → P a → All P xs → All P (insert_at i a xs)
  All-insert_at P zero a xs p h = (p, h)
  All-insert_at P (suc i) a [] p h = (p, tt)
  All-insert_at P (suc i) a (x ∷ xs) p h = (h.0, All-insert_at P i a xs p h.1)

  pub All-append {κ} : (P : A → Type κ) (xs ys : List A) → All P xs → All P ys → All P (xs ++ ys)
  All-append P [] ys h k = k
  All-append P (x ∷ xs) ys h k = (h.0, All-append P xs ys h.1 k)
