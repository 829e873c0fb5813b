-- ===== src/Base/Sorted.antt =====
-- Lists in the order of a key, and what keeps that order.
use mathlib.Core.List.{List, [], ◌∷◌, ◌++◌, reverse, reverse-append}
use Prim.Native.Nat.{ℕ, zero, suc, ◌≤◌, min}
use mathlib.Core.Path.{◌≡◌, refl, ap}
use mathlib.Core.Bool.{Bool, ◌&&◌}
use mathlib.Core.Logic.{inl, inr}
use native.Mathlib.Omega.{arith}
use risq.Base.Tests.{if◌then◌else◌, Bool-cases}
use risq.Base.Lists.{All, All-append, filter, take, length}

module _ {ℓ} {A : Type ℓ} (key : A → ℕ) where
  abbrev pub Ascending : List A → Type 0
  Ascending [] = Unit
  Ascending (a ∷ as_) = All (λ b. key a ≤ key b) as_ × Ascending as_

  abbrev pub Descending : List A → Type 0
  Descending [] = Unit
  Descending (a ∷ as_) = All (λ b. key b ≤ key a) as_ × Descending as_

module _ {ℓ} {A : Type ℓ} where
  pub All-filter {κ} :
      (P : A → Type κ) (p : A → Bool) (xs : List A) → All P xs → All P (filter p xs)
  All-filter P p [] h = tt
  All-filter P p (x ∷ xs) h = elim (Bool-cases (p x)) [
    | inl keep ↦ rw keep (h.0, All-filter P p xs h.1)
    | inr drop ↦ rw drop (All-filter P p xs h.1)
  ]

  pub All-take {κ} : (P : A → Type κ) (n : ℕ) (xs : List A) → All P xs → All P (take n xs)
  All-take P zero xs h = tt
  All-take P (suc n) [] h = tt
  All-take P (suc n) (x ∷ xs) h = (h.0, All-take P n xs h.1)

  pub reverse-cons : (x : A) (xs : List A) → reverse (x ∷ xs) ≡ reverse xs ++ (x ∷ [])
  reverse-cons x xs = reverse-append (x ∷ []) xs

  pub All-reverse {κ} : (P : A → Type κ) (xs : List A) → All P xs → All P (reverse xs)
  All-reverse P [] h = tt
  All-reverse P (x ∷ xs) h =
      rw (reverse-cons x xs) (All-append P (reverse xs) (x ∷ []) (All-reverse P xs h.1) (h.0, tt))

  pub length-take : (n : ℕ) (xs : List A) → length (take n xs) ≡ min n (length xs)
  length-take zero xs = omega arith
  length-take (suc n) [] = omega arith
  length-take (suc n) (x ∷ xs) = omega (arith, length-take n xs)

  -- What `take` leaves.
  abbrev pub drop : ℕ → List A → List A
  drop zero xs = xs
  drop (suc n) [] = []
  drop (suc n) (x ∷ xs) = drop n xs

  pub take-drop : (n : ℕ) (xs : List A) → take n xs ++ drop n xs ≡ xs
  take-drop zero xs = refl
  take-drop (suc n) [] = refl
  take-drop (suc n) (x ∷ xs) = ap (◌∷◌ x) (take-drop n xs)

  -- Two filters are one.
  pub filter-filter :
      (p q : A → Bool) (xs : List A) → filter p (filter q xs) ≡ filter (λ x. q x && p x) xs
  filter-filter p q [] = refl
  filter-filter p q (x ∷ xs) =
      let ih = filter-filter p q xs in
      elim (Bool-cases (q x)) [ inl first ↦ rw first (both (p x) ih) | inr other ↦ rw other ih ]
    where
      both :
          (b : Bool) {ys zs : List A}
          → ys ≡ zs
          → (if b then x ∷ ys else ys) ≡ (if b then x ∷ zs else zs)
      both b e = ap (λ ys. if b then x ∷ ys else ys) e

module _ {ℓ} {A : Type ℓ} (key : A → ℕ) where
  pub filter-Ascending :
      (p : A → Bool) (xs : List A) → Ascending key xs → Ascending key (filter p xs)
  filter-Ascending p [] h = tt
  filter-Ascending p (x ∷ xs) h = elim (Bool-cases (p x)) [
    | inl keep ↦ rw keep (All-filter (λ y. key x ≤ key y) p xs h.0, filter-Ascending p xs h.1)
    | inr drop ↦ rw drop (filter-Ascending p xs h.1)
  ]

  pub take-Ascending : (n : ℕ) (xs : List A) → Ascending key xs → Ascending key (take n xs)
  take-Ascending zero xs h = tt
  take-Ascending (suc n) [] h = tt
  take-Ascending (suc n) (x ∷ xs) h =
      (All-take (λ y. key x ≤ key y) n xs h.0, take-Ascending n xs h.1)

  pub take-Descending : (n : ℕ) (xs : List A) → Descending key xs → Descending key (take n xs)
  take-Descending zero xs h = tt
  take-Descending (suc n) [] h = tt
  take-Descending (suc n) (x ∷ xs) h =
      (All-take (λ y. key y ≤ key x) n xs h.0, take-Descending n xs h.1)

  last-Descending :
      (x : A) (xs : List A)
      → Descending key xs
      → All (λ y. key x ≤ key y) xs
      → Descending key (xs ++ (x ∷ []))
  last-Descending x [] d h = (tt, tt)
  last-Descending x (y ∷ ys) d h =
      (All-append (λ z. key z ≤ key y) ys (x ∷ []) d.0 (h.0, tt), last-Descending x ys d.1 h.1)

  pub reverse-Descending : (xs : List A) → Ascending key xs → Descending key (reverse xs)
  reverse-Descending [] h = tt
  reverse-Descending (x ∷ xs) h = rw (reverse-cons x xs) (
      last-Descending x (reverse xs) (reverse-Descending xs h.1)
        (All-reverse (λ y. key x ≤ key y) xs h.0))
