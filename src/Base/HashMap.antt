-- ===== src/Base/HashMap.antt =====
-- `std::collections::HashMap` as an association list. The order in which a `HashMap` is walked is
-- not specified; here it is the order of the list. What holds of `get` holds of every order.
use mathlib.Core.Path.{◌≡◌, refl, sym, ap, ◌∙◌}
use mathlib.Core.Bool.{Bool, true, false, false≢true, not, ◌&&◌, ◌||◌}
use mathlib.Core.Logic.{inl, inr}
use mathlib.Core.Option.{Option, none, some}
use mathlib.Core.List.{List, [], ◌∷◌}
use native.Mathlib.Omega.{arith}
use risq.Base.Tests.{if◌then◌else◌, Bool-cases}
use risq.Base.Equality.{Eq, ◌==◌, beq_refl, beq→eq}

abbrev pub HashMap {ℓ κ} : Type ℓ → Type κ → Type (ℓ ⊔ κ)
HashMap K V = List (K × V)

module _ {ℓ κ} {K : Type ℓ} {V : Type κ} ⦃e : Eq K⦄ where
  unfoldable pub get : K → HashMap K V → Option V
  get k [] = none
  get k ((j, v) ∷ m) = if j == k then some v else get k m

  unfoldable pub remove : K → HashMap K V → HashMap K V
  remove k [] = []
  remove k ((j, v) ∷ m) = let rest = remove k m in if j == k then rest else (j, v) ∷ rest

  unfoldable pub insert : K → V → HashMap K V → HashMap K V
  unfolding remove
  insert k v m = (k, v) ∷ remove k m

  unfoldable pub contains_key : K → HashMap K V → Bool
  unfolding get
  contains_key k m = elim (get k m) [ none ↦ false | some _ ↦ true ]

  pub get-remove :
      (k j : K) (m : HashMap K V) → get j (remove k m) ≡ (if k == j then none else get j m)
  unfolding get remove
  get-remove k j [] = ground arith
  get-remove k j ((i, v) ∷ m) =
      ground (arith, get-remove k j m, e.beq_iff i k, e.beq_iff i j, e.beq_iff k j)

  pub get-insert :
      (k j : K) (v : V) (m : HashMap K V)
      → get j (insert k v m) ≡ (if k == j then some v else get j m)
  unfolding get insert
  get-insert k j v m = ground (arith, get-remove k j m)

  pub contains_key-insert :
      (k j : K) (v : V) (m : HashMap K V)
      → contains_key j (insert k v m) ≡ (k == j || contains_key j m)
  unfolding contains_key
  contains_key-insert k j v m = ground (arith, get-insert k j v m)

  pub contains_key-remove :
      (k j : K) (m : HashMap K V) → contains_key j (remove k m) ≡ (not (k == j) && contains_key j m)
  unfolding contains_key
  contains_key-remove k j m = ground (arith, get-remove k j m)

  pub get_contained : (k : K) (v : V) (m : HashMap K V) → get k m ≡ some v → contains_key k m ≡ true
  unfolding contains_key
  get_contained k v m h = ground (arith, h)

  pub get_missing : (k : K) (m : HashMap K V) → get k m ≡ none → contains_key k m ≡ false
  unfolding contains_key
  get_missing k m h = ground (arith, h)

  pub get-insert_self : (k : K) (v : V) (m : HashMap K V) → get k (insert k v m) ≡ some v
  get-insert_self k v m = simp (get-insert, beq_refl)

pub ruleset map_laws = (get-insert, get-remove)

module _ {ℓ κ} {K : Type ℓ} {V : Type κ} ⦃e : Eq K⦄ where
  -- No key stands twice. Every map that is built by `insert` and `remove` is such.
  abbrev pub Distinct : HashMap K V → Type κ
  Distinct [] = Unit
  Distinct ((k, v) ∷ m) = (get k m ≡ none) × Distinct m

  pub remove-Distinct : (k : K) (m : HashMap K V) → Distinct m → Distinct (remove k m)
  unfolding remove
  remove-Distinct k [] d = tt
  remove-Distinct k ((j, v) ∷ m) d = ground (arith, get-remove k j m, remove-Distinct k m d.1)

  pub insert-Distinct : (k : K) (v : V) (m : HashMap K V) → Distinct m → Distinct (insert k v m)
  unfolding insert
  insert-Distinct k v m d = ground (arith, get-remove k k m, e.beq_iff k k, remove-Distinct k m d)

abbrev pub bind {ℓ κ} : {V : Type ℓ} {W : Type κ} → Option V → (V → Option W) → Option W
bind none f = none
bind (some v) f = f v

abbrev entry {ℓ κ} : {K : Type ℓ} {W : Type κ} → K → Option W → HashMap K W → HashMap K W
entry k none m = m
entry k (some w) m = (k, w) ∷ m

-- `into_iter().filter_map(…).collect()`, where the function keeps the key.
unfoldable pub filter_map {ℓ κ μ} :
    {K : Type ℓ} {V : Type κ} {W : Type μ} → (K → V → Option W) → HashMap K V → HashMap K W
filter_map f [] = []
filter_map f ((k, v) ∷ m) = entry k (f k v) (filter_map f m)

get-entry {ℓ κ} :
    {K : Type ℓ} {W : Type κ} ⦃e : Eq K⦄ (j k : K) (o : Option W) (m : HashMap K W)
    → (k == j ≡ true → get j m ≡ none)
    → get j (entry k o m) ≡ (if k == j then o else get j m)
unfolding get
get-entry j k none m h = ground arith
get-entry j k (some w) m h = refl

module _ {ℓ κ μ} {K : Type ℓ} {V : Type κ} {W : Type μ} ⦃e : Eq K⦄ where
  pub get-filter_map :
      (f : K → V → Option W) (j : K) (m : HashMap K V)
      → Distinct m
      → get j (filter_map f m) ≡ bind (get j m) (f j)
  unfolding filter_map get
  get-filter_map f j [] d = refl
  get-filter_map f j ((k, v) ∷ m) d =
      let ih = get-filter_map f j m d.1 in
      elim (Bool-cases (k == j)) [
        | inl same ↦
            let at : k ≡ j = beq→eq k j same in
            let gone : get j (filter_map f m) ≡ none =
              ih ∙ ap (λ o. bind o (f j)) (ap (λ i. get i m) (sym at) ∙ d.0) in
            get-entry j k (f k v) (filter_map f m) (λ _. gone) ∙ rw same (ap (λ i. f i v) at)
        | inr other ↦
            get-entry j k (f k v) (filter_map f m) (λ same. absurd (false≢true (sym other ∙ same)))
            ∙ rw other ih
      ]

  pub filter_map-Distinct :
      (f : K → V → Option W) (m : HashMap K V) → Distinct m → Distinct (filter_map f m)
  unfolding filter_map
  filter_map-Distinct f [] d = tt
  filter_map-Distinct f ((k, v) ∷ m) d =
      let gone : get k (filter_map f m) ≡ none =
        get-filter_map f k m d.1 ∙ ap (λ o. bind o (f k)) d.0 in
      entry-Distinct (f k v) gone (filter_map-Distinct f m d.1)
    where
      entry-Distinct :
          (o : Option W)
          → get k (filter_map f m) ≡ none
          → Distinct (filter_map f m)
          → Distinct (entry k o (filter_map f m))
      entry-Distinct none gone rest = rest
      entry-Distinct (some w) gone rest = (gone, rest)
