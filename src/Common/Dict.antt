-- ===== src/Common/Dict.antt =====
-- Python's `dict`: an association list in insertion order, one entry for a key. A key that is
-- already there keeps its place when it is assigned again.
use Prim.Native.Nat.{suc, ◌+◌, ◌≤◌}
use mathlib.Core.Path.{◌≡◌, refl}
use mathlib.Core.List.{List, [], ◌∷◌, map}
use mathlib.Core.Option.{Option, none, some}
use native.Mathlib.Omega.{arith}
use realtime_market_data_pla.Common.Tests.{Key, ◌==◌, if◌then◌else◌}
use realtime_market_data_pla.Common.Lists.{length}
use realtime_market_data_pla.Common.{All, Bool-cases, inl, subst, sym, inr, ◌⊎◌}

abbrev pub Dict {ℓ κ} : Type ℓ → Type κ → Type (ℓ ⊔ κ)
Dict K V = List (K × V)

abbrev pub values {ℓ κ} : {K : Type ℓ} {V : Type κ} → Dict K V → List V
values = map (λ p. p.1)

abbrev pub keys {ℓ κ} : {K : Type ℓ} {V : Type κ} → Dict K V → List K
keys = map (λ p. p.0)

-- `default if o is None else o`
abbrev pub get_or {ℓ} : {A : Type ℓ} → Option A → A → A
get_or none d = d
get_or (some a) d = a

-- `o if o is not None else p`
abbrev pub or_else {ℓ} : {A : Type ℓ} → Option A → Option A → Option A
or_else none p = p
or_else (some a) p = some a

module _ {ℓ κ} {K : Type ℓ} {V : Type κ} ⦃e : Key K⦄ where
  -- `d.get(k)`
  unfoldable pub lookup : K → Dict K V → Option V
  lookup k [] = none
  lookup k ((j, v) ∷ d) = if j == k then some v else lookup k d

  -- `d[k] = v`
  unfoldable pub insert : K → V → Dict K V → Dict K V
  insert k v [] = (k, v) ∷ []
  insert k v ((j, w) ∷ d) = if j == k then (j, v) ∷ d else (j, w) ∷ insert k v d

  -- `d.pop(k, None)`
  unfoldable pub delete : K → Dict K V → Dict K V
  delete k [] = []
  delete k ((j, w) ∷ d) = let rest = delete k d in if j == k then rest else (j, w) ∷ rest

  pub lookup-insert :
      (k j : K) (v : V) (d : Dict K V)
      → lookup j (insert k v d) ≡ (if k == j then some v else lookup j d)
  unfolding lookup insert
  lookup-insert k j v [] = refl
  lookup-insert k j v ((i, w) ∷ d) =
      ground (arith, e.same_iff k j, e.same_iff i k, e.same_iff i j, lookup-insert k j v d)

  pub lookup-delete :
      (k j : K) (d : Dict K V) → lookup j (delete k d) ≡ (if k == j then none else lookup j d)
  unfolding lookup delete
  lookup-delete k j [] = ground arith
  lookup-delete k j ((i, w) ∷ d) =
      ground (arith, e.same_iff k j, e.same_iff i k, e.same_iff i j, lookup-delete k j d)

  pub length-delete-le : (k : K) (d : Dict K V) → length (delete k d) ≤ length d
  unfolding delete
  length-delete-le k [] = omega arith
  length-delete-le k ((i, w) ∷ d) = ground (arith, length-delete-le k d)

  pub length-delete-lt :
      (k : K) (d : Dict K V) (v : V) → lookup k d ≡ some v → suc (length (delete k d)) ≤ length d
  unfolding lookup delete
  length-delete-lt k [] v h = absurd (ground arith)
  length-delete-lt k ((i, w) ∷ d) v h = ground (arith, length-delete-lt k d v, length-delete-le k d)

  pub length-insert-le : (k : K) (v : V) (d : Dict K V) → length (insert k v d) ≤ length d + 1
  unfolding insert
  length-insert-le k v [] = omega arith
  length-insert-le k v ((i, w) ∷ d) = ground (arith, length-insert-le k v d)

  pub insert-cases :
      (k j : K) (v w : V) (d : Dict K V)
      → lookup j (insert k v d) ≡ some w
      → ((k ≡ j) × (v ≡ w)) ⊎ (lookup j d ≡ some w)
  insert-cases k j v w d h = elim (Bool-cases (k == j)) [
    | inl same ↦ inl ((e.same_iff k j).0 same, ground (arith, lookup-insert k j v d))
    | inr other ↦ inr (ground (arith, lookup-insert k j v d))
  ]

  pub lookup-insert-none :
      (k j : K) (v : V) (d : Dict K V) → lookup j (insert k v d) ≡ none → lookup j d ≡ none
  lookup-insert-none k j v d h = ground (arith, lookup-insert k j v d)

  -- A predicate of every entry.
  pub All-insert {μ} :
      (P : K × V → Type μ) (k : K) (v : V) (d : Dict K V)
      → P (k, v)
      → All P d
      → All P (insert k v d)
  unfolding insert
  All-insert P k v [] p h = (p, tt)
  All-insert P k v ((j, w) ∷ d) p h = elim (Bool-cases (j == k)) [
    | inl same ↦ rw same (subst (λ i. P (i, v)) (sym ((e.same_iff j k).0 same)) p, h.1)
    | inr other ↦ rw other (h.0, All-insert P k v d p h.1)
  ]

  pub All-delete {μ} : (P : K × V → Type μ) (k : K) (d : Dict K V) → All P d → All P (delete k d)
  unfolding delete
  All-delete P k [] h = tt
  All-delete P k ((j, w) ∷ d) h = elim (Bool-cases (j == k)) [
    | inl same ↦ rw same (All-delete P k d h.1)
    | inr other ↦ rw other (h.0, All-delete P k d h.1)
  ]

  pub All-lookup {μ} :
      (P : K × V → Type μ) (k : K) (v : V) (d : Dict K V) → All P d → lookup k d ≡ some v → P (k, v)
  unfolding lookup
  All-lookup P k v [] h found = absurd (ground arith)
  All-lookup P k v ((j, w) ∷ d) h found = elim (Bool-cases (j == k)) [
    | inl same ↦
        let value : w ≡ v = ground arith in
        subst (λ x. P (k, x)) value (subst (λ i. P (i, w)) ((e.same_iff j k).0 same) h.0)
    | inr other ↦ All-lookup P k v d h.1 (ground arith)
  ]

-- No key stands twice.
abbrev pub IsUnique {ℓ κ} : {K : Type ℓ} {V : Type κ} ⦃e : Key K⦄ → Dict K V → Type κ
IsUnique [] = Unit
IsUnique ((k, v) ∷ d) = (lookup k d ≡ none) × IsUnique d

module _ {ℓ κ} {K : Type ℓ} {V : Type κ} ⦃e : Key K⦄ where
  pub insert-IsUnique : (k : K) (v : V) (d : Dict K V) → IsUnique d → IsUnique (insert k v d)
  unfolding insert lookup
  insert-IsUnique k v [] u = (refl, tt)
  insert-IsUnique k v ((j, w) ∷ d) u = elim (Bool-cases (j == k)) [
    | inl same ↦ rw same u
    | inr other ↦ rw other (
      ground (arith, lookup-insert k j v d, e.same_iff k j, e.same_iff j k),
      insert-IsUnique k v d u.1,
    )
  ]

pub ruleset dict_laws = (lookup-insert, lookup-delete)
