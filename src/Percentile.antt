-- ===== src/Percentile.antt =====
-- `LatencyTracker.percentile` of src/gateway/session.py, and the same computation in
-- src/gateway/gateway.py (`percentile` of `get_metrics_summary`) and in src/benchmark/load_bench.py.
pub mod Rank
use mathlib.Core.List.{Perm, Mem, mem-cons_self, mem-cons_of_mem}
use mathlib.Core.List.Perm
use realtime_market_data_pla.Common.{
  ℕ, zero, suc, ◌-◌, ◌*◌, ◌/◌, ◌<◌, min, ◌≡◌, refl, inl, inr, Bool-cases, Bool, Option, none, some,
  List, [], ◌∷◌, if◌then◌else◌, arith, length,
}
use realtime_market_data_pla.Models.{Numbers}

module _ {ℓ} {A : Type ℓ} (lt : A → A → Bool) where
  -- Into a sorted list, before the first element that is not smaller.
  unfoldable pub insert_sorted : A → List A → List A
  insert_sorted x [] = x ∷ []
  insert_sorted x (y ∷ ys) = if lt y x then y ∷ insert_sorted x ys else x ∷ y ∷ ys

  -- `sorted(xs)`: the stable sort by `<`
  unfoldable pub sorted : List A → List A
  unfolding insert_sorted
  sorted [] = []
  sorted (x ∷ xs) = insert_sorted x (sorted xs)

  insert_sorted-perm : (x : A) (ys : List A) → Perm (insert_sorted x ys) (x ∷ ys)
  unfolding insert_sorted
  insert_sorted-perm x [] = Perm.refl (x ∷ [])
  insert_sorted-perm x (y ∷ ys) = elim (Bool-cases (lt y x)) [
    | inl smaller ↦
        rw smaller (Perm.trans (Perm.cons y (insert_sorted-perm x ys)) (Perm.swap x y ys))
    | inr other ↦ rw other (Perm.refl (x ∷ y ∷ ys))
  ]

  -- Sorting permutes.
  pub sorted-perm : (xs : List A) → Perm (sorted xs) xs
  unfolding sorted
  sorted-perm [] = Perm.refl []
  sorted-perm (x ∷ xs) =
      Perm.trans (insert_sorted-perm x (sorted xs)) (Perm.cons x (sorted-perm xs))

  length-insert_sorted : (x : A) (ys : List A) → length (insert_sorted x ys) ≡ suc (length ys)
  unfolding insert_sorted
  length-insert_sorted x [] = refl
  length-insert_sorted x (y ∷ ys) = ground (arith, length-insert_sorted x ys)

  pub length-sorted : (xs : List A) → length (sorted xs) ≡ length xs
  unfolding sorted
  length-sorted [] = refl
  length-sorted (x ∷ xs) = omega (arith, length-insert_sorted x (sorted xs), length-sorted xs)

-- `xs[i]`; `none` is an `IndexError`.
unfoldable pub get_elem? {ℓ} : {A : Type ℓ} → List A → ℕ → Option A
get_elem? [] i = none
get_elem? (x ∷ xs) zero = some x
get_elem? (x ∷ xs) (suc i) = get_elem? xs i

get_elem?-mem {ℓ} :
    {A : Type ℓ} (xs : List A) (i : ℕ)
    → i < length xs
    → (x : A) × (get_elem? xs i ≡ some x) × Mem x xs
unfolding get_elem?
get_elem?-mem [] i h = absurd (omega arith)
get_elem?-mem (x ∷ xs) zero h = (x, refl, mem-cons_self)
get_elem?-mem (x ∷ xs) (suc i) h =
    let (y, at, mem) = get_elem?-mem xs i (omega arith) in (y, at, mem-cons_of_mem x mem)

-- `min(int(len(xs) * p / 100), len(xs) - 1)` for a list that is not empty and a whole percentage
unfoldable pub percentile_index : ℕ → ℕ → ℕ
percentile_index n p = min (n * p / 100) (n - 1)

module _ {F : Type 0} ⦃n : Numbers F⦄ where
  -- `none` is an `IndexError`.
  unfoldable pub percentile : List F → ℕ → Option F
  percentile [] p = some n.zero_f
  percentile (x ∷ xs) p =
      elim (get_elem? (sorted n.lt (x ∷ xs)) (percentile_index (length (x ∷ xs)) p)) [
        | some v ↦ some (n.round_2 v)
        | none ↦ none
      ]
