-- ===== src/Common/Lists.antt =====
-- Lists measured by native numbers, and predicates over them.
use Prim.Native.Nat.{ℕ, zero, suc, ◌+◌, ◌-◌}
use mathlib.Core.Path.{◌≡◌, subst, sym}
use mathlib.Core.Logic.{inl, inr}
use mathlib.Core.Bool.{Bool, true, false, ◌||◌}
use mathlib.Core.List.{List, [], ◌∷◌, ◌++◌}
use native.Mathlib.Omega.{arith}
use realtime_market_data_pla.Common.Tests.{Bool-cases, Key, ◌==◌, if◌then◌else◌}

module _ {ℓ} {A : Type ℓ} where
  abbrev pub length : List A → ℕ
  length [] = 0
  length (x ∷ xs) = suc (length xs)

  abbrev pub drop : ℕ → List A → List A
  drop zero xs = xs
  drop (suc n) [] = []
  drop (suc n) (x ∷ xs) = drop n xs

  abbrev pub take : ℕ → List A → List A
  take zero xs = []
  take (suc n) [] = []
  take (suc n) (x ∷ xs) = x ∷ take n xs

  -- `xs[-n:]` for n > 0: the last n elements, or all of a shorter list.
  unfoldable pub last_n : ℕ → List A → List A
  last_n n xs = drop (length xs - n) xs

  pub length-append : (xs ys : List A) → length (xs ++ ys) ≡ length xs + length ys
  length-append [] ys = omega arith
  length-append (x ∷ xs) ys = omega (arith, length-append xs ys)

  -- A predicate of every element, by recursion.
  abbrev pub All {κ} : (A → Type κ) → List A → Type κ
  All P [] = Unit
  All P (x ∷ xs) = P x × All P xs

  pub All-append {κ} : (P : A → Type κ) (xs ys : List A) → All P xs → All P ys → All P (xs ++ ys)
  All-append P [] ys hx hy = hy
  All-append P (x ∷ xs) ys hx hy = (hx.0, All-append P xs ys hx.1 hy)

pub All-map {ℓ κ μ} :
    {A : Type ℓ} {P : A → Type κ} {Q : A → Type μ}
    → ((x : A) → P x → Q x)
    → (xs : List A) → All P xs
    → All Q xs
All-map f [] h = tt
All-map f (x ∷ xs) h = (f x h.0, All-map f xs h.1)

-- Python's `x in xs` over a list or a set.
module _ {ℓ} {A : Type ℓ} ⦃e : Key A⦄ where
  unfoldable pub contains : A → List A → Bool
  contains a [] = false
  contains a (x ∷ xs) = a == x || contains a xs

  -- `xs.discard(a)` on a set
  unfoldable pub discard : A → List A → List A
  discard a [] = []
  discard a (x ∷ xs) = if a == x then discard a xs else x ∷ discard a xs

  pub contains-append_one :
      (a x : A) (xs : List A) → contains a (xs ++ x ∷ []) ≡ (contains a xs || (a == x))
  unfolding contains
  contains-append_one a x [] = ground arith
  contains-append_one a x (y ∷ xs) = ground (arith, contains-append_one a x xs)

  -- A predicate of every element holds of one that is there.
  pub All-contains {κ} :
      (P : A → Type κ) (a : A) (xs : List A) → All P xs → contains a xs ≡ true → P a
  unfolding contains
  All-contains P a [] h there = absurd (ground arith)
  All-contains P a (x ∷ xs) h there = elim (Bool-cases (a == x)) [
    | inl same ↦ subst P (sym ((e.same_iff a x).0 same)) h.0
    | inr other ↦ All-contains P a xs h.1 (ground arith)
  ]
