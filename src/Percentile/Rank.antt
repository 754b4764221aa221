-- ===== src/Percentile/Rank.antt =====
-- Which sample a percentile (src/gateway/session.py, src/gateway/gateway.py) reports.
use mathlib.Core.List.{Perm}
use realtime_market_data_pla.Common.{
  ℕ, ◌≡◌, inl, inr, Bool-cases, Bool, true, false, List, [], ◌∷◌, ◌++◌, length, All, some, arith,
  subst, ◌<◌, suc, ap, zero, refl,
}
use realtime_market_data_pla.Percentile.{
  insert_sorted, sorted, percentile_index, get_elem?, percentile, length-sorted, sorted-perm,
}
use realtime_market_data_pla.Models.{Numbers}

-- `<` of numbers none of which is a NaN: asymmetric, and its negation transitive.
pub record IsOrder {ℓ} {A : Type ℓ} (lt : A → A → Bool) : Type ℓ where
  pub asym : (a b : A) → lt a b ≡ true → lt b a ≡ false
  pub negation : (a b c : A) → lt a b ≡ false → lt b c ≡ false → lt a c ≡ false

module _ {ℓ} {A : Type ℓ} (lt : A → A → Bool) where
  -- No element is smaller than one before it.
  abbrev pub IsSorted : List A → Type ℓ
  IsSorted [] = Unit
  IsSorted (x ∷ xs) = All (λ y. lt y x ≡ false) xs × IsSorted xs

  All-insert_sorted :
      (P : A → Type 0) (x : A) (ys : List A) → P x → All P ys → All P (insert_sorted lt x ys)
  unfolding insert_sorted
  All-insert_sorted P x [] px h = (px, tt)
  All-insert_sorted P x (y ∷ ys) px h = elim (Bool-cases (lt y x)) [
    | inl e ↦ rw e (h.0, All-insert_sorted P x ys px h.1)
    | inr e ↦ rw e (px, h)
  ]

  module _ (o : IsOrder lt) where
    not_smaller :
        (x y : A) (ys : List A)
        → lt y x ≡ false
        → All (λ z. lt z y ≡ false) ys
        → All (λ z. lt z x ≡ false) ys
    not_smaller x y [] e h = tt
    not_smaller x y (z ∷ zs) e h = (o.negation z y x h.0 e, not_smaller x y zs e h.1)

    insert_sorted-IsSorted : (x : A) (ys : List A) → IsSorted ys → IsSorted (insert_sorted lt x ys)
    unfolding insert_sorted
    insert_sorted-IsSorted x [] h = (tt, tt)
    insert_sorted-IsSorted x (y ∷ ys) h = elim (Bool-cases (lt y x)) [
      | inl e ↦ rw e (
        All-insert_sorted (λ z. lt z y ≡ false) x ys (o.asym y x e) h.0,
        insert_sorted-IsSorted x ys h.1,
      )
      | inr e ↦ rw e ((e, not_smaller x y ys e h.0), h)
    ]

    pub sorted-IsSorted : (xs : List A) → IsSorted (sorted lt xs)
    unfolding sorted
    sorted-IsSorted [] = tt
    sorted-IsSorted (x ∷ xs) = insert_sorted-IsSorted x (sorted lt xs) (sorted-IsSorted xs)

  All-middle : (P : A → Type 0) (xs : List A) (v : A) (ys : List A) → All P (xs ++ v ∷ ys) → P v
  All-middle P [] v ys h = h.0
  All-middle P (x ∷ xs) v ys h = All-middle P xs v ys h.1

  -- `v` has rank `i` among `xs`: `i` of them are not above it, and the others not below it.
  pub record HasRank (v : A) (i : ℕ) (xs : List A) : Type ℓ where
    pub before : List A
    pub after : List A
    pub arranged : Perm (before ++ v ∷ after) xs
    pub rank : length before ≡ i
    pub not_above : All (λ z. lt v z ≡ false) before
    pub not_below : All (λ z. lt z v ≡ false) after

  -- A sorted list, split at its element `i`.
  record SplitAt (v : A) (i : ℕ) (ys : List A) : Type ℓ where
    before : List A
    after : List A
    split : ys ≡ before ++ v ∷ after
    rank : length before ≡ i
    not_above : All (λ z. lt v z ≡ false) before
    not_below : All (λ z. lt z v ≡ false) after

  get_elem?-SplitAt :
      (ys : List A) (i : ℕ)
      → IsSorted ys
      → i < length ys
      → (v : A) × (get_elem? ys i ≡ some v) × SplitAt v i ys
  unfolding get_elem?
  get_elem?-SplitAt [] i h small = absurd (omega arith)
  get_elem?-SplitAt (x ∷ xs) zero h small = (
    x,
    refl,
    record { before = []; after = xs; split = refl; rank = refl; not_above = tt; not_below = h.0 },
  )
  get_elem?-SplitAt (x ∷ xs) (suc i) h small =
      let (v, at, r) = get_elem?-SplitAt xs i h.1 (omega arith) in
      (
        v,
        at,
        record {
          before = x ∷ r.before;
          after = r.after;
          split = ap (◌∷◌ x) r.split;
          rank = ap suc r.rank;
          not_above = (
            All-middle (λ z. lt z x ≡ false) r.before v r.after (rw r.split at h.0),
            r.not_above,
          );
          not_below = r.not_below;
        },
      )

percentile_index-lt : (n p : ℕ) → 0 < n → percentile_index n p < n
unfolding percentile_index
percentile_index-lt n p h = omega arith

module _ {F : Type 0} ⦃n : Numbers F⦄ (o : IsOrder n.lt) where
  -- Under an order of the samples: of samples that are not empty a percentile is never an
  -- `IndexError`, and it is the rounded sample whose rank is the index, at whatever whole
  -- percentage.
  pub percentile-HasRank :
      (x : F) (xs : List F) (p : ℕ)
      → (v : F) × (percentile (x ∷ xs) p ≡ some (n.round_2 v))
        × HasRank n.lt v (percentile_index (length (x ∷ xs)) p) (x ∷ xs)
  unfolding percentile
  percentile-HasRank x xs p =
      let ys = sorted n.lt (x ∷ xs) in
      let k = percentile_index (length (x ∷ xs)) p in
      let (v, at, r) =
        get_elem?-SplitAt n.lt ys k (sorted-IsSorted n.lt o (x ∷ xs))
          (omega (arith, length-sorted n.lt (x ∷ xs), percentile_index-lt (length (x ∷ xs)) p)) in
      (
        v,
        rw (at, percentile),
        record {
          before = r.before;
          after = r.after;
          arranged = subst (λ zs. Perm zs (x ∷ xs)) r.split (sorted-perm n.lt (x ∷ xs));
          rank = r.rank;
          not_above = r.not_above;
          not_below = r.not_below;
        },
      )
