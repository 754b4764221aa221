-- ===== src/Common/Queue.antt =====
-- `asyncio.Queue` with a bound: its items, oldest first. `none` is `QueueFull` or `QueueEmpty`.
use Prim.Native.Nat.{◌<◌, ℕ, zero, suc, ◌+◌, ◌-◌, ◌≤◌}
use mathlib.Core.Path.{◌≡◌, refl, sym, ap, ◌∙◌}
use mathlib.Core.List.{List, [], ◌∷◌, ◌++◌}
use mathlib.Core.Option.{Option, none, some}
use native.Mathlib.Omega.{arith}
use realtime_market_data_pla.Common.Tests.{leb, if◌then◌else◌}
use realtime_market_data_pla.Common.Lists.{length, length-append, drop, last_n}

module _ {ℓ} {A : Type ℓ} where
  -- `q.put_nowait(x)` on a queue with `maxsize` > 0
  unfoldable pub put_nowait : ℕ → A → List A → Option (List A)
  put_nowait maxsize x q = if leb maxsize (length q) then none else some (q ++ x ∷ [])

  -- `q.get_nowait()`
  unfoldable pub get_nowait : List A → Option (A × List A)
  get_nowait [] = none
  get_nowait (x ∷ q) = some (x, q)

  pub drop_all : (n : ℕ) (xs : List A) → length xs ≤ n → drop n xs ≡ []
  drop_all zero [] h = refl
  drop_all zero (x ∷ xs) h = absurd (omega arith)
  drop_all (suc n) [] h = refl
  drop_all (suc n) (x ∷ xs) h = drop_all n xs (omega arith)

  drop-append_le : (n : ℕ) (xs ys : List A) → n ≤ length xs → drop n (xs ++ ys) ≡ drop n xs ++ ys
  drop-append_le zero xs ys h = refl
  drop-append_le (suc n) [] ys h = absurd (omega arith)
  drop-append_le (suc n) (x ∷ xs) ys h = drop-append_le n xs ys (omega arith)

  length-drop : (n : ℕ) (xs : List A) → length (drop n xs) ≡ length xs - n
  length-drop zero xs = omega arith
  length-drop (suc n) [] = omega arith
  length-drop (suc n) (x ∷ xs) = omega (arith, length-drop n xs)

  drop-drop : (m n : ℕ) (xs : List A) → drop m (drop n xs) ≡ drop (n + m) xs
  drop-drop m zero xs = ap (λ k. drop k xs) (omega arith)
  drop-drop zero (suc n) [] = sym (drop_all (suc n + zero) [] (omega arith))
  drop-drop (suc m) (suc n) [] = sym (drop_all (suc n + suc m) [] (omega arith))
  drop-drop m (suc n) (x ∷ xs) = drop-drop m n xs ∙ ap (λ k. drop k (x ∷ xs)) (drop_suc m n)
    where
      drop_suc : (m n : ℕ) → suc (n + m) ≡ suc n + m
      drop_suc m n = omega arith

  pub drop_congr : {m n : ℕ} (xs : List A) → m ≡ n → drop m xs ≡ drop n xs
  drop_congr xs e = ap (λ k. drop k xs) e

  pub length-last_n : (n : ℕ) (xs : List A) → length (last_n n xs) ≤ n
  unfolding last_n
  length-last_n n xs = omega (arith, length-drop (length xs - n) xs)

  pub last_n_of_length-le : (n : ℕ) (xs : List A) → length xs ≤ n → last_n n xs ≡ xs
  unfolding last_n
  last_n_of_length-le n xs h = drop_congr {m = length xs - n} {n = 0} xs (omega arith)

  -- Keeping the newest `n` of a history can be done one item at a time.
  pub last_n-append_one :
      (n : ℕ) (h : List A) (x : A) → last_n n (last_n n h ++ x ∷ []) ≡ last_n n (h ++ x ∷ [])
  unfolding last_n
  last_n-append_one n h x =
      let k = length h - n in
      rw (sym (drop-append_le k h (x ∷ []) (omega arith)), drop-drop _ k (h ++ x ∷ []))
        (drop_congr (h ++ x ∷ [])
          (omega (arith, length-drop k (h ++ x ∷ []), length-append h (x ∷ []))))

  -- Drop the oldest item of a full queue, then append.
  pub put_nowait_full :
      (m : ℕ) (x : A) (q : List A)
      → length q ≡ suc m
      → (put_nowait (suc m) x q ≡ none)
        × (y : A) × (get_nowait q ≡ some (y, drop 1 q))
        × (put_nowait (suc m) x (drop 1 q) ≡ some (last_n (suc m) (q ++ x ∷ [])))
  unfolding put_nowait get_nowait last_n
  put_nowait_full m x [] h = absurd (omega arith)
  put_nowait_full m x (y ∷ q) h = (
    ground arith,
    y,
    refl,
    ground (
      arith,
      length-append q (x ∷ []),
      drop_congr {m = length (y ∷ q ++ x ∷ []) - suc m} {n = 1} (y ∷ q ++ x ∷ []),
    ),
  )

  -- The oldest of a full window makes room for one more.
  pub last_n_cons :
      (m : ℕ) (x y : A) (q : List A) → length q ≡ m → last_n (suc m) (y ∷ q ++ x ∷ []) ≡ q ++ x ∷ []
  unfolding last_n
  last_n_cons m x y q h =
      drop_congr {m = length (y ∷ q ++ x ∷ []) - suc m} {n = 1} (y ∷ q ++ x ∷ [])
        (omega (arith, length-append q (x ∷ [])))

  pub put_nowait_room :
      (n : ℕ) (x : A) (q : List A) → length q < n → put_nowait n x q ≡ some (q ++ x ∷ [])
  unfolding put_nowait
  put_nowait_room n x q h = ground arith

  pub put_nowait-none : (n : ℕ) (x : A) (q : List A) → n ≤ length q → put_nowait n x q ≡ none
  unfolding put_nowait
  put_nowait-none n x q h = ground arith
