-- ===== src/Gateway/Stream/Overflow.antt =====
-- Which filters of a subscription raise the `OverflowError` that `_subscribe`
-- (src/gateway/gateway.py) does not catch.
use realtime_market_data_pla.Common.{
  ◌≡◌, Option, none, some, arith, nat_Key, string_Key, pair_Key, ◌↔◌, ◌⊎◌, true, false, Bool-cases,
  inl, inr, refl, subst,
}
use realtime_market_data_pla.Models.{Numbers, Json, get, obj, null, int, float, bool, str, arr}
use realtime_market_data_pla.Parsing.Requests.{
  Bound, bound, overflow_error, check_bound, parse_bound, combine, parse_subscription_filter,
  raised, parse_bounds, value_error,
}

module _ {F : Type 0} ⦃n : Numbers F⦄ where
  -- An integer that no `float` can hold.
  abbrev pub IsTooLarge : Option (Json F) → Type 0
  IsTooLarge (some (int i)) = n.of_int i ≡ none
  IsTooLarge v = ⊥

  -- A bound that is taken: none, or a number that is finite and not negative.
  abbrev pub IsTaken : Option (Json F) → Type 0
  IsTaken none = Unit
  IsTaken (some null) = Unit
  IsTaken (some (int i)) =
      (x : F) × (n.of_int i ≡ some x) × (n.is_finite x ≡ true) × (n.lt x n.zero_f ≡ false)
  IsTaken (some (float x)) = (n.is_finite x ≡ true) × (n.lt x n.zero_f ≡ false)
  IsTaken (some v) = ⊥

  -- A filter whose first bound that is not taken is too large.
  abbrev pub Overflows : Json F → Type 0
  Overflows (obj payload) =
      IsTooLarge (get "min_change_pct" payload)
      ⊎ (IsTaken (get "min_change_pct" payload) × IsTooLarge (get "max_spread" payload))
  Overflows v = ⊥

  check_bound-bound :
      (x : F)
      → ((o : Option F) × (check_bound x ≡ bound o))
        ↔ ((n.is_finite x ≡ true) × (n.lt x n.zero_f ≡ false))
  unfolding check_bound
  check_bound-bound x = elim (Bool-cases (n.is_finite x)) [
    | inl finite ↦ elim (Bool-cases (n.lt x n.zero_f)) [
      | inl below ↦ (λ (o, h). absurd (ground arith), λ (f, b). absurd (ground arith))
      | inr fine ↦ (λ h. (finite, fine), λ h. (some x, ground arith))
    ]
    | inr infinite ↦ (λ (o, h). absurd (ground arith), λ (f, b). absurd (ground arith))
  ]

  no_overflow : (x : F) → check_bound x ≡ overflow_error → ⊥
  unfolding check_bound
  no_overflow x h = ground arith

  -- the integer bound, by its conversion
  abbrev int_bound : Option F → Bound F
  int_bound v = elim v [ none ↦ overflow_error | some x ↦ check_bound x ]

  int_taken :
      (v : Option F)
      → ((o : Option F) × (int_bound v ≡ bound o))
        ↔ ((x : F) × (v ≡ some x) × (n.is_finite x ≡ true) × (n.lt x n.zero_f ≡ false))
  int_taken none = (λ (o, h). absurd (ground arith), λ (x, h, f, b). absurd (ground arith))
  int_taken (some y) = (
    λ h. let (f, b) = (check_bound-bound y).0 h in (y, refl, f, b),
    λ (x, h, f, b).
        let same : x ≡ y = ground arith in
        (check_bound-bound y).1
          (subst (λ z. (n.is_finite z ≡ true) × (n.lt z n.zero_f ≡ false)) same (f, b)),
  )

  int_too_large : (v : Option F) → (int_bound v ≡ overflow_error) ↔ (v ≡ none)
  int_too_large none = (λ h. refl, λ h. refl)
  int_too_large (some y) = (λ h. absurd (no_overflow y h), λ h. absurd (ground arith))

  bound-IsTaken : (v : Option (Json F)) → ((o : Option F) × (parse_bound v ≡ bound o)) ↔ IsTaken v
  unfolding parse_bound
  bound-IsTaken none = (λ h. tt, λ h. (none, refl))
  bound-IsTaken (some null) = (λ h. tt, λ h. (none, refl))
  bound-IsTaken (some (int i)) = int_taken (n.of_int i)
  bound-IsTaken (some (float x)) = check_bound-bound x
  bound-IsTaken (some (bool b)) = (λ (o, h). absurd (ground arith), λ h. absurd h)
  bound-IsTaken (some (str t)) = (λ (o, h). absurd (ground arith), λ h. absurd h)
  bound-IsTaken (some (arr xs)) = (λ (o, h). absurd (ground arith), λ h. absurd h)
  bound-IsTaken (some (obj fs)) = (λ (o, h). absurd (ground arith), λ h. absurd h)

  bound-IsTooLarge : (v : Option (Json F)) → (parse_bound v ≡ overflow_error) ↔ IsTooLarge v
  unfolding parse_bound
  bound-IsTooLarge none = (λ h. absurd (ground arith), λ h. absurd h)
  bound-IsTooLarge (some null) = (λ h. absurd (ground arith), λ h. absurd h)
  bound-IsTooLarge (some (int i)) = int_too_large (n.of_int i)
  bound-IsTooLarge (some (float x)) = (λ h. absurd (no_overflow x h), λ h. absurd h)
  bound-IsTooLarge (some (bool b)) = (λ h. absurd (ground arith), λ h. absurd h)
  bound-IsTooLarge (some (str t)) = (λ h. absurd (ground arith), λ h. absurd h)
  bound-IsTooLarge (some (arr xs)) = (λ h. absurd (ground arith), λ h. absurd h)
  bound-IsTooLarge (some (obj fs)) = (λ h. absurd (ground arith), λ h. absurd h)

  combine_raised :
      (b c : Bound F)
      → (combine b c ≡ raised)
        ↔ ((b ≡ overflow_error) ⊎ (((o : Option F) × (b ≡ bound o)) × (c ≡ overflow_error)))
  unfolding combine
  combine_raised (bound o) (bound p) = (
    λ h. absurd (ground arith),
    λ e. elim e [ inl h ↦ absurd (ground arith) | inr (w, h) ↦ absurd (ground arith) ],
  )
  combine_raised (bound o) value_error = (
    λ h. absurd (ground arith),
    λ e. elim e [ inl h ↦ absurd (ground arith) | inr (w, h) ↦ absurd (ground arith) ],
  )
  combine_raised (bound o) overflow_error = (λ h. inr ((o, refl), refl), λ h. refl)
  combine_raised value_error c = (
    λ h. absurd (ground arith),
    λ e. elim e [ inl h ↦ absurd (ground arith) | inr ((o, h), k) ↦ absurd (ground arith) ],
  )
  combine_raised overflow_error c = (λ h. inl refl, λ h. refl)

  -- Exactly a filter that overflows raises the exception that is not caught.
  pub parsed-Overflows : (v : Json F) → (parse_subscription_filter v ≡ raised) ↔ Overflows v
  unfolding parse_subscription_filter parse_bounds
  parsed-Overflows (obj payload) =
      let least = get "min_change_pct" payload in
      let most = get "max_spread" payload in
      let (f, g) = combine_raised (parse_bound least) (parse_bound most) in
      (
        λ h. elim (f h) [
          | inl large ↦ inl ((bound-IsTooLarge least).0 large)
          | inr (taken, large) ↦
              inr ((bound-IsTaken least).0 taken, (bound-IsTooLarge most).0 large)
        ],
        λ h. g (elim h [
          | inl large ↦ inl ((bound-IsTooLarge least).1 large)
          | inr (taken, large) ↦
              inr ((bound-IsTaken least).1 taken, (bound-IsTooLarge most).1 large)
        ]),
      )
  parsed-Overflows null = (λ h. absurd (ground arith), λ h. absurd h)
  parsed-Overflows (bool b) = (λ h. absurd (ground arith), λ h. absurd h)
  parsed-Overflows (int i) = (λ h. absurd (ground arith), λ h. absurd h)
  parsed-Overflows (float x) = (λ h. absurd (ground arith), λ h. absurd h)
  parsed-Overflows (str t) = (λ h. absurd (ground arith), λ h. absurd h)
  parsed-Overflows (arr xs) = (λ h. absurd (ground arith), λ h. absurd h)
