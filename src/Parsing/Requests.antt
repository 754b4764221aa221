-- ===== src/Parsing/Requests.antt =====
-- What a client asks for: `_parse_subscription_filter` and `_parse_encoding` of
-- src/gateway/gateway.py.
use realtime_market_data_pla.Common.{
  String, ◌≡◌, inl, inr, true, false, not, ◌||◌, Option, none, some, arith, if◌then◌else◌, ◌==◌,
  nat_Key, string_Key, pair_Key, Bool-cases,
}
use realtime_market_data_pla.Models.{
  Numbers, get, Json, obj, Fields, int, float, null, bool, str, arr,
}
use realtime_market_data_pla.Session.{SubscriptionFilter, Encoding, json, msgpack}

-- One bound of a filter: `value_error` is the `ValueError` that `_subscribe` answers,
-- `overflow_error` the `OverflowError` of `float`, which it does not catch.
pub data Bound (F : Type 0) : Type 0 where
  bound : Option F → Bound F
  value_error : Bound F
  overflow_error : Bound F

pub data ParsedFilter (F : Type 0) : Type 0 where
  no_filter : ParsedFilter F
  filter : SubscriptionFilter F → ParsedFilter F
  refused : ParsedFilter F
  raised : ParsedFilter F

-- `Encoding(encoding_param or "json")`, with `json` for an unknown one
unfoldable pub parse_encoding : Option String → Encoding
parse_encoding none = json
parse_encoding (some param) = if param == "msgpack" then msgpack else json

module _ {F : Type 0} ⦃n : Numbers F⦄ where
  -- `not math.isfinite(numeric) or numeric < 0`
  unfoldable pub check_bound : F → Bound F
  check_bound x = if not (n.is_finite x) || n.lt x n.zero_f then value_error else bound (some x)

  unfoldable pub parse_bound : Option (Json F) → Bound F
  unfolding check_bound
  parse_bound none = bound none
  parse_bound (some null) = bound none
  parse_bound (some (int i)) = elim (n.of_int i) [ none ↦ overflow_error | some x ↦ check_bound x ]
  parse_bound (some (float x)) = check_bound x
  parse_bound (some _) = value_error

  -- The loop over the two names: the first error ends it.
  unfoldable pub combine : Bound F → Bound F → ParsedFilter F
  combine (bound least) (bound most) = filter (record { min_change_pct = least; max_spread = most })
  combine (bound least) value_error = refused
  combine (bound least) overflow_error = raised
  combine value_error most = refused
  combine overflow_error most = raised

  unfoldable pub parse_bounds : Fields F → ParsedFilter F
  unfolding parse_bound get combine
  parse_bounds payload =
      combine (parse_bound (get "min_change_pct" payload)) (parse_bound (get "max_spread" payload))

  unfoldable pub parse_subscription_filter : Json F → ParsedFilter F
  unfolding parse_bounds
  parse_subscription_filter null = no_filter
  parse_subscription_filter (obj payload) = parse_bounds payload
  parse_subscription_filter _ = refused

  -- A bound that a filter may have.
  abbrev pub IsBound : Option F → Type 0
  IsBound none = Unit
  IsBound (some x) = (n.is_finite x ≡ true) × (n.lt x n.zero_f ≡ false)

  check_bound-IsBound : (x : F) (o : Option F) → check_bound x ≡ bound o → IsBound o
  unfolding check_bound
  check_bound-IsBound x none h = tt
  check_bound-IsBound x (some y) h = elim (Bool-cases (not (n.is_finite x) || n.lt x n.zero_f)) [
    | inl bad ↦ absurd (ground arith)
    | inr fine ↦ ground arith
  ]

  parse_int-IsBound :
      (c : Option F) (o : Option F)
      → elim c [ none ↦ overflow_error | some x ↦ check_bound x ] ≡ bound o
      → IsBound o
  parse_int-IsBound none o h = absurd (ground arith)
  parse_int-IsBound (some x) o h = check_bound-IsBound x o h

  parse_bound-IsBound : (v : Option (Json F)) (o : Option F) → parse_bound v ≡ bound o → IsBound o
  unfolding parse_bound
  parse_bound-IsBound v none h = tt
  parse_bound-IsBound none (some y) h = absurd (ground arith)
  parse_bound-IsBound (some null) (some y) h = absurd (ground arith)
  parse_bound-IsBound (some (bool b)) (some y) h = absurd (ground arith)
  parse_bound-IsBound (some (int i)) (some y) h = parse_int-IsBound (n.of_int i) (some y) h
  parse_bound-IsBound (some (float x)) (some y) h = check_bound-IsBound x (some y) h
  parse_bound-IsBound (some (str t)) (some y) h = absurd (ground arith)
  parse_bound-IsBound (some (arr xs)) (some y) h = absurd (ground arith)
  parse_bound-IsBound (some (obj fs)) (some y) h = absurd (ground arith)

  combine-filter :
      (b c : Bound F) (f : SubscriptionFilter F)
      → combine b c ≡ filter f
      → (b ≡ bound f.min_change_pct) × (c ≡ bound f.max_spread)
  unfolding combine
  combine-filter (bound least) (bound most) f h = ground arith
  combine-filter (bound least) value_error f h = absurd (ground arith)
  combine-filter (bound least) overflow_error f h = absurd (ground arith)
  combine-filter value_error c f h = absurd (ground arith)
  combine-filter overflow_error c f h = absurd (ground arith)

  -- Every bound of a filter that is parsed is finite and not negative.
  pub parse_subscription_filter-IsBound :
      (v : Json F) (f : SubscriptionFilter F)
      → parse_subscription_filter v ≡ filter f
      → IsBound f.min_change_pct × IsBound f.max_spread
  unfolding parse_subscription_filter parse_bounds
  parse_subscription_filter-IsBound (obj payload) f h =
      let (least, most) =
        combine-filter (parse_bound (get "min_change_pct" payload))
          (parse_bound (get "max_spread" payload)) f h in
      (
        parse_bound-IsBound (get "min_change_pct" payload) f.min_change_pct least,
        parse_bound-IsBound (get "max_spread" payload) f.max_spread most,
      )
  parse_subscription_filter-IsBound null f h = absurd (ground arith)
  parse_subscription_filter-IsBound (bool b) f h = absurd (ground arith)
  parse_subscription_filter-IsBound (int i) f h = absurd (ground arith)
  parse_subscription_filter-IsBound (float x) f h = absurd (ground arith)
  parse_subscription_filter-IsBound (str t) f h = absurd (ground arith)
  parse_subscription_filter-IsBound (arr xs) f h = absurd (ground arith)
