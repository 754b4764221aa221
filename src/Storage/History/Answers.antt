-- ===== src/Storage/History/Answers.antt =====
-- What `get_history` (src/gateway/gateway.py) answers from the store.
use realtime_market_data_pla.Common.{
  ℕ, ◌≤◌, String, ◌≡◌, ◌⊎◌, inl, inr, Bool, true, ◌&&◌, Option, none, some, List, [], ◌∷◌, arith,
  length, nat_Key, string_Key, pair_Key, Bool-cases, subst, ◌∙◌, ap₂, sym, refl,
}
use realtime_market_data_pla.Common.Int.{ℤ, pos, pos_part, neg_part, ◌≤ℤ◌, ◌<ℤ◌}
use realtime_market_data_pla.Storage.History.{
  connect_then, run_query, translate, failure, clamp_limit, fetch_ticks, answer_ticks, Query,
  Outcome, DatabaseError, max_history_limit, Tick, HistoryStore, returns, is_unavailable_error,
  history, raises, named, unavailable, timed_out, os_error, get_history, get_parsed_history,
}
use realtime_market_data_pla.Parsing.History.{
  parse_history_params, params, HistoryParams, bad_request, parse_history_params-Valid,
}

module _ {ℓ} {A : Type ℓ} where
  failure-returns : (e : DatabaseError) (a : A) → failure e ≡ returns a → ⊥
  unfolding failure
  failure-returns e a h = elim (Bool-cases (is_unavailable_error e)) [
    | inl gone ↦ ground arith
    | inr other ↦ ground arith
  ]

  connect_then-returns :
      (refusal : Option DatabaseError) (next : HistoryStore → Outcome A) (store : HistoryStore)
      (a : A)
      → (connect_then refusal next store).1 ≡ returns a
      → next (record { has_pool = true }) ≡ returns a
  unfolding connect_then
  connect_then-returns none next store a h = ground arith
  connect_then-returns (some e) next store a h = elim (Bool-cases store.has_pool) [
    | inl pool ↦ ground arith
    | inr closed ↦ absurd (failure-returns e a (ground arith))
  ]

  translate-returns : (r : A ⊎ DatabaseError) (a : A) → translate r ≡ returns a → r ≡ inl a
  unfolding translate
  translate-returns (inl b) a h = ground arith
  translate-returns (inr e) a h = absurd (failure-returns e a h)

-- The limit that a query gets is positive, at most 10000, and at most what was asked for.
clamp_limit_bounds :
    (limit : ℤ)
    → (pos 0 <ℤ clamp_limit limit)
      × (clamp_limit limit ≤ℤ max_history_limit)
      × (pos 0 <ℤ limit → clamp_limit limit ≤ℤ limit)
unfolding clamp_limit pos_part neg_part
clamp_limit_bounds limit = ground arith

module _ {F : Type 0} where
  answer_ticks-history :
      (symbol name : String) (from_ts to_ts a b : ℤ) (outcome : Outcome (List (Tick F))) (count : ℕ)
      (ticks : List (Tick F))
      → answer_ticks symbol from_ts to_ts outcome ≡ history name a b count ticks
      → (outcome ≡ returns ticks)
        × (symbol ≡ name)
        × (from_ts ≡ a)
        × (to_ts ≡ b)
        × (count ≡ length ticks)
        × (1 ≤ count)
  unfolding answer_ticks
  answer_ticks-history symbol name from_ts to_ts a b (returns []) count ticks h =
      absurd (ground arith)
  answer_ticks-history symbol name from_ts to_ts a b (returns (t ∷ rest)) count ticks h =
      ground arith
  answer_ticks-history symbol name from_ts to_ts a b unavailable count ticks h =
      absurd (ground arith)
  answer_ticks-history symbol name from_ts to_ts a b (raises timed_out) count ticks h =
      absurd (ground arith)
  answer_ticks-history symbol name from_ts to_ts a b (raises os_error) count ticks h =
      absurd (ground arith)
  answer_ticks-history symbol name from_ts to_ts a b (raises (named x)) count ticks h =
      absurd (ground arith)

module _ {F : Type 0} (is_valid_ms : ℤ → Bool) (query : Query F) where
  fetch_ticks-returns :
      (refusal : Option DatabaseError) (symbol : String) (from_ts to_ts limit : ℤ)
      (store : HistoryStore) (ticks : List (Tick F))
      → (fetch_ticks is_valid_ms query refusal symbol from_ts to_ts limit store).1 ≡ returns ticks
      → query symbol from_ts to_ts (clamp_limit limit) ≡ inl ticks
  unfolding fetch_ticks run_query
  fetch_ticks-returns refusal symbol from_ts to_ts limit store ticks h =
      let ran =
        connect_then-returns refusal
          (λ ready. run_query is_valid_ms query symbol from_ts to_ts limit) store ticks h in
      elim (Bool-cases (is_valid_ms from_ts && is_valid_ms to_ts)) [
        | inl valid ↦
            translate-returns (query symbol from_ts to_ts (clamp_limit limit)) ticks (ground arith)
        | inr bad ↦ absurd (ground arith)
      ]

module _ {F : Type 0} (query : Query F) where
  -- `LIMIT`: no more rows than asked for.
  abbrev pub Limits : Type 0
  Limits =
      (symbol : String) (from_ts to_ts : ℤ) (limit : ℤ) (ticks : List (Tick F))
      → query symbol from_ts to_ts limit ≡ inl ticks
      → pos (length ticks) ≤ℤ limit

module _ {F : Type 0} (upper : String → String) (int_of_text : String → Option ℤ)
    (is_valid_ms : ℤ → Bool) (query : Query F) where
  -- A response with ticks says what was asked and what was found.
  abbrev pub Found :
      String
      → Option String
      → Option String
      → Option String
      → String
      → ℤ
      → ℤ
      → ℕ
      → List (Tick F)
      → Type 0
  Found symbol from_ts to_ts limit name a b count ticks =
      (row_limit : ℤ) × (parse_history_params int_of_text is_valid_ms from_ts to_ts limit
        ≡ params a b row_limit)
      × (name ≡ upper symbol)
      × (query name a b (clamp_limit row_limit) ≡ inl ticks)
      × (count ≡ length ticks)
      × (1 ≤ count)
      × (count ≤ 10000)
      × (pos count ≤ℤ row_limit)

  rows_answer :
      (symbol : String) (from_ts to_ts limit : Option String) (a b row_limit : ℤ) (count : ℕ)
      (ticks : List (Tick F))
      → Limits query
      → parse_history_params int_of_text is_valid_ms from_ts to_ts limit ≡ params a b row_limit
      → query (upper symbol) a b (clamp_limit row_limit) ≡ inl ticks
      → count ≡ length ticks
      → 1 ≤ count
      → Found symbol from_ts to_ts limit (upper symbol) a b count ticks
  unfolding pos_part neg_part
  rows_answer symbol from_ts to_ts limit a b row_limit count ticks limits parsed rows len some_row =
      let (positive, most, least) = clamp_limit_bounds row_limit in
      let few = limits (upper symbol) a b (clamp_limit row_limit) ticks rows in
      let valid =
        parse_history_params-Valid int_of_text is_valid_ms from_ts to_ts limit a b row_limit
          parsed in
      let fits = least valid.3 in
      (row_limit, parsed, refl, rows, len, some_row, ground arith, ground arith)

  -- If the database keeps to the limit of a query: a response with ticks is of the parameters that
  -- were asked for, has all that the query found, at least one of them, and at most as many as the
  -- limit that was asked for and 10000.
  pub get_history-Found :
      (refusal : Option DatabaseError) (symbol : String) (from_ts to_ts limit : Option String)
      (store : HistoryStore) (name : String) (a b : ℤ) (count : ℕ) (ticks : List (Tick F))
      → Limits query
      → (get_history upper int_of_text is_valid_ms query refusal symbol from_ts to_ts limit store).1
        ≡ history name a b count ticks
      → Found symbol from_ts to_ts limit name a b count ticks
  unfolding get_history get_parsed_history
  get_history-Found refusal symbol from_ts to_ts limit store name a b count ticks limits =
      from_parsed (parse_history_params int_of_text is_valid_ms from_ts to_ts limit) refl
    where
      from_parsed :
          (p : HistoryParams)
          → parse_history_params int_of_text is_valid_ms from_ts to_ts limit ≡ p
          → (get_parsed_history upper int_of_text is_valid_ms query refusal
              (upper symbol)
              p
              store).1
            ≡ history name a b count ticks
          → Found symbol from_ts to_ts limit name a b count ticks
      from_parsed (bad_request text) parsed h = absurd (ground arith)
      from_parsed (params c d row_limit) parsed h =
          let (outcome, same, from', to', len, some_row) =
            answer_ticks-history (upper symbol) name c d a b
              (fetch_ticks is_valid_ms query refusal (upper symbol) c d row_limit store).1 count
              ticks h in
          let rows =
            fetch_ticks-returns is_valid_ms query refusal (upper symbol) c d row_limit store ticks
              outcome in
          subst (λ n. Found symbol from_ts to_ts limit n a b count ticks) same
            (rows_answer symbol from_ts to_ts limit a b row_limit count ticks limits
              (parsed ∙ ap₂ (λ x y. params x y row_limit) from' to')
              (ap₂ (λ x y. query (upper symbol) x y (clamp_limit row_limit)) (sym from') (sym to')
                ∙ rows)
              len some_row)
