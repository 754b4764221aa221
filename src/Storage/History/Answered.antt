-- ===== src/Storage/History/Answered.antt =====
-- When `get_history` (src/gateway/gateway.py) answers, and does not raise.
use realtime_market_data_pla.Common.{
  String, ◌≡◌, refl, ◌≢◌, ◌⊎◌, inl, inr, Bool, true, Option, none, some, List, [], ◌∷◌, arith,
  nat_Key, string_Key, pair_Key, Bool-cases,
}
use realtime_market_data_pla.Common.Int.{ℤ}
use realtime_market_data_pla.Storage.History.{
  connect_then, run_query, translate, failure, clamp_limit, fetch_ticks, answer_ticks, get_history,
  get_parsed_history, Outcome, is_unavailable_error, DatabaseError, Query, named, raises, Tick,
  HistoryStore, timed_out, server_error, returns, os_error, unavailable,
}
use realtime_market_data_pla.Parsing.History.{
  HistoryParams, parse_history_params, bad_request, params, parse_history_params-Valid,
}

-- The exception is a timeout, or one that the store knows for an unavailable database.
abbrev pub IsKnown : DatabaseError → Type 0
IsKnown timed_out = Unit
IsKnown os_error = Unit
IsKnown (named name) = is_unavailable_error (named name) ≡ true

abbrev pub IsKnownRefusal : Option DatabaseError → Type 0
IsKnownRefusal none = Unit
IsKnownRefusal (some e) = IsKnown e

module _ {ℓ} {A : Type ℓ} where
  -- A call returns, times out, or finds the database unavailable.
  abbrev Expected : Outcome A → Type 0
  Expected (raises timed_out) = Unit
  Expected (raises os_error) = ⊥
  Expected (raises (named name)) = ⊥
  Expected o = Unit

failure-Expected {ℓ} : (B : Type ℓ) (e : DatabaseError) → IsKnown e → Expected (failure {A = B} e)
unfolding failure is_unavailable_error
failure-Expected B timed_out known = tt
failure-Expected B os_error known = tt
failure-Expected B (named name) known = rw known tt

module _ {ℓ} {A : Type ℓ} where
  connect_then-Expected :
      (refusal : Option DatabaseError) (next : HistoryStore → Outcome A) (store : HistoryStore)
      → IsKnownRefusal refusal
      → Expected (next (record { has_pool = true }))
      → Expected (connect_then refusal next store).1
  unfolding connect_then
  connect_then-Expected none next store known ok = elim (Bool-cases store.has_pool) [
    | inl pool ↦ rw pool ok
    | inr closed ↦ rw closed ok
  ]
  connect_then-Expected (some e) next store known ok = elim (Bool-cases store.has_pool) [
    | inl pool ↦ rw pool ok
    | inr closed ↦ rw closed (failure-Expected A e known)
  ]

module _ {F : Type 0} (upper : String → String) (int_of_text : String → Option ℤ)
    (is_valid_ms : ℤ → Bool) (query : Query F) where
  -- Every exception of a query is known.
  abbrev pub QueriesKnown : Type 0
  QueriesKnown =
      (symbol : String) (from_ts to_ts limit : ℤ) (e : DatabaseError)
      → query symbol from_ts to_ts limit ≡ inr e
      → IsKnown e

  run_query-Expected :
      (symbol : String) (from_ts to_ts limit : ℤ)
      → QueriesKnown
      → is_valid_ms from_ts ≡ true
      → is_valid_ms to_ts ≡ true
      → Expected (run_query is_valid_ms query symbol from_ts to_ts limit)
  unfolding run_query translate
  run_query-Expected symbol from_ts to_ts limit known valid_from valid_to =
      rw (valid_from, valid_to) (from_rows (query symbol from_ts to_ts (clamp_limit limit)) refl)
    where
      from_rows :
          (rows : List (Tick F) ⊎ DatabaseError)
          → query symbol from_ts to_ts (clamp_limit limit) ≡ rows
          → Expected (translate rows)
      from_rows (inl ticks) e = tt
      from_rows (inr error) e =
          failure-Expected (List (Tick F)) error
            (known symbol from_ts to_ts (clamp_limit limit) error e)

  answer_ticks-answers :
      (symbol : String) (from_ts to_ts : ℤ) (outcome : Outcome (List (Tick F)))
      → Expected outcome
      → answer_ticks symbol from_ts to_ts outcome ≢ server_error
  unfolding answer_ticks
  answer_ticks-answers symbol from_ts to_ts (returns []) ok h = absurd (ground arith)
  answer_ticks-answers symbol from_ts to_ts (returns (t ∷ rest)) ok h = absurd (ground arith)
  answer_ticks-answers symbol from_ts to_ts unavailable ok h = absurd (ground arith)
  answer_ticks-answers symbol from_ts to_ts (raises timed_out) ok h = absurd (ground arith)
  answer_ticks-answers symbol from_ts to_ts (raises os_error) ok h = ok
  answer_ticks-answers symbol from_ts to_ts (raises (named name)) ok h = ok

  -- If the exceptions of the database, on a connection and on a query, are timeouts or ones that the
  -- store knows for an unavailable database, then a history request is answered, whatever its
  -- parameters: no exception reaches the framework.
  pub get_history_answered :
      (refusal : Option DatabaseError) (symbol : String) (from_ts to_ts limit : Option String)
      (store : HistoryStore)
      → IsKnownRefusal refusal
      → QueriesKnown
      → (get_history upper int_of_text is_valid_ms query refusal symbol from_ts to_ts limit store).1
        ≢ server_error
  unfolding get_history get_parsed_history fetch_ticks
  get_history_answered refusal symbol from_ts to_ts limit store known queries =
      from_parsed (parse_history_params int_of_text is_valid_ms from_ts to_ts limit) refl
    where
      from_parsed :
          (p : HistoryParams)
          → parse_history_params int_of_text is_valid_ms from_ts to_ts limit ≡ p
          → (get_parsed_history upper int_of_text is_valid_ms query refusal
              (upper symbol)
              p
              store).1
            ≢ server_error
      from_parsed (bad_request text) parsed h = absurd (ground arith)
      from_parsed (params a b row_limit) parsed h =
          let valid =
            parse_history_params-Valid int_of_text is_valid_ms from_ts to_ts limit a b row_limit
              parsed in
          answer_ticks-answers (upper symbol) a b
            (fetch_ticks is_valid_ms query refusal (upper symbol) a b row_limit store).1
            (connect_then-Expected refusal
              (λ ready. run_query is_valid_ms query (upper symbol) a b row_limit) store known
              (run_query-Expected (upper symbol) a b row_limit queries valid.1 valid.2))
            h
