-- ===== src/Storage/History.antt =====
-- `HistoryStore` of src/storage/history_store.py, and `get_history` of src/gateway/gateway.py, which
-- answers from it. The database is a parameter.
pub mod Answers
pub mod Answered
pub mod Affected
use realtime_market_data_pla.Common.{
  ℕ, zero, suc, ◌+◌, ◌-◌, ◌*◌, ◌/◌, ◌%◌, ◌≤◌, ◌<◌, min, max, String, ◌≡◌, refl, sym, ap, ap₂, subst,
  ◌∙◌, ◌≢◌, ◌↔◌, ◌⊎◌, inl, inr, Bool, true, false, not, ◌&&◌, ◌||◌, Option, none, some, List, [],
  ◌∷◌, ◌++◌, map, append-nil, append_assoc, arith, dec_lt, length, drop, take, last_n,
  length-append, All, All-append, All-map, contains, discard, contains-append_one, ltb, leb,
  if◌then◌else◌, Key, ◌==◌, nat_Key, string_Key, pair_Key, beq_refl, Bool-cases, Option-cases,
}
use Prim.Native.String.{◌++◌ as concat}
use realtime_market_data_pla.Common.Int.{ℤ, pos, ltb_ℤ}
use realtime_market_data_pla.Parsing.History.{
  HistoryParams, parse_history_params, bad_request, params,
}

-- An exception of the database's client: a timeout, a `ConnectionError` or other `OSError`, or
-- another one, by the name of its type.
pub data DatabaseError : Type 0 where
  timed_out : DatabaseError
  os_error : DatabaseError
  named : String → DatabaseError

-- How a call of the store ends.
pub data Outcome {ℓ} (A : Type ℓ) : Type ℓ where
  returns : A → Outcome A
  unavailable : Outcome A
  raises : DatabaseError → Outcome A

-- `_is_unavailable_error`
unfoldable pub is_unavailable_error : DatabaseError → Bool
unfolding contains
is_unavailable_error timed_out = false
is_unavailable_error os_error = true
is_unavailable_error (named name) = contains name (
    "CannotConnectNowError" ∷ "ConnectionDoesNotExistError" ∷ "ConnectionFailureError"
    ∷ "ConnectionRejectionError" ∷ "TooManyConnectionsError" ∷ [])

abbrev pub max_history_limit : ℤ
max_history_limit = pos 10000

-- A row of `market_ticks` as a query gives it.
pub record Tick (F : Type 0) : Type 0 where
  pub seq : ℤ
  pub event_ts : ℤ
  pub bid : F
  pub ask : F
  pub bid_size : ℤ
  pub ask_size : ℤ

-- `self._pool is not None`
pub record HistoryStore : Type 0 where
  pub has_pool : Bool

module _ {ℓ} {A : Type ℓ} where
  -- the `except` clauses of the store
  unfoldable pub failure : DatabaseError → Outcome A
  unfolding is_unavailable_error
  failure e = if is_unavailable_error e then unavailable else raises e

  -- a call of the database, with its exceptions translated
  unfoldable pub translate : A ⊎ DatabaseError → Outcome A
  unfolding failure
  translate (inl a) = returns a
  translate (inr e) = failure e

  -- `connect`, with what `create_pool` raises if it is called, and what the caller does next
  unfoldable pub connect_then :
      Option DatabaseError → (HistoryStore → Outcome A) → HistoryStore → HistoryStore × Outcome A
  unfolding failure
  connect_then refusal next store =
      let ready : HistoryStore = record { has_pool = true } in
      let done : HistoryStore × Outcome A = (ready, next ready) in
      if store.has_pool then done else elim refusal [ none ↦ done | some e ↦ (store, failure e) ]

-- `close`
unfoldable pub close : HistoryStore → HistoryStore
close store = record { has_pool = false }

-- `max(1, min(limit, MAX_HISTORY_LIMIT))`
unfoldable pub clamp_limit : ℤ → ℤ
clamp_limit limit =
    let least = if ltb_ℤ max_history_limit limit then max_history_limit else limit in
    if ltb_ℤ (pos 1) least then least else pos 1

-- The rows of a symbol between two times, at most as many as the limit says, or an exception.
abbrev pub Query : Type 0 → Type 0
Query F = String → ℤ → ℤ → ℤ → List (Tick F) ⊎ DatabaseError

module _ {F : Type 0} (is_valid_ms : ℤ → Bool) (query : Query F) where
  -- `fetch_ticks` on a store with a pool; a time out of the range of `datetime` raises.
  unfoldable pub run_query : String → ℤ → ℤ → ℤ → Outcome (List (Tick F))
  unfolding translate clamp_limit
  run_query symbol from_ts to_ts limit =
      if is_valid_ms from_ts && is_valid_ms to_ts
      then translate (query symbol from_ts to_ts (clamp_limit limit))
      else raises (named "ValueError")

  unfoldable pub fetch_ticks :
      Option DatabaseError
      → String
      → ℤ
      → ℤ
      → ℤ
      → HistoryStore
      → HistoryStore × Outcome (List (Tick F))
  unfolding connect_then run_query
  fetch_ticks refusal symbol from_ts to_ts limit store =
      connect_then refusal (λ ready. run_query symbol from_ts to_ts limit) store

-- A response of the gateway: an error with its status and text, the ticks, or an exception that the
-- framework answers.
pub data Response (F : Type 0) : Type 0 where
  error_response : ℕ → String → Response F
  history : String → ℤ → ℤ → ℕ → List (Tick F) → Response F
  server_error : Response F

-- `response.status_code`
unfoldable pub status_code : {F : Type 0} → Response F → ℕ
status_code (error_response code text) = code
status_code (history symbol from_ts to_ts count ticks) = 200
status_code server_error = 500

module _ {F : Type 0} where
  -- `get_history` from the answer of the store on
  unfoldable pub answer_ticks : String → ℤ → ℤ → Outcome (List (Tick F)) → Response F
  answer_ticks symbol from_ts to_ts (returns []) =
      error_response 404 (concat "No history for " symbol)
  answer_ticks symbol from_ts to_ts (returns (t ∷ ticks)) =
      history symbol from_ts to_ts (length (t ∷ ticks)) (t ∷ ticks)
  answer_ticks symbol from_ts to_ts unavailable = error_response 503 "history database unavailable"
  answer_ticks symbol from_ts to_ts (raises timed_out) =
      error_response 504 "history query timed out"
  answer_ticks symbol from_ts to_ts (raises os_error) = server_error
  answer_ticks symbol from_ts to_ts (raises (named name)) = server_error

module _ {F : Type 0} (upper : String → String) (int_of_text : String → Option ℤ)
    (is_valid_ms : ℤ → Bool) (query : Query F) where
  unfoldable pub get_parsed_history :
      Option DatabaseError → String → HistoryParams → HistoryStore → HistoryStore × Response F
  unfolding fetch_ticks answer_ticks
  get_parsed_history refusal symbol (bad_request text) store = (store, error_response 400 text)
  get_parsed_history refusal symbol (params from_ts to_ts limit) store =
      let (store', outcome) =
        fetch_ticks is_valid_ms query refusal symbol from_ts to_ts limit store in
      (store', answer_ticks symbol from_ts to_ts outcome)

  -- `get_history`, with what `create_pool` raises if the store has no pool yet
  unfoldable pub get_history :
      Option DatabaseError
      → String
      → Option String
      → Option String
      → Option String
      → HistoryStore
      → HistoryStore × Response F
  unfolding get_parsed_history parse_history_params
  get_history refusal symbol from_ts to_ts limit store =
      get_parsed_history refusal (upper symbol)
        (parse_history_params int_of_text is_valid_ms from_ts to_ts limit) store
