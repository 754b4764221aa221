-- ===== src/Tests/Histories.antt =====
-- History requests and inserts (src/storage/history_store.py, src/gateway/gateway.py): examples.
use realtime_market_data_pla.Common.{
  ℕ, ◌≡◌, refl, subst, ◌≢◌, inl, inr, true, false, none, some, [], ◌∷◌, arith, if◌then◌else◌,
  nat_Key, string_Key, pair_Key, Bool-cases,
}
use realtime_market_data_pla.Common.Int.{pos, pos_part, neg_part, ltb_ℤ}
use realtime_market_data_pla.Storage.History.{
  get_history, get_parsed_history, fetch_ticks, connect_then, run_query, translate, answer_ticks,
  clamp_limit, Query, Tick, HistoryStore, server_error, timed_out, returns, os_error,
}
use realtime_market_data_pla.Storage.History.Answers.{get_history-Found, Limits, Found}
use realtime_market_data_pla.Tests.Printing.{int_of_text}
use Prim.Native.String.{◌++◌ as concat}
use realtime_market_data_pla.Storage.History.Affected.{
  after_last_space, insert_ticks, insert_ticks-rows_affected,
}
use realtime_market_data_pla.Parsing.History.{
  parse_history_params, parse_integers, check_params, parse_limit,
}
use realtime_market_data_pla.Storage.History.Answered.{QueriesKnown, get_history_answered, IsKnown}
use realtime_market_data_pla.Tests.Data.{quoted}

abbrev stored_tick : Tick ℕ
stored_tick = record {
  seq = pos 1;
  event_ts = pos 1;
  bid = 100;
  ask = 102;
  bid_size = pos 5;
  ask_size = pos 6;
}

-- A database with one row, which refuses a limit that is not positive.
abbrev one_row : Query ℕ
one_row symbol from_ts to_ts limit =
    if ltb_ℤ (pos 0) limit then inl (stored_tick ∷ []) else inr os_error

one_row-Limits : Limits one_row
unfolding pos_part neg_part
one_row-Limits symbol from_ts to_ts limit ticks h = elim (Bool-cases (ltb_ℤ (pos 0) limit)) [
  | inl some_row ↦ let same : ticks ≡ stored_tick ∷ [] = ground arith in rw same (ground arith)
  | inr no_row ↦ absurd (ground arith)
]

abbrev closed : HistoryStore
closed = record { has_pool = false }

get_history-Found_example :
    Found
      (λ t. t)
      int_of_text
      (λ t. true)
      one_row
      "AAPL"
      (some "aa")
      (some "aaaa")
      none
      "AAPL"
      (pos 1)
      (pos 2)
      1
      (stored_tick ∷ [])
unfolding get_history get_parsed_history parse_history_params parse_integers check_params
    parse_limit fetch_ticks connect_then run_query translate clamp_limit answer_ticks int_of_text
    pos_part neg_part
get_history-Found_example =
    get_history-Found (λ t. t) int_of_text (λ t. true) one_row none "AAPL" (some "aa") (some "aaaa")
      none closed "AAPL" (pos 1) (pos 2) 1 (stored_tick ∷ []) one_row-Limits refl

-- A database that never answers in time.
abbrev too_slow : Query ℕ
too_slow symbol from_ts to_ts limit = inr timed_out

too_slow-Known : QueriesKnown (λ t. t) int_of_text (λ t. true) too_slow
too_slow-Known symbol from_ts to_ts limit e h =
    let same : timed_out ≡ e = ground arith in subst IsKnown same tt

get_history_answered_example :
    (get_history
      (λ t. t)
      int_of_text
      (λ t. true)
      too_slow
      none
      "AAPL"
      (some "aa")
      (some "aaaa")
      none
      closed).1
    ≢ server_error
get_history_answered_example =
    get_history_answered (λ t. t) int_of_text (λ t. true) too_slow none "AAPL" (some "aa")
      (some "aaaa") none closed tt too_slow-Known

insert_ticks-rows_affected_example :
    (insert_ticks int_of_text
      (λ t. true)
      (λ rows. inl (concat "INSERT 0" (concat " " "aaaa")))
      none
      (quoted "AAPL" 1 100 ∷ quoted "AAPL" 2 101 ∷ [])
      closed).1
    ≡ returns (pos 2)
unfolding after_last_space int_of_text
insert_ticks-rows_affected_example =
    insert_ticks-rows_affected int_of_text (λ t. true)
      (λ rows. inl (concat "INSERT 0" (concat " " "aaaa"))) (quoted "AAPL" 1 100)
      (quoted "AAPL" 2 101 ∷ []) closed "INSERT 0" "aaaa" (pos 2) (refl, (refl, tt))
      (λ rows len. refl) refl refl
