-- ===== src/Parsing/History.antt =====
-- The parameters of a history request: `_parse_history_params` of src/gateway/gateway.py. `int` of a
-- text, and whether `datetime.fromtimestamp` takes a time in milliseconds, are parameters.
use realtime_market_data_pla.Common.{
  String, ◌≡◌, Bool, true, not, ◌&&◌, Option, none, some, arith, if◌then◌else◌, nat_Key, string_Key,
  pair_Key,
}
use realtime_market_data_pla.Common.Int.{ℤ, ◌≤ℤ◌, ltb_ℤ, pos, ◌<ℤ◌, leb_ℤ}

abbrev pub default_history_limit : ℤ
default_history_limit = pos 1000

-- What `_parse_history_params` answers: the parameters, or a response 400 with its text.
pub data HistoryParams : Type 0 where
  params : ℤ → ℤ → ℤ → HistoryParams
  bad_request : String → HistoryParams

module _ (int_of_text : String → Option ℤ) (is_valid_ms : ℤ → Bool) where
  -- The parameters once they are integers. `is_valid_ms` tells whether `datetime.fromtimestamp`
  -- takes a time in milliseconds.
  unfoldable pub check_params : ℤ → ℤ → ℤ → HistoryParams
  check_params start_ts end_ts row_limit =
      if ltb_ℤ end_ts start_ts
      then bad_request "from_ts must be <= to_ts"
      else if not (is_valid_ms start_ts && is_valid_ms end_ts)
      then bad_request "from_ts and to_ts must be valid Unix milliseconds"
      else if leb_ℤ row_limit (pos 0)
      then bad_request "limit must be positive"
      else params start_ts end_ts row_limit

  -- `int(limit) if limit is not None else DEFAULT_HISTORY_LIMIT`
  unfoldable pub parse_limit : Option String → Option ℤ
  parse_limit none = some default_history_limit
  parse_limit (some t) = int_of_text t

  -- `int(text)`, of a parameter that is there
  unfoldable pub int_param : Option String → Option ℤ
  int_param none = none
  int_param (some t) = int_of_text t

  abbrev not_integers : HistoryParams
  not_integers = bad_request "from_ts, to_ts, and limit must be integers"

  unfoldable pub parse_integers : Option ℤ → Option ℤ → Option ℤ → HistoryParams
  unfolding check_params
  parse_integers (some start_ts) (some end_ts) (some row_limit) =
      check_params start_ts end_ts row_limit
  parse_integers none end_ts row_limit = not_integers
  parse_integers (some start_ts) none row_limit = not_integers
  parse_integers (some start_ts) (some end_ts) none = not_integers

  unfoldable pub parse_history_params :
      Option String → Option String → Option String → HistoryParams
  unfolding parse_integers parse_limit
  parse_history_params (some from_ts) (some to_ts) limit =
      parse_integers (int_of_text from_ts) (int_of_text to_ts) (parse_limit limit)
  parse_history_params none to_ts limit = bad_request "from_ts and to_ts required"
  parse_history_params (some from_ts) none limit = bad_request "from_ts and to_ts required"

  -- Parameters that are let through are those of the texts, the limit 1000 where there is none, in
  -- order and in the range of times, with a positive limit.
  pub parse_history_params-Valid :
      (from_ts to_ts limit : Option String) (start_ts end_ts row_limit : ℤ)
      → parse_history_params from_ts to_ts limit ≡ params start_ts end_ts row_limit
      → (start_ts ≤ℤ end_ts)
        × (is_valid_ms start_ts ≡ true)
        × (is_valid_ms end_ts ≡ true)
        × (pos 0 <ℤ row_limit)
        × (int_param from_ts ≡ some start_ts)
        × (int_param to_ts ≡ some end_ts)
        × (parse_limit limit ≡ some row_limit)
  unfolding parse_history_params parse_integers check_params parse_limit int_param
  parse_history_params-Valid none to_ts limit start_ts end_ts row_limit h = absurd (ground arith)
  parse_history_params-Valid (some a) none limit start_ts end_ts row_limit h = absurd (ground arith)
  parse_history_params-Valid (some a) (some b) limit start_ts end_ts row_limit h = ground arith
