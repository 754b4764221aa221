-- ===== src/Tests/Requests.antt =====
-- Parsers and snapshots (src/gateway/gateway.py, src/engine/snapshot_store.py): examples.
use realtime_market_data_pla.Common.{
  ℕ, String, ◌≡◌, refl, true, false, none, some, [], ◌∷◌, ltb, ◌==◌, nat_Key, string_Key, pair_Key,
}
use realtime_market_data_pla.Tests.Data.{naturals, quoted, naturals-PrintsBack}
use realtime_market_data_pla.Engine.Snapshots.{
  get as get_snapshot, Redis, update, found, snapshot_key,
}
use realtime_market_data_pla.Models.{get, Json, event_dict, obj, field, from_event, int, end}
use realtime_market_data_pla.Parsing.History.{
  parse_history_params, parse_integers, check_params, parse_limit, int_param,
  parse_history_params-Valid,
}
use realtime_market_data_pla.Parsing.Requests.{
  parse_subscription_filter, parse_bounds, parse_bound, check_bound, combine,
  parse_subscription_filter-IsBound,
}
use realtime_market_data_pla.Parsing.Events.{
  parse_pubsub_event, valid, parse_tick, parse_kafka_event, parse-event_dict,
}
use realtime_market_data_pla.Common.Int.{pos, pos_part, neg_part, ◌≤ℤ◌, ◌<ℤ◌}
use realtime_market_data_pla.Engine.Snapshots.RoundTrip.{get-update}
use realtime_market_data_pla.Tests.Printing.{int_of_text}

abbrev printed : Json ℕ
unfolding event_dict
printed = obj (event_dict (quoted "AAPL" 7 100))

parse-event_dict_example :
    (parse_pubsub_event (λ t. some printed) "{}"
      ≡ valid (record (quoted "AAPL" 7 100) { last_price = 0; last_size = pos 0 }))
    × (parse_tick (λ t. some printed) "{}"
        ≡ valid (record (quoted "AAPL" 7 100) { last_price = 0; last_size = pos 0 }))
    × (parse_kafka_event (λ t. some printed) (pos 5) "{}"
        ≡ valid
            (record (quoted "AAPL" 7 100) { server_ts = pos 5; last_price = 0; last_size = pos 0 }))
unfolding printed event_dict
parse-event_dict_example =
    parse-event_dict (λ t. some printed) (λ v. "{}") (pos 5) (quoted "AAPL" 7 100) refl

abbrev bounds : Json ℕ
bounds = obj (field "max_spread" (int (pos 3)) end)

parse_subscription_filter-IsBound_example : Unit {0} × ((true ≡ true) × (ltb 3 0 ≡ false))
unfolding parse_subscription_filter parse_bounds parse_bound check_bound combine get
parse_subscription_filter-IsBound_example =
    parse_subscription_filter-IsBound bounds (record { min_change_pct = none; max_spread = some 3 })
      refl

-- Numbers are read from texts by their lengths: 2 and 4 characters are 1 and 2.
parse_history_params-Valid_example :
    (pos 1 ≤ℤ pos 2)
    × (true ≡ true)
    × (true ≡ true)
    × (pos 0 <ℤ pos 1000)
    × (int_param int_of_text (λ t. true) (some "aa") ≡ some (pos 1))
    × (int_param int_of_text (λ t. true) (some "aaaa") ≡ some (pos 2))
    × (parse_limit int_of_text (λ t. true) none ≡ some (pos 1000))
unfolding parse_history_params parse_integers check_params parse_limit int_param int_of_text
    pos_part neg_part
parse_history_params-Valid_example =
    parse_history_params-Valid int_of_text (λ t. true) (some "aa") (some "aaaa") none (pos 1)
      (pos 2) (pos 1000) refl

abbrev stored : Redis
stored = ("snapshot:AAPL", ("bid", "x") ∷ []) ∷ []

get-update_example :
    (get_snapshot "" "AAPL" (update "" (quoted "AAPL" 7 100) stored)
      ≡ found (from_event (quoted "AAPL" 7 100)))
    × ((j : String)
        → (snapshot_key "" "AAPL" == snapshot_key "" j) ≡ false
        → get_snapshot {F = ℕ} "" j (update "" (quoted "AAPL" 7 100) stored)
          ≡ get_snapshot {F = ℕ} "" j stored)
get-update_example = get-update naturals-PrintsBack "" (quoted "AAPL" 7 100) stored
