-- ===== src/Tests/Connections.antt =====
-- Connections (src/gateway/gateway.py): examples.
use realtime_market_data_pla.Common.{
  ℕ, String, ◌≡◌, refl, true, false, Option, none, some, List, [], ◌∷◌, ◌++◌, if◌then◌else◌, ◌==◌,
  contains, nat_Key, string_Key, pair_Key,
}
use realtime_market_data_pla.Models.{Json, obj, str, int, null, field, end}
use realtime_market_data_pla.Common.Int.{pos, negsuc, pos_part, neg_part, add_one}
use realtime_market_data_pla.Tests.Data.{naturals, quoted, connected}
use realtime_market_data_pla.Gateway.Stream.{
  Round, receives, meanwhile, Setting, serve, websocket_stream,
}
use realtime_market_data_pla.Gateway.Dispatch.{
  fetched, failed, arrives, Turn, dispatch_loop, dispatch, act, deliver,
}
use realtime_market_data_pla.Gateway.Lifecycle.{
  connects, disconnects, operates, operate, opens, tries, cleans, Operation, fresh_gateway,
}
use realtime_market_data_pla.Session.{
  ClientSession, SlowConsumerPolicy, classify_sequence, should_deliver, enqueue, mark_delivered,
}
use realtime_market_data_pla.Common.Dict.{lookup, insert}
use realtime_market_data_pla.Common.Queue.{put_nowait}
use realtime_market_data_pla.Aggregator.{is_raw}
use realtime_market_data_pla.Gateway.Stream.Leaked.{websocket_stream_leaks}
use realtime_market_data_pla.Gateway.Registry.Cleanup.{is_subscriber}
use realtime_market_data_pla.Gateway.Lifecycle.Left.{IsGone}
use realtime_market_data_pla.Gateway.Stream.Closed.{websocket_stream-IsGone}

-- A message is its own symbol, but for one that is a number. Subscribing to BIG has a filter with a
-- number that no `float` of the examples holds.
abbrev requests : String → Option (Json ℕ)
requests raw = some (
    if raw == "12"
    then field_symbol (int (pos 12)) null
    else if raw == "BIG"
    then field_symbol (str raw) (obj (field "max_spread" (int (negsuc 0)) end))
    else field_symbol (str raw) null)
  where
    field_symbol : Json ℕ → Json ℕ → Json ℕ
    field_symbol v filter =
        obj (field "action" (str "subscribe") (field "symbol" v (field "filter" filter end)))

abbrev setting : Setting ℕ
setting = record {
  prefix = "md:";
  loads = requests;
  upper = λ t. t;
  text_of = λ v. "?";
  filter_error = λ v. "bad filter";
}

abbrev visitor : ClientSession ℕ
visitor = connected SlowConsumerPolicy.drop_oldest

-- The first attempt at the channel fails, the second succeeds, and the connection to Redis changes
-- while the store answers; then the client sends a number for a symbol.
abbrev conversation : List (Round ℕ)
conversation =
    meanwhile (connects true)
    ∷ receives "AAPL" (record {
      attempts = (false, []) ∷ (true, []) ∷ [];
      waiting = disconnects ∷ connects true ∷ [];
      fetch = fetched none;
      given_up = true;
    })
    ∷ receives "12" (record { attempts = []; waiting = []; fetch = fetched none; given_up = true })
    ∷ []

-- An event that the dispatch loop delivers, and then a gap.
abbrev first_turn : List (Turn ℕ)
first_turn = arrives failed (λ s. s) (quoted "AAPL" 1 100) ∷ []

websocket_stream-IsGone_example :
    (s : ClientSession ℕ) × (lookup 1
        (serve setting conversation 1
          (operate "md:" (opens 1 visitor) (operates "md:" [] fresh_gateway))).registry.sessions
      ≡ some s)
    × IsGone 1 s
        (serve setting conversation 1
          (operate "md:" (opens 1 visitor) (operates "md:" [] fresh_gateway)))
        (websocket_stream setting conversation first_turn
          (λ j. true)
          1
          visitor
          (operates "md:" [] fresh_gateway))
unfolding fresh_gateway operates lookup dispatch_loop connected dispatch act classify_sequence
    deliver should_deliver put_nowait
websocket_stream-IsGone_example =
    websocket_stream-IsGone setting [] conversation first_turn (λ j. true) 1 visitor refl refl

-- Number 3 is a gap, and the store raises; the client is a subscriber then. Later another one
-- subscribes and leaves.
abbrev later_on : List (Operation ℕ)
later_on = opens 2 visitor ∷ tries true 2 "AAPL" ∷ cleans (λ j. true) 2 ∷ []

websocket_stream_leaks_example :
    let turns = first_turn ++ arrives failed (λ s. s) (quoted "AAPL" 3 102) ∷ first_turn in
    let closed = websocket_stream setting conversation turns (λ j. true) 1 visitor fresh_gateway in
    ((dispatch_loop turns visitor).delivered ≡ (dispatch_loop first_turn visitor).delivered)
    × (lookup "c-1" closed.all_sessions
        ≡ lookup "c-1"
            (serve setting conversation 1
              (operate "md:" (opens 1 visitor) fresh_gateway)).all_sessions)
    × (is_subscriber 1 "AAPL" (operates "md:" later_on closed).registry.subscriptions ≡ true)
unfolding dispatch_loop connected dispatch act classify_sequence lookup deliver should_deliver
    enqueue put_nowait mark_delivered insert pos_part neg_part is_raw add_one contains serve
    fresh_gateway
websocket_stream_leaks_example =
    websocket_stream_leaks setting conversation first_turn first_turn (λ s. s) (quoted "AAPL" 3 102)
      (λ j. true) 1 visitor fresh_gateway "AAPL" later_on refl refl refl (tt, (tt, (refl, tt)))
