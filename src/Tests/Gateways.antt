-- ===== src/Tests/Gateways.antt =====
-- Subscriptions (src/gateway/gateway.py): examples.
use realtime_market_data_pla.Common.{
  ℕ, ◌≡◌, refl, true, false, none, some, List, [], ◌∷◌, arith, contains, nat_Key, string_Key,
  pair_Key,
}
use realtime_market_data_pla.Tests.Data.{naturals, connected, quoted, snapshot_at}
use realtime_market_data_pla.Gateway.PubSub.{
  init as no_channels, is_filled, ensure_pubsub_subscription, ensure_attempts,
  subscribe_pubsub_symbol, connect, subscribe_desired_channels, add,
}
use realtime_market_data_pla.Gateway.PubSub.Channels.{
  IsConsistent, Block, subscribes, blocks, connects, blocks-IsConsistent, unsubscribes, disconnects,
  ensure_pubsub_subscription-Confirmed,
}
use realtime_market_data_pla.Session.{ClientSession, SlowConsumerPolicy}
use realtime_market_data_pla.Models.{MarketEvent}
use realtime_market_data_pla.Gateway.Subscribing.Replay.{Replayed, finish_subscribe-Replayed}
use realtime_market_data_pla.Gateway.Subscribing.{finish_subscribe, buffer_all, new_initialization}
use realtime_market_data_pla.Gateway.Dispatch.{fetched}

no_channels-IsConsistent : IsConsistent no_channels
unfolding no_channels is_filled contains
no_channels-IsConsistent = record {
  demanded = refl;
  wanted = λ c h. h;
  sent = λ c h. h;
  offline = λ off. refl;
}

abbrev changes : List Block
changes =
    subscribes true "events:AAPL"
    ∷ connects true
    ∷ subscribes true "events:MSFT"
    ∷ unsubscribes false "events:AAPL"
    ∷ disconnects
    ∷ connects false
    ∷ []

blocks-IsConsistent_example : IsConsistent (blocks changes no_channels)
blocks-IsConsistent_example = blocks-IsConsistent changes no_channels no_channels-IsConsistent

-- The first attempt finds no connection; it comes up in the pause.
ensure_pubsub_subscription-Confirmed_example :
    contains "events:AAPL"
      (ensure_pubsub_subscription
        (λ k. true)
        (λ k p. connect true p)
        "events:AAPL"
        no_channels).0.confirmed
    ≡ true
unfolding ensure_pubsub_subscription ensure_attempts subscribe_pubsub_symbol connect
    subscribe_desired_channels no_channels add contains
ensure_pubsub_subscription-Confirmed_example =
    ensure_pubsub_subscription-Confirmed (λ k. true) (λ k p. connect true p) "events:AAPL"
      no_channels refl

abbrev arrived : List (MarketEvent ℕ)
arrived = quoted "AAPL" 6 101 ∷ quoted "AAPL" 5 100 ∷ quoted "AAPL" 4 99 ∷ []

abbrev waiting_client : ClientSession ℕ
waiting_client = connected SlowConsumerPolicy.drop_oldest

finish_subscribe-Replayed_example :
    Replayed "AAPL" (some (snapshot_at 4 99)) arrived waiting_client (
      finish_subscribe "AAPL" none
        (fetched (some (snapshot_at 4 99)))
        (some (buffer_all arrived new_initialization))
        waiting_client)
unfolding connected
finish_subscribe-Replayed_example =
    finish_subscribe-Replayed "AAPL" none (some (snapshot_at 4 99)) arrived waiting_client
      (omega arith) (omega arith)
