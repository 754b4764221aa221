-- ===== src/Tests/Lifecycles.antt =====
-- Clients that come and go (src/gateway/gateway.py): examples.
use realtime_market_data_pla.Common.{
  ℕ, ◌≡◌, refl, true, false, none, List, [], ◌∷◌, contains, discard, nat_Key, string_Key, pair_Key,
}
use realtime_market_data_pla.Gateway.PubSub.{
  init as no_channels, connect, subscribe_desired_channels, subscribe_pubsub_symbol,
  unsubscribe_pubsub_symbol, add, event_channel,
}
use realtime_market_data_pla.Gateway.Registry.{
  unsubscribe, cleanup, leave, forget, update_session, leave_all, stop_initializing, fanout_event,
  is_unused, push_each, buffer_symbol, buffer_each,
}
use realtime_market_data_pla.Gateway.Dispatch.{fetched}
use realtime_market_data_pla.Session.{ClientSession, SlowConsumerPolicy, init as new_session}
use realtime_market_data_pla.Aggregator.{init as new_buffer}
use realtime_market_data_pla.Gateway.Lifecycle.Served.{Serves, operates-Serves}
use realtime_market_data_pla.Gateway.Lifecycle.{
  Gateway, Operation, connects, operates, unsubscribes, opens, tries, completes, fans_out, cleans,
  operate, try_subscribe, remove_desired_channel_if_unused, answer_subscribe, unsubscribe_symbol,
  dropped, unsubscribe_all, dropped_waiting, dropped_leaving, in_use, is_awaited, wait, end_waiting,
  join, fresh_gateway,
}
use realtime_market_data_pla.Tests.Data.{connected, quoted}
use realtime_market_data_pla.Common.Dict.{lookup, insert, delete}
use realtime_market_data_pla.Gateway.Lifecycle.Covered.{AllGiveUpAlone}
use realtime_market_data_pla.Gateway.Registry.Cleanup.{is_subscriber}
use realtime_market_data_pla.Gateway.Lifecycle.Covered.Channel.{is_wanted}
use realtime_market_data_pla.Gateway.Lifecycle.Stranded.{unsubscribe_strands}
use realtime_market_data_pla.Gateway.Subscribing.{
  finish_subscribe, send_snapshot, register, new_initialization, buffer_event, add_symbol,
}
use realtime_market_data_pla.Gateway.Lifecycle.Left.{IsGone, operates_clean-IsGone}

program : Unit {0}
unfolding fresh_gateway operates operate try_subscribe remove_desired_channel_if_unused
    answer_subscribe unsubscribe_symbol cleanup dropped unsubscribe_all fanout_event connect
    no_channels subscribe_desired_channels subscribe_pubsub_symbol unsubscribe_pubsub_symbol add
    event_channel unsubscribe leave forget update_session leave_all stop_initializing
    dropped_waiting dropped_leaving in_use is_awaited is_unused wait end_waiting join
    finish_subscribe send_snapshot register new_initialization lookup insert delete contains discard
    push_each buffer_symbol buffer_each buffer_event connected new_session new_buffer add_symbol
program = tt

abbrev client : ClientSession ℕ
client = connected SlowConsumerPolicy.drop_oldest

-- Two clients subscribe to the same symbol, the second while the first is served; the first
-- unsubscribes, and the second leaves.
abbrev visits : List (Operation ℕ)
visits =
    connects true
    ∷ opens 1 client
    ∷ opens 2 client
    ∷ tries true 1 "AAPL"
    ∷ completes true 1 "AAPL" none (fetched none)
    ∷ tries true 2 "AAPL"
    ∷ fans_out (quoted "AAPL" 5 100)
    ∷ completes true 2 "AAPL" none (fetched none)
    ∷ unsubscribes true 1 "AAPL"
    ∷ cleans (λ j. true) 2
    ∷ []

visits-Alone : AllGiveUpAlone "md:" visits fresh_gateway
unfolding program
visits-Alone = (tt, (tt, (tt, (tt, (tt, (tt, (tt, (tt, (λ e. refl, ((refl, tt), tt))))))))))

operates-Serves_example : Serves "md:" (operates "md:" visits fresh_gateway)
unfolding program
operates-Serves_example =
    operates-Serves "md:" visits fresh_gateway visits-Alone
      (record { subscribed = tt; awaited = tt })

-- Client 1 subscribes; client 2 waits for its snapshot.
abbrev crossing : Gateway ℕ
crossing = record {
  registry = record {
    sessions = (1, client) ∷ (2, client) ∷ [];
    subscriptions = ("AAPL", 1 ∷ []) ∷ [];
    initializing = ("AAPL", (2, record { events = []; overflowed = false }) ∷ []) ∷ [];
    dispatched = 0;
  };
  channels = record {
    active = "md:events:AAPL" ∷ [];
    confirmed = "md:events:AAPL" ∷ [];
    demand = true;
    connected = true;
    subscribed = "md:events:AAPL" ∷ [];
  };
  all_sessions = [];
}

unsubscribe_strands_example :
    (is_subscriber 2 "AAPL"
        (operates "md:"
          (unsubscribes true 1 "AAPL" ∷ completes true 2 "AAPL" none (fetched none) ∷ [])
          crossing).registry.subscriptions
      ≡ true)
    × (is_wanted "md:" "AAPL"
          (operates "md:"
            (unsubscribes true 1 "AAPL" ∷ completes true 2 "AAPL" none (fetched none) ∷ [])
            crossing).channels
        ≡ false)
unfolding lookup
unsubscribe_strands_example =
    unsubscribe_strands "md:" true true 1 2 "AAPL" none (record { events = []; overflowed = false })
      client crossing refl refl refl refl refl

-- Everything but the last step of the visits.
abbrev before_leaving : List (Operation ℕ)
before_leaving =
    connects true
    ∷ opens 1 client
    ∷ opens 2 client
    ∷ tries true 1 "AAPL"
    ∷ completes true 1 "AAPL" none (fetched none)
    ∷ tries true 2 "AAPL"
    ∷ []

operates_clean-IsGone_example :
    IsGone 1
      (record client { subscriptions = "AAPL" ∷ [] })
      (operates "md:" before_leaving fresh_gateway)
      (operate "md:" (cleans (λ j. true) 1) (operates "md:" before_leaving fresh_gateway))
unfolding program
operates_clean-IsGone_example =
    operates_clean-IsGone "md:" before_leaving (λ j. true) 1
      (record client { subscriptions = "AAPL" ∷ [] }) refl
