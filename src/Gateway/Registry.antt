-- ===== src/Gateway/Registry.antt =====
-- The registry of subscriptions (src/gateway/gateway.py): `subscriptions`,
-- `initializing_subscriptions`, the sessions' own sets of symbols, and `_fanout_event`,
-- `_unsubscribe` and `_cleanup`, each up to the Pub/Sub channels that it gives up.
pub mod Cleanup
use realtime_market_data_pla.Common.{
  discard, ℕ, zero, suc, ◌+◌, ◌-◌, ◌*◌, ◌/◌, ◌%◌, ◌≤◌, ◌<◌, min, max, String, ◌≡◌, refl, sym, ap,
  ap₂, subst, ◌∙◌, ◌≢◌, ◌↔◌, ◌⊎◌, inl, inr, Bool, true, false, not, ◌&&◌, ◌||◌, Option, none, some,
  List, [], ◌∷◌, ◌++◌, map, append-nil, append_assoc, arith, dec_lt, length, drop, take, last_n,
  length-append, All, All-append, All-map, contains, ltb, leb, if◌then◌else◌, Key, ◌==◌, nat_Key,
  string_Key, pair_Key, beq_refl, Bool-cases, Option-cases,
}
use realtime_market_data_pla.Session.{ClientSession, close}
use realtime_market_data_pla.Common.Dict.{get_or, lookup, Dict, insert, delete}
use realtime_market_data_pla.Gateway.Subscribing.{buffer_event, SubscriptionInitialization}
use realtime_market_data_pla.Models.{MarketEvent}
use realtime_market_data_pla.Aggregator.{push}

-- A session object, by its identity.
abbrev pub Handle : Type 0
Handle = ℕ

pub record Registry (F : Type 0) : Type 0 where
  pub sessions : Dict Handle (ClientSession F)
  pub subscriptions : Dict String (List Handle)
  pub initializing : Dict String (Dict Handle (SubscriptionInitialization F))
  pub dispatched : ℕ

-- `symbol_sessions.discard(session)`, and the symbol goes with its last session
unfoldable pub leave : Handle → String → Dict String (List Handle) → Dict String (List Handle)
unfolding discard
leave h symbol subscriptions = elim (lookup symbol subscriptions) [
  | none ↦ subscriptions
  | some members ↦ elim (discard h members) [
    | [] ↦ delete symbol subscriptions
    | x ∷ rest ↦ insert symbol (x ∷ rest) subscriptions
  ]
]

-- `len(symbol_sessions) == 0`
unfoldable pub is_unused : Option (List Handle) → Bool
is_unused none = true
is_unused (some []) = true
is_unused (some (h ∷ hs)) = false

-- the second loop of `_cleanup`
unfoldable pub leave_all :
    Handle → List String → Dict String (List Handle) → Dict String (List Handle)
unfolding leave
leave_all h [] subscriptions = subscriptions
leave_all h (symbol ∷ symbols) subscriptions = leave_all h symbols (leave h symbol subscriptions)

module _ {F : Type 0} where
  -- `subscriptions.get(symbol, set())`
  abbrev pub subscribers : String → Registry F → List Handle
  subscribers symbol r = get_or (lookup symbol r.subscriptions) []

  -- what happens to one session object
  unfoldable pub update_session :
      Handle
      → (ClientSession F → ClientSession F)
      → Dict Handle (ClientSession F)
      → Dict Handle (ClientSession F)
  update_session h change sessions = elim (lookup h sessions) [
    | none ↦ sessions
    | some s ↦ insert h (change s) sessions
  ]

  -- `for initialization in initializations: ...`
  unfoldable pub buffer_each :
      MarketEvent F
      → Dict Handle (SubscriptionInitialization F)
      → Dict Handle (SubscriptionInitialization F)
  unfolding buffer_event
  buffer_each event [] = []
  buffer_each event ((h, i) ∷ rest) = (h, buffer_event event i) ∷ buffer_each event rest

  -- `session.aggregator.push(event)`, and `_total_events_dispatched += 1`
  unfoldable pub push_each : MarketEvent F → List Handle → Registry F → Registry F
  unfolding push update_session
  push_each event [] r = r
  push_each event (h ∷ hs) r = push_each event hs (record r {
    sessions = update_session h (λ s. record s { aggregator = push event s.aggregator }) r.sessions;
    dispatched = r.dispatched + 1;
  })

  unfoldable pub buffer_symbol :
      MarketEvent F
      → Dict String (Dict Handle (SubscriptionInitialization F))
      → Dict String (Dict Handle (SubscriptionInitialization F))
  unfolding buffer_each
  buffer_symbol event initializing = elim (lookup event.symbol initializing) [
    | none ↦ initializing
    | some waiting ↦ insert event.symbol (buffer_each event waiting) initializing
  ]

  unfoldable pub fanout_event : MarketEvent F → Registry F → Registry F
  unfolding push_each buffer_symbol
  fanout_event event r =
      push_each event (subscribers event.symbol r)
        (record r { initializing = buffer_symbol event r.initializing })

  -- what `_unsubscribe` takes from the session
  unfoldable pub forget : String → ClientSession F → ClientSession F
  unfolding discard
  forget symbol s = record s {
    subscriptions = discard symbol s.subscriptions;
    last_seq = delete symbol s.last_seq;
    filters = delete symbol s.filters;
    last_price = delete symbol s.last_price;
  }

  -- `_unsubscribe`, with whether it goes on to `_unsubscribe_pubsub_symbol`
  unfoldable pub unsubscribe : Handle → String → Registry F → Registry F × Bool
  unfolding leave forget update_session is_unused
  unsubscribe h symbol r =
      let left = leave h symbol r.subscriptions in
      (
        record r { subscriptions = left; sessions = update_session h (forget symbol) r.sessions },
        is_unused (lookup symbol left),
      )

  -- the first loop of `_cleanup`
  unfoldable pub stop_initializing :
      Handle
      → Dict String (Dict Handle (SubscriptionInitialization F))
      → Dict String (Dict Handle (SubscriptionInitialization F))
  stop_initializing h [] = []
  stop_initializing h ((symbol, waiting) ∷ rest) =
      let others = stop_initializing h rest in
      elim (delete h waiting) [ [] ↦ others | w ∷ ws ↦ (symbol, w ∷ ws) ∷ others ]

  -- `_cleanup`, but for the channels that it gives up
  unfoldable pub cleanup : Handle → Registry F → Registry F
  unfolding leave_all stop_initializing
  cleanup h r = elim (lookup h r.sessions) [
    | none ↦ r
    | some s ↦ record r {
      initializing = stop_initializing h r.initializing;
      subscriptions = leave_all h s.subscriptions r.subscriptions;
      sessions = insert h (close s) r.sessions;
    }
  ]
