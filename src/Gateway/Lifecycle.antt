-- ===== src/Gateway/Lifecycle.antt =====
-- The registry and the Pub/Sub channels of src/gateway/gateway.py together: what clients that
-- connect, subscribe, unsubscribe and leave make of both. Each operation runs as a whole, but that a
-- subscription is in two parts, before and after the answer of the snapshot store.
pub mod Covered
pub mod Served
pub mod Joined
pub mod Listed
pub mod Kept
pub mod Left
pub mod Present
pub mod Stranded
use realtime_market_data_pla.Common.{
  ℕ, zero, suc, ◌+◌, ◌-◌, ◌*◌, ◌/◌, ◌%◌, ◌≤◌, ◌<◌, min, max, String, ◌≡◌, refl, sym, ap, ap₂, subst,
  ◌∙◌, ◌≢◌, ◌↔◌, ◌⊎◌, inl, inr, Bool, true, false, not, ◌&&◌, ◌||◌, Option, none, some, List, [],
  ◌∷◌, ◌++◌, map, append-nil, append_assoc, arith, dec_lt, length, drop, take, last_n,
  length-append, All, All-append, All-map, contains, discard, ltb, leb, if◌then◌else◌, Key, ◌==◌,
  nat_Key, string_Key, pair_Key, beq_refl, Bool-cases, Option-cases,
}
use realtime_market_data_pla.Gateway.PubSub.{
  init as no_channels, connect, disconnect, subscribe_pubsub_symbol, unsubscribe_pubsub_symbol,
  event_channel, PubSub,
}
use realtime_market_data_pla.Gateway.Registry.{
  Registry, unsubscribe, cleanup, is_unused, Handle, leave, fanout_event, update_session,
}
use realtime_market_data_pla.Gateway.Subscribing.{
  new_initialization, finish_subscribe, SubscriptionInitialization,
}
use realtime_market_data_pla.Common.Dict.{Dict, get_or, lookup, insert, delete}
use realtime_market_data_pla.Session.{ClientSession, SubscriptionFilter, enqueue}
use realtime_market_data_pla.Gateway.Dispatch.{Fetch}
use realtime_market_data_pla.Models.{MarketEvent, Message}

pub record Gateway (F : Type 0) : Type 0 where
  pub registry : Registry F
  pub channels : PubSub
  pub all_sessions : Dict String Handle

-- What a client or Redis brings about. The Booleans tell whether Redis takes what it is asked.
pub data Operation (F : Type 0) : Type 0 where
  opens : Handle → ClientSession F → Operation F
  tries : Bool → Handle → String → Operation F
  abandons : Bool → String → Operation F
  completes : Bool → Handle → String → Option (SubscriptionFilter F) → Fetch F → Operation F
  unsubscribes : Bool → Handle → String → Operation F
  cleans : (String → Bool) → Handle → Operation F
  fans_out : MarketEvent F → Operation F
  connects : Bool → Operation F
  disconnects : Operation F
  replies : Handle → Message F → Operation F

unfoldable pub fresh_gateway : {F : Type 0} → Gateway F
unfolding no_channels
fresh_gateway = record {
  registry = record { sessions = []; subscriptions = []; initializing = []; dispatched = 0 };
  channels = no_channels;
  all_sessions = [];
}

-- `subscriptions.setdefault(symbol, set()).add(session)`
unfoldable pub join : Handle → String → Dict String (List Handle) → Dict String (List Handle)
unfolding contains
join h symbol subscriptions =
    let members = get_or (lookup symbol subscriptions) [] in
    insert symbol (if contains h members then members else members ++ h ∷ []) subscriptions

module _ {F : Type 0} where
  -- `bool(initializing_subscriptions.get(symbol))`
  unfoldable pub is_awaited : Option (Dict Handle (SubscriptionInitialization F)) → Bool
  is_awaited none = false
  is_awaited (some []) = false
  is_awaited (some (w ∷ ws)) = true

  -- `in_use` of `_remove_desired_channel_if_unused`
  unfoldable pub in_use : String → Registry F → Bool
  unfolding is_unused is_awaited
  in_use symbol r =
      not (is_unused (lookup symbol r.subscriptions)) || is_awaited (lookup symbol r.initializing)

  -- `initializing_subscriptions.setdefault(symbol, {})[session] = initialization`
  unfoldable pub wait :
      Handle
      → String
      → Dict String (Dict Handle (SubscriptionInitialization F))
      → Dict String (Dict Handle (SubscriptionInitialization F))
  unfolding new_initialization
  wait h symbol initializing =
      insert symbol (insert h new_initialization (get_or (lookup symbol initializing) []))
        initializing

  -- the session's entry popped, and the symbol with its last one
  unfoldable pub end_waiting :
      Handle
      → String
      → Dict String (Dict Handle (SubscriptionInitialization F))
      → Dict String (Dict Handle (SubscriptionInitialization F))
  end_waiting h symbol initializing = elim (lookup symbol initializing) [
    | none ↦ initializing
    | some waiting ↦ elim (delete h waiting) [
      | [] ↦ delete symbol initializing
      | w ∷ ws ↦ insert symbol (w ∷ ws) initializing
    ]
  ]

  -- `_subscribe` from the answer of the store on, up to the channel
  unfoldable pub answer_subscribe :
      Handle
      → String
      → Option (SubscriptionFilter F)
      → Fetch F
      → ClientSession F
      → Registry F
      → Registry F
  unfolding finish_subscribe end_waiting join
  answer_subscribe h symbol f fetch s r =
      let i = lookup h (get_or (lookup symbol r.initializing) []) in
      let done = finish_subscribe symbol f fetch i s in
      record r {
        sessions = insert h done.session r.sessions;
        subscriptions = if done.registered then join h symbol r.subscriptions else r.subscriptions;
        initializing = end_waiting h symbol r.initializing;
      }

  -- the symbols that `_cleanup` collects in its first loop ...
  unfoldable pub dropped_waiting :
      Handle
      → Dict String (List Handle)
      → Dict String (Dict Handle (SubscriptionInitialization F))
      → List String
  unfolding is_unused
  dropped_waiting h subscriptions [] = []
  dropped_waiting h subscriptions ((symbol, waiting) ∷ rest) =
      let others = dropped_waiting h subscriptions rest in
      elim (delete h waiting) [
        | [] ↦ if is_unused (lookup symbol subscriptions) then symbol ∷ others else others
        | w ∷ ws ↦ others
      ]

-- ... and in its second
unfoldable pub dropped_leaving : Handle → List String → Dict String (List Handle) → List String
unfolding leave is_unused
dropped_leaving h [] subscriptions = []
dropped_leaving h (symbol ∷ symbols) subscriptions =
    let left = leave h symbol subscriptions in
    let others = dropped_leaving h symbols left in
    if is_unused (lookup symbol left) then symbol ∷ others else others

-- `for symbol in symbols_to_unsubscribe: ...`
unfoldable pub unsubscribe_all : String → (String → Bool) → List String → PubSub → PubSub
unfolding unsubscribe_pubsub_symbol event_channel
unsubscribe_all prefix ok [] p = p
unsubscribe_all prefix ok (symbol ∷ symbols) p =
    unsubscribe_all prefix ok symbols
      (unsubscribe_pubsub_symbol (ok symbol) (event_channel prefix symbol) p)

module _ {F : Type 0} where
  -- `symbols_to_unsubscribe` of `_cleanup`
  unfoldable pub dropped : Handle → Registry F → List String
  unfolding dropped_waiting dropped_leaving
  dropped h r = elim (lookup h r.sessions) [
    | none ↦ []
    | some s ↦
        dropped_waiting h r.subscriptions r.initializing
        ++ dropped_leaving h s.subscriptions r.subscriptions
  ]

  module _ (prefix : String) where
    -- `_remove_desired_channel_if_unused`
    unfoldable pub remove_desired_channel_if_unused : Bool → String → Gateway F → Gateway F
    unfolding in_use unsubscribe_pubsub_symbol event_channel
    remove_desired_channel_if_unused ok symbol g =
        if in_use symbol g.registry then g else record g {
          channels = unsubscribe_pubsub_symbol ok (event_channel prefix symbol) g.channels;
        }

    -- One attempt of `_ensure_pubsub_subscription`, and the initialization that `_subscribe` makes
    -- once one succeeds.
    unfoldable pub try_subscribe : Bool → Handle → String → Gateway F → Gateway F
    unfolding subscribe_pubsub_symbol event_channel wait
    try_subscribe ok h symbol g =
        let (p, taken) = subscribe_pubsub_symbol ok (event_channel prefix symbol) g.channels in
        if taken
        then record g {
          registry = record g.registry { initializing = wait h symbol g.registry.initializing };
          channels = p;
        }
        else record g { channels = p }

    -- `_unsubscribe`
    unfoldable pub unsubscribe_symbol : Bool → Handle → String → Gateway F → Gateway F
    unfolding unsubscribe unsubscribe_pubsub_symbol event_channel
    unsubscribe_symbol ok h symbol g =
        let (r, should_unsubscribe) = unsubscribe h symbol g.registry in
        record g {
          registry = r;
          channels =
              if should_unsubscribe
              then unsubscribe_pubsub_symbol ok (event_channel prefix symbol) g.channels
              else g.channels;
        }

    -- A session opens with an identity of its own.
    unfoldable pub operate : Operation F → Gateway F → Gateway F
    unfolding try_subscribe remove_desired_channel_if_unused answer_subscribe unsubscribe_symbol
        cleanup dropped unsubscribe_all fanout_event connect disconnect update_session enqueue
    operate (opens h s) g = elim (lookup h g.registry.sessions) [
      | some other ↦ g
      | none ↦ record g {
        registry = record g.registry { sessions = insert h s g.registry.sessions };
        all_sessions = insert s.client_id h g.all_sessions;
      }
    ]
    operate (tries ok h symbol) g = try_subscribe ok h symbol g
    operate (abandons ok symbol) g = remove_desired_channel_if_unused ok symbol g
    operate (completes ok h symbol f fetch) g = elim (lookup h g.registry.sessions) [
      | none ↦ g
      | some s ↦
          remove_desired_channel_if_unused ok symbol
            (record g { registry = answer_subscribe h symbol f fetch s g.registry })
    ]
    operate (unsubscribes ok h symbol) g = unsubscribe_symbol ok h symbol g
    operate (cleans ok h) g = elim (lookup h g.registry.sessions) [
      | none ↦ g
      | some s ↦ record g {
        registry = cleanup h g.registry;
        channels = unsubscribe_all prefix ok (dropped h g.registry) g.channels;
        all_sessions = delete s.client_id g.all_sessions;
      }
    ]
    operate (fans_out event) g = record g { registry = fanout_event event g.registry }
    operate (connects ok) g = record g { channels = connect ok g.channels }
    operate disconnects g = record g { channels = disconnect g.channels }
    operate (replies h message) g = record g {
      registry = record g.registry {
        sessions = update_session h (λ s. (enqueue message s).0) g.registry.sessions;
      };
    }

    unfoldable pub operates : List (Operation F) → Gateway F → Gateway F
    unfolding operate
    operates [] g = g
    operates (o ∷ os) g = operates os (operate o g)
