-- ===== src/Gateway/Lifecycle/Served.antt =====
-- Every symbol in use keeps its Pub/Sub channel (src/gateway/gateway.py), if none is given up that
-- another session waits for.
use realtime_market_data_pla.Common.{
  ◌+◌, String, ◌≡◌, refl, inl, inr, Bool, true, false, Option, none, some, List, [], ◌∷◌, All,
  if◌then◌else◌, nat_Key, string_Key, pair_Key, Bool-cases, Option-cases,
}
use realtime_market_data_pla.Gateway.PubSub.{
  subscribe_pubsub_symbol, subscribe_desired_channels, connect, disconnect, event_channel, PubSub,
}
use realtime_market_data_pla.Gateway.Registry.{
  unsubscribe, cleanup, leave, update_session, push_each, fanout_event, Handle, buffer_symbol,
  Registry, is_unused,
}
use realtime_market_data_pla.Gateway.Lifecycle.{
  answer_subscribe, operate, unsubscribe_symbol, try_subscribe, Gateway, operates, Operation,
  fans_out, unsubscribes, opens, cleans, completes, tries, abandons, join, connects, disconnects,
  dropped, replies,
}
use realtime_market_data_pla.Models.{MarketEvent}
use realtime_market_data_pla.Gateway.Subscribing.{
  finish_subscribe, refuse, SubscriptionInitialization,
}
use realtime_market_data_pla.Common.Dict.{lookup, get_or, Dict}
use realtime_market_data_pla.Gateway.Lifecycle.Covered.{
  IsServed, GivesUpAlone, AllGiveUpAlone, remove-IsServed, drop-IsServed, unsubscribe_all-IsServed,
}
use realtime_market_data_pla.Session.{SubscriptionFilter, ClientSession}
use realtime_market_data_pla.Gateway.Lifecycle.Covered.Channel.{
  subscribe-IsCovered, IsCovered, is_wanted-subscribed, found-IsCovered,
}
use realtime_market_data_pla.Gateway.Dispatch.{Fetch, fetched, failed}
use realtime_market_data_pla.Gateway.Lifecycle.Covered.Members.{
  leave-IsCovered, leave_all-IsCovered, unused-none, join-IsCovered,
}
use realtime_market_data_pla.Aggregator.{push}
use realtime_market_data_pla.Gateway.Lifecycle.Covered.Waits.{
  wait-IsCovered, buffer_symbol-IsCovered, stop_initializing-IsCovered, end_waiting-IsCovered,
}
use realtime_market_data_pla.Gateway.Lifecycle.Covered.Dropped.{dropped-IsLeft}

module _ {F : Type 0} (prefix : String) where
  -- Every symbol that a session of the gateway subscribes to or waits for has a wanted channel.
  abbrev pub Serves : Gateway F → Type 0
  Serves g = IsServed prefix g.channels g.registry

  try-Serves :
      (ok : Bool) (h : Handle) (symbol : String) (g : Gateway F)
      → Serves g
      → Serves (try_subscribe prefix ok h symbol g)
  unfolding try_subscribe
  try-Serves ok h symbol g v =
      let c = event_channel prefix symbol in
      let p = (subscribe_pubsub_symbol ok c g.channels).0 in
      let subscribed =
        subscribe-IsCovered prefix symbol ok g.channels g.registry.subscriptions v.subscribed in
      let awaited =
        subscribe-IsCovered prefix symbol ok g.channels g.registry.initializing v.awaited in
      elim (Bool-cases (subscribe_pubsub_symbol ok c g.channels).1) [
        | inl taken ↦ rw taken (record {
          subscribed = subscribed;
          awaited =
              wait-IsCovered prefix h symbol p g.registry.initializing
                (is_wanted-subscribed prefix symbol ok g.channels) awaited;
        })
        | inr refused ↦ rw refused (record { subscribed = subscribed; awaited = awaited })
      ]

  -- Only a session that waits is registered.
  finish_subscribe_unawaited :
      (symbol : String) (f : Option (SubscriptionFilter F)) (fetch : Fetch F) (s : ClientSession F)
      → (finish_subscribe symbol f fetch none s).registered ≡ false
  unfolding finish_subscribe refuse
  finish_subscribe_unawaited symbol f failed s = refl
  finish_subscribe_unawaited symbol f (fetched snapshot) s = refl

  answer-IsServed :
      (h : Handle) (symbol : String) (f : Option (SubscriptionFilter F)) (fetch : Fetch F)
      (s : ClientSession F) (p : PubSub) (r : Registry F)
      → IsServed prefix p r
      → IsServed prefix p (answer_subscribe h symbol f fetch s r)
  unfolding answer_subscribe lookup
  answer-IsServed h symbol f fetch s p r v = record {
    subscribed = joins (lookup symbol r.initializing) refl;
    awaited = end_waiting-IsCovered prefix h symbol p r.initializing v.awaited;
  }
    where
      if-IsCovered :
          (b : Bool)
          → All (IsCovered prefix p) (join h symbol r.subscriptions)
          → All (IsCovered prefix p) (if b then join h symbol r.subscriptions else r.subscriptions)
      if-IsCovered true joined = joined
      if-IsCovered false joined = v.subscribed

      joins :
          (entry : Option (Dict Handle (SubscriptionInitialization F)))
          → lookup symbol r.initializing ≡ entry
          → All (IsCovered prefix p) (
              if (finish_subscribe symbol f fetch (lookup h (get_or entry [])) s).registered
              then join h symbol r.subscriptions
              else r.subscriptions)
      joins none e = rw (finish_subscribe_unawaited symbol f fetch s) v.subscribed
      joins (some waiting) e =
          if-IsCovered (finish_subscribe symbol f fetch (lookup h waiting) s).registered (
            join-IsCovered prefix h symbol p r.subscriptions
              (found-IsCovered prefix symbol p r.initializing waiting v.awaited e).1 v.subscribed)

  complete-Serves :
      (ok : Bool) (h : Handle) (symbol : String) (f : Option (SubscriptionFilter F))
      (fetch : Fetch F) (g : Gateway F)
      → Serves g
      → Serves (operate prefix (completes ok h symbol f fetch) g)
  unfolding operate
  complete-Serves ok h symbol f fetch g v = elim (Option-cases (lookup h g.registry.sessions)) [
    | inl unknown ↦ rw (unknown, operate) v
    | inr (s, here) ↦
        rw (here, operate)
          (remove-IsServed prefix ok symbol
            (record g { registry = answer_subscribe h symbol f fetch s g.registry })
            (answer-IsServed h symbol f fetch s g.channels g.registry v))
  ]

  unsubscribe-Serves :
      (ok : Bool) (h : Handle) (symbol : String) (g : Gateway F)
      → GivesUpAlone prefix (unsubscribes ok h symbol) g
      → Serves g
      → Serves (unsubscribe_symbol prefix ok h symbol g)
  unfolding unsubscribe_symbol unsubscribe
  unsubscribe-Serves ok h symbol g alone v =
      let left = leave h symbol g.registry.subscriptions in
      let r = (unsubscribe h symbol g.registry).0 in
      let v' : IsServed prefix g.channels r = record {
        subscribed =
            leave-IsCovered prefix h symbol g.channels g.registry.subscriptions v.subscribed;
        awaited = v.awaited;
      } in
      elim (Bool-cases (is_unused (lookup symbol left))) [
        | inr used ↦ rw used v'
        | inl unused ↦ rw unused (
            drop-IsServed prefix ok symbol g.channels r
              (unused-none prefix symbol g.channels left v'.subscribed unused) (alone unused) v')
      ]

  clean-Serves :
      (ok : String → Bool) (h : Handle) (g : Gateway F)
      → GivesUpAlone prefix (cleans ok h) g
      → Serves g
      → Serves (operate prefix (cleans ok h) g)
  unfolding operate cleanup
  clean-Serves ok h g alone v = elim (Option-cases (lookup h g.registry.sessions)) [
    | inl unknown ↦ rw (unknown, operate) v
    | inr (s, here) ↦
        rw (here, operate)
          (unsubscribe_all-IsServed prefix ok (dropped h g.registry) g.channels
            (cleanup h g.registry)
            (dropped-IsLeft prefix h s g.channels g.registry here v.subscribed) alone (left s here))
  ]
    where
      left :
          (s : ClientSession F)
          → lookup h g.registry.sessions ≡ some s
          → IsServed prefix g.channels (cleanup h g.registry)
      left s here =
          rw (here, cleanup)
            (record {
              subscribed =
                  leave_all-IsCovered prefix h s.subscriptions g.channels g.registry.subscriptions
                    v.subscribed;
              awaited =
                  stop_initializing-IsCovered prefix h g.channels g.registry.initializing v.awaited;
            })

  push_each-IsServed :
      (event : MarketEvent F) (hs : List Handle) (p : PubSub) (r : Registry F)
      → IsServed prefix p r
      → IsServed prefix p (push_each event hs r)
  unfolding push_each
  push_each-IsServed event [] p r v = v
  push_each-IsServed event (h ∷ hs) p r v =
      push_each-IsServed event hs p
        (record r {
          sessions =
              update_session h (λ s. record s { aggregator = push event s.aggregator }) r.sessions;
          dispatched = r.dispatched + 1;
        })
        (record { subscribed = v.subscribed; awaited = v.awaited })

  fanout-Serves :
      (event : MarketEvent F) (g : Gateway F)
      → Serves g
      → Serves (operate prefix (fans_out event) g)
  unfolding operate fanout_event
  fanout-Serves event g v =
      push_each-IsServed event (get_or (lookup event.symbol g.registry.subscriptions) []) g.channels
        (record g.registry { initializing = buffer_symbol event g.registry.initializing })
        (record {
          subscribed = v.subscribed;
          awaited =
              buffer_symbol-IsCovered prefix event g.channels g.registry.initializing v.awaited;
        })

  operate-Serves :
      (o : Operation F) (g : Gateway F)
      → GivesUpAlone prefix o g
      → Serves g
      → Serves (operate prefix o g)
  unfolding operate connect disconnect subscribe_desired_channels
  operate-Serves (opens h s) g alone v = elim (Option-cases (lookup h g.registry.sessions)) [
    | inl new ↦ rw (new, operate) (record { subscribed = v.subscribed; awaited = v.awaited })
    | inr (other, here) ↦ rw (here, operate) v
  ]
  operate-Serves (tries ok h symbol) g alone v = try-Serves ok h symbol g v
  operate-Serves (abandons ok symbol) g alone v = remove-IsServed prefix ok symbol g v
  operate-Serves (completes ok h symbol f fetch) g alone v = complete-Serves ok h symbol f fetch g v
  operate-Serves (unsubscribes ok h symbol) g alone v = unsubscribe-Serves ok h symbol g alone v
  operate-Serves (cleans ok h) g alone v = clean-Serves ok h g alone v
  operate-Serves (fans_out event) g alone v = fanout-Serves event g v
  operate-Serves (connects true) g alone v = record {
    subscribed = v.subscribed;
    awaited = v.awaited;
  }
  operate-Serves (connects false) g alone v = record {
    subscribed = v.subscribed;
    awaited = v.awaited;
  }
  operate-Serves (replies h message) g alone v = record {
    subscribed = v.subscribed;
    awaited = v.awaited;
  }
  operate-Serves disconnects g alone v = record { subscribed = v.subscribed; awaited = v.awaited }

  -- If no step gives up a symbol that another session waits for, then whatever clients connect,
  -- subscribe, unsubscribe and leave, and whatever Redis and the snapshot store answer: each symbol
  -- that a session subscribes to, or waits for, has its Pub/Sub channel among the wanted ones.
  pub operates-Serves :
      (os : List (Operation F)) (g : Gateway F)
      → AllGiveUpAlone prefix os g
      → Serves g
      → Serves (operates prefix os g)
  unfolding operates
  operates-Serves [] g alone v = v
  operates-Serves (o ∷ os) g alone v =
      operates-Serves os (operate prefix o g) alone.1 (operate-Serves o g alone.0 v)
