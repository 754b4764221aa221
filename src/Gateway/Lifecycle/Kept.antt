-- ===== src/Gateway/Lifecycle/Kept.antt =====
-- Registrations that no other session takes away (src/gateway/gateway.py).
use realtime_market_data_pla.Common.{
  ◌+◌, String, ◌≡◌, inl, inr, true, false, Option, List, [], ◌∷◌, arith, All, ◌==◌, nat_Key,
  string_Key, pair_Key, Bool-cases, Option-cases,
}
use realtime_market_data_pla.Gateway.Registry.Cleanup.{
  is_subscriber, is_subscriber-leave, is_subscriber-leave_all,
}
use realtime_market_data_pla.Gateway.Lifecycle.Joined.{is_subscriber-join}
use realtime_market_data_pla.Gateway.Lifecycle.Covered.{remove_registry}
use realtime_market_data_pla.Gateway.PubSub.{subscribe_pubsub_symbol, event_channel}
use realtime_market_data_pla.Gateway.Registry.{
  unsubscribe, cleanup, push_each, fanout_event, Handle, Registry, update_session, buffer_symbol,
}
use realtime_market_data_pla.Session.{ClientSession, SubscriptionFilter}
use realtime_market_data_pla.Aggregator.{push}
use realtime_market_data_pla.Models.{MarketEvent}
use realtime_market_data_pla.Gateway.Dispatch.{Fetch}
use realtime_market_data_pla.Gateway.Lifecycle.{
  operates, operate, Operation, unsubscribe_symbol, Gateway, answer_subscribe, try_subscribe, opens,
  tries, abandons, completes, unsubscribes, cleans, fans_out, connects, replies, disconnects,
}
use realtime_market_data_pla.Gateway.Subscribing.{finish_subscribe}
use realtime_market_data_pla.Common.Dict.{lookup, get_or}

module _ {F : Type 0} where
  -- The operation is no unsubscription and no cleanup of the session.
  abbrev pub IsOther : Handle → Operation F → Type 0
  IsOther h (unsubscribes ok k symbol) = (k == h) ≡ false
  IsOther h (cleans ok k) = (k == h) ≡ false
  IsOther h o = Unit

  -- The session is registered for the symbol.
  abbrev IsRegistered : Handle → String → Registry F → Type 0
  IsRegistered h j r = is_subscriber h j r.subscriptions ≡ true

  answer-IsRegistered :
      (h k : Handle) (j symbol : String) (f : Option (SubscriptionFilter F)) (fetch : Fetch F)
      (s : ClientSession F) (r : Registry F)
      → IsRegistered h j r
      → IsRegistered h j (answer_subscribe k symbol f fetch s r)
  unfolding answer_subscribe
  answer-IsRegistered h k j symbol f fetch s r v =
      let i = lookup k (get_or (lookup symbol r.initializing) []) in
      elim (Bool-cases (finish_subscribe symbol f fetch i s).registered) [
        | inl done ↦ rw done (ground (arith, is_subscriber-join h k j symbol r.subscriptions))
        | inr refused ↦ rw refused v
      ]

  cleanup-IsRegistered :
      (h k : Handle) (j : String) (r : Registry F)
      → (k == h) ≡ false
      → IsRegistered h j r
      → IsRegistered h j (cleanup k r)
  unfolding cleanup
  cleanup-IsRegistered h k j r other v = elim (Option-cases (lookup k r.sessions)) [
    | inl unknown ↦ rw (unknown, cleanup) v
    | inr (s, here) ↦
        rw (here, cleanup)
          (ground (arith, is_subscriber-leave_all h k j s.subscriptions r.subscriptions))
  ]

  pushed-IsRegistered :
      (h : Handle) (j : String) (event : MarketEvent F) (ks : List Handle) (r : Registry F)
      → IsRegistered h j r
      → IsRegistered h j (push_each event ks r)
  unfolding push_each
  pushed-IsRegistered h j event [] r v = v
  pushed-IsRegistered h j event (k ∷ ks) r v =
      pushed-IsRegistered h j event ks
        (record r {
          sessions =
              update_session k (λ s. record s { aggregator = push event s.aggregator }) r.sessions;
          dispatched = r.dispatched + 1;
        })
        v

module _ {F : Type 0} (prefix : String) where
  operate-IsRegistered :
      (h : Handle) (j : String) (o : Operation F) (g : Gateway F)
      → IsOther h o
      → IsRegistered h j g.registry
      → IsRegistered h j (operate prefix o g).registry
  unfolding operate unsubscribe_symbol unsubscribe fanout_event try_subscribe
  operate-IsRegistered h j (opens k s) g _ v = elim (Option-cases (lookup k g.registry.sessions)) [
    | inl new ↦ rw (new, operate) v
    | inr (other, here) ↦ rw (here, operate) v
  ]
  operate-IsRegistered h j (tries ok k symbol) g _ v =
      elim (Bool-cases (subscribe_pubsub_symbol ok (event_channel prefix symbol) g.channels).1) [
        | inl taken ↦ rw taken v
        | inr refused ↦ rw refused v
      ]
  operate-IsRegistered h j (abandons ok symbol) g _ v = rw (remove_registry prefix ok symbol g) v
  operate-IsRegistered h j (completes ok k symbol f fetch) g _ v =
      elim (Option-cases (lookup k g.registry.sessions)) [
        | inl unknown ↦ rw (unknown, operate) v
        | inr (s, here) ↦
            rw (here, operate)
              (rw
                (remove_registry prefix ok symbol
                  (record g { registry = answer_subscribe k symbol f fetch s g.registry }))
                (answer-IsRegistered h k j symbol f fetch s g.registry v))
      ]
  operate-IsRegistered h j (unsubscribes ok k symbol) g other v =
      ground (arith, is_subscriber-leave h k j symbol g.registry.subscriptions)
  operate-IsRegistered h j (cleans ok k) g other v =
      elim (Option-cases (lookup k g.registry.sessions)) [
        | inl unknown ↦ rw (unknown, operate) v
        | inr (s, here) ↦ rw (here, operate) (cleanup-IsRegistered h k j g.registry other v)
      ]
  operate-IsRegistered h j (fans_out event) g _ v =
      pushed-IsRegistered h j event (get_or (lookup event.symbol g.registry.subscriptions) [])
        (record g.registry { initializing = buffer_symbol event g.registry.initializing }) v
  operate-IsRegistered h j (connects ok) g _ v = v
  operate-IsRegistered h j disconnects g _ v = v
  operate-IsRegistered h j (replies k message) g _ v = v

  -- A registration stays through whatever other sessions do.
  pub operates-IsRegistered :
      (h : Handle) (j : String) (os : List (Operation F)) (g : Gateway F)
      → All (IsOther h) os
      → is_subscriber h j g.registry.subscriptions ≡ true
      → is_subscriber h j (operates prefix os g).registry.subscriptions ≡ true
  unfolding operates
  operates-IsRegistered h j [] g _ v = v
  operates-IsRegistered h j (o ∷ os) g (other, others) v =
      operates-IsRegistered h j os (operate prefix o g) others
        (operate-IsRegistered h j o g other v)
