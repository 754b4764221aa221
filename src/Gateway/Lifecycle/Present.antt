-- ===== src/Gateway/Lifecycle/Present.antt =====
-- A session of the gateway (src/gateway/gateway.py) stays an object.
use realtime_market_data_pla.Common.{
  ◌+◌, String, ◌≡◌, inl, inr, Option, none, some, List, [], ◌∷◌, arith, ◌==◌, nat_Key, string_Key,
  pair_Key, Bool-cases, Option-cases, beq_refl,
}
use realtime_market_data_pla.Gateway.PubSub.{subscribe_pubsub_symbol, event_channel}
use realtime_market_data_pla.Gateway.Registry.{
  unsubscribe, cleanup, forget, update_session, push_each, fanout_event, Handle, Registry,
  buffer_symbol,
}
use realtime_market_data_pla.Session.{close, enqueue, ClientSession}
use realtime_market_data_pla.Gateway.Lifecycle.{
  operates, operate, Operation, unsubscribe_symbol, Gateway, answer_subscribe, try_subscribe, opens,
  tries, abandons, completes, unsubscribes, cleans, fans_out, connects, replies, disconnects,
}
use realtime_market_data_pla.Models.{MarketEvent}
use realtime_market_data_pla.Common.Dict.{Dict, lookup, insert, lookup-insert, get_or}
use realtime_market_data_pla.Aggregator.{push}
use realtime_market_data_pla.Gateway.Lifecycle.Covered.{remove_registry}
use realtime_market_data_pla.Gateway.Subscribing.{finish_subscribe}

module _ {F : Type 0} where
  -- The session is there.
  abbrev pub IsPresent : Handle → Dict Handle (ClientSession F) → Type 0
  IsPresent h sessions = (s : ClientSession F) × (lookup h sessions ≡ some s)

  pub insert-IsPresent :
      (h k : Handle) (s : ClientSession F) (sessions : Dict Handle (ClientSession F))
      → IsPresent h sessions
      → IsPresent h (insert k s sessions)
  insert-IsPresent h k s sessions (t, here) = elim (Bool-cases (k == h)) [
    | inl same ↦ (s, ground (arith, lookup-insert k h s sessions))
    | inr other ↦ (t, ground (arith, lookup-insert k h s sessions))
  ]

  update-IsPresent :
      (h k : Handle) (change : ClientSession F → ClientSession F)
      (sessions : Dict Handle (ClientSession F))
      → IsPresent h sessions
      → IsPresent h (update_session k change sessions)
  unfolding update_session
  update-IsPresent h k change sessions v = from_entry (lookup k sessions)
    where
      from_entry :
          (entry : Option (ClientSession F))
          → IsPresent h (elim entry [ none ↦ sessions | some s ↦ insert k (change s) sessions ])
      from_entry none = v
      from_entry (some s) = insert-IsPresent h k (change s) sessions v

  push_each-IsPresent :
      (h : Handle) (event : MarketEvent F) (hs : List Handle) (r : Registry F)
      → IsPresent h r.sessions
      → IsPresent h (push_each event hs r).sessions
  unfolding push_each
  push_each-IsPresent h event [] r v = v
  push_each-IsPresent h event (k ∷ hs) r v =
      push_each-IsPresent h event hs
        (record r {
          sessions =
              update_session k (λ s. record s { aggregator = push event s.aggregator }) r.sessions;
          dispatched = r.dispatched + 1;
        })
        (update-IsPresent h k (λ s. record s { aggregator = push event s.aggregator }) r.sessions v)

  cleanup-IsPresent :
      (h k : Handle) (r : Registry F) → IsPresent h r.sessions → IsPresent h (cleanup k r).sessions
  unfolding cleanup
  cleanup-IsPresent h k r v = elim (Option-cases (lookup k r.sessions)) [
    | inl unknown ↦ rw (unknown, cleanup) v
    | inr (s, here) ↦ rw (here, cleanup) (insert-IsPresent h k (close s) r.sessions v)
  ]

module _ {F : Type 0} (prefix : String) where
  pub operate-IsPresent :
      (h : Handle) (o : Operation F) (g : Gateway F)
      → IsPresent h g.registry.sessions
      → IsPresent h (operate prefix o g).registry.sessions
  unfolding operate unsubscribe_symbol unsubscribe fanout_event answer_subscribe cleanup
      try_subscribe
  operate-IsPresent h (opens k s) g v = elim (Option-cases (lookup k g.registry.sessions)) [
    | inl new ↦ rw (new, operate) (insert-IsPresent h k s g.registry.sessions v)
    | inr (other, here) ↦ rw (here, operate) v
  ]
  operate-IsPresent h (tries ok k symbol) g v =
      elim (Bool-cases (subscribe_pubsub_symbol ok (event_channel prefix symbol) g.channels).1) [
        | inl taken ↦ rw taken v
        | inr refused ↦ rw refused v
      ]
  operate-IsPresent h (abandons ok symbol) g v = rw (remove_registry prefix ok symbol g) v
  operate-IsPresent h (completes ok k symbol f fetch) g v =
      elim (Option-cases (lookup k g.registry.sessions)) [
        | inl unknown ↦ rw (unknown, operate) v
        | inr (s, here) ↦
            let i = lookup k (get_or (lookup symbol g.registry.initializing) []) in
            rw (here, operate)
              (rw
                (remove_registry prefix ok symbol
                  (record g { registry = answer_subscribe k symbol f fetch s g.registry }))
                (insert-IsPresent h k (finish_subscribe symbol f fetch i s).session
                  g.registry.sessions v))
      ]
  operate-IsPresent h (unsubscribes ok k symbol) g v =
      update-IsPresent h k (forget symbol) g.registry.sessions v
  operate-IsPresent h (cleans ok k) g v = elim (Option-cases (lookup k g.registry.sessions)) [
    | inl unknown ↦ rw (unknown, operate) v
    | inr (s, here) ↦ rw (here, operate) (cleanup-IsPresent h k g.registry v)
  ]
  operate-IsPresent h (fans_out event) g v =
      push_each-IsPresent h event (get_or (lookup event.symbol g.registry.subscriptions) [])
        (record g.registry { initializing = buffer_symbol event g.registry.initializing }) v
  operate-IsPresent h (connects ok) g v = v
  operate-IsPresent h disconnects g v = v
  operate-IsPresent h (replies k message) g v =
      update-IsPresent h k (λ s. (enqueue message s).0) g.registry.sessions v

  pub operates-IsPresent :
      (h : Handle) (os : List (Operation F)) (g : Gateway F)
      → IsPresent h g.registry.sessions
      → IsPresent h (operates prefix os g).registry.sessions
  unfolding operates
  operates-IsPresent h [] g v = v
  operates-IsPresent h (o ∷ os) g v =
      operates-IsPresent h os (operate prefix o g) (operate-IsPresent h o g v)

  -- A session that opens is there.
  pub open-IsPresent :
      (h : Handle) (s : ClientSession F) (g : Gateway F)
      → lookup h g.registry.sessions ≡ none
      → IsPresent h (operate prefix (opens h s) g).registry.sessions
  unfolding operate
  open-IsPresent h s g new =
      rw (new, operate)
        (s, ground (arith, lookup-insert h h s g.registry.sessions, beq_refl {A = Handle} h))
