-- ===== src/Gateway/Lifecycle/Left.antt =====
-- What is left of a client that leaves the gateway (src/gateway/gateway.py).
use realtime_market_data_pla.Common.{
  String, ◌≡◌, inl, inr, Bool, false, none, some, List, [], ◌∷◌, arith, ◌==◌, nat_Key, string_Key,
  pair_Key, beq_refl, Bool-cases, Option-cases,
}
use realtime_market_data_pla.Gateway.PubSub.{subscribe_pubsub_symbol, event_channel}
use realtime_market_data_pla.Gateway.Registry.{fanout_event, Handle, buffer_symbol}
use realtime_market_data_pla.Gateway.Registry.Cleanup.{is_subscriber, cleanup-Gone, WaitsNowhere}
use realtime_market_data_pla.Gateway.Lifecycle.{
  operates, try_subscribe, operate, fresh_gateway, unsubscribe_symbol, Operation, Gateway, cleans,
  opens, tries, abandons, completes, answer_subscribe, unsubscribes, fans_out, connects,
  disconnects, replies,
}
use realtime_market_data_pla.Common.Dict.{lookup, lookup-delete, get_or}
use realtime_market_data_pla.Session.{ClientSession}
use realtime_market_data_pla.Gateway.Lifecycle.Listed.{
  IsListed, fresh-IsListed, open-IsListed, answer-IsListed, unsubscribe-IsListed, cleanup-IsListed,
  push_each-IsListed, reply-IsListed,
}
use realtime_market_data_pla.Gateway.Lifecycle.Covered.{remove_registry}

module _ {F : Type 0} where
  -- The session is registered nowhere, waits nowhere and is no session of the gateway, and the
  -- others are registered as they were.
  abbrev pub IsGone : Handle → ClientSession F → Gateway F → Gateway F → Type 0
  IsGone h s g g' =
      ((j : String) → is_subscriber h j g'.registry.subscriptions ≡ false)
      × WaitsNowhere h g'.registry.initializing
      × (lookup s.client_id g'.all_sessions ≡ none)
      × ((k : Handle) (j : String)
          → (h == k) ≡ false
          → is_subscriber k j g'.registry.subscriptions
            ≡ is_subscriber k j g.registry.subscriptions)

module _ {F : Type 0} (prefix : String) where
  try-registry :
      (ok : Bool) (h : Handle) (symbol : String) (g : Gateway F)
      → IsListed g.registry
      → IsListed (try_subscribe prefix ok h symbol g).registry
  unfolding try_subscribe
  try-registry ok h symbol g v =
      elim (Bool-cases (subscribe_pubsub_symbol ok (event_channel prefix symbol) g.channels).1) [
        | inl taken ↦ rw taken v
        | inr refused ↦ rw refused v
      ]

  operate-IsListed :
      (o : Operation F) (g : Gateway F)
      → IsListed g.registry
      → IsListed (operate prefix o g).registry
  unfolding operate unsubscribe_symbol fanout_event
  operate-IsListed (opens h s) g v = elim (Option-cases (lookup h g.registry.sessions)) [
    | inl new ↦ rw (new, operate) (open-IsListed h s g.registry new v)
    | inr (other, here) ↦ rw (here, operate) v
  ]
  operate-IsListed (tries ok h symbol) g v = try-registry ok h symbol g v
  operate-IsListed (abandons ok symbol) g v = rw (remove_registry prefix ok symbol g) v
  operate-IsListed (completes ok h symbol f fetch) g v =
      elim (Option-cases (lookup h g.registry.sessions)) [
        | inl unknown ↦ rw (unknown, operate) v
        | inr (s, here) ↦
            rw (here, operate)
              (rw
                (remove_registry prefix ok symbol
                  (record g { registry = answer_subscribe h symbol f fetch s g.registry }))
                (answer-IsListed h symbol f fetch s g.registry here v))
      ]
  operate-IsListed (unsubscribes ok h symbol) g v = unsubscribe-IsListed h symbol g.registry v
  operate-IsListed (cleans ok h) g v = elim (Option-cases (lookup h g.registry.sessions)) [
    | inl unknown ↦ rw (unknown, operate) v
    | inr (s, here) ↦ rw (here, operate) (cleanup-IsListed h g.registry v)
  ]
  operate-IsListed (fans_out event) g v =
      push_each-IsListed event (get_or (lookup event.symbol g.registry.subscriptions) [])
        (record g.registry { initializing = buffer_symbol event g.registry.initializing }) v
  operate-IsListed (connects ok) g v = v
  operate-IsListed disconnects g v = v
  operate-IsListed (replies h message) g v = reply-IsListed h message g.registry v

  operates-IsListed :
      (os : List (Operation F)) (g : Gateway F)
      → IsListed g.registry
      → IsListed (operates prefix os g).registry
  unfolding operates
  operates-IsListed [] g v = v
  operates-IsListed (o ∷ os) g v =
      operates-IsListed os (operate prefix o g) (operate-IsListed o g v)

  -- Whatever has happened to a gateway since its start, the cleanup of a session takes it out
  -- everywhere: it is registered for no symbol, waits for none and is no session of the gateway any
  -- more; the other sessions are registered for what they were.
  pub operates_clean-IsGone :
      (os : List (Operation F)) (ok : String → Bool) (h : Handle) (s : ClientSession F)
      → lookup h (operates prefix os fresh_gateway).registry.sessions ≡ some s
      → IsGone h s
          (operates prefix os fresh_gateway)
          (operate prefix (cleans ok h) (operates prefix os fresh_gateway))
  unfolding operate
  operates_clean-IsGone os ok h s here =
      let g = operates prefix os fresh_gateway in
      let v = operates-IsListed os fresh_gateway (fresh-IsListed F) in
      let (gone, waits, others) =
        cleanup-Gone h s g.registry here (λ j registered. ground (arith, v h j registered)) in
      rw (here, operate)
        (
          gone,
          waits,
          ground (
            arith,
            lookup-delete s.client_id s.client_id g.all_sessions,
            beq_refl {A = String} s.client_id,
          ),
          others,
        )
