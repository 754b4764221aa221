-- ===== src/Gateway/Lifecycle/Stranded.antt =====
-- A client that ends up subscribed to a symbol with no Pub/Sub channel (src/gateway/gateway.py).
use realtime_market_data_pla.Common.{
  String, ◌≡◌, refl, ◌∙◌, inl, inr, Bool, true, false, Option, none, some, [], ◌∷◌, arith, discard,
  ◌==◌, nat_Key, string_Key, pair_Key, beq_refl, Bool-cases,
}
use realtime_market_data_pla.Gateway.Registry.Cleanup.{is_subscriber, leave_last}
use realtime_market_data_pla.Gateway.Registry.{
  unsubscribe, update_session, forget, Handle, is_unused, Registry,
}
use realtime_market_data_pla.Gateway.Lifecycle.{
  remove_desired_channel_if_unused, unsubscribe_symbol, Gateway, in_use, operates, answer_subscribe,
  operate, unsubscribes, completes,
}
use realtime_market_data_pla.Session.{ClientSession, SubscriptionFilter}
use realtime_market_data_pla.Common.Dict.{
  Dict, get_or, lookup, lookup-insert, insert, delete, lookup-delete,
}
use realtime_market_data_pla.Gateway.Lifecycle.Covered.Channel.{is_wanted, is_wanted-unsubscribe}
use realtime_market_data_pla.Gateway.Subscribing.{
  finish_subscribe, send_snapshot, SubscriptionInitialization,
}
use realtime_market_data_pla.Gateway.Dispatch.{fetched}
use realtime_market_data_pla.Gateway.Lifecycle.Joined.{is_subscriber-joined}
use realtime_market_data_pla.Gateway.Lifecycle.Covered.{remove_registry}

module _ {F : Type 0} where
  lookup-update_session :
      (h k : Handle) (change : ClientSession F → ClientSession F)
      (sessions : Dict Handle (ClientSession F))
      → (h == k) ≡ false
      → lookup k (update_session h change sessions) ≡ lookup k sessions
  unfolding update_session
  lookup-update_session h k change sessions other = from_entry (lookup h sessions)
    where
      from_entry :
          (entry : Option (ClientSession F))
          → lookup k (elim entry [ none ↦ sessions | some s ↦ insert h (change s) sessions ])
            ≡ lookup k sessions
      from_entry none = refl
      from_entry (some s) = ground (arith, lookup-insert h k (change s) sessions)

module _ {F : Type 0} (prefix : String) where
  -- The last subscriber is gone, and the channel with it.
  unsubscribe_last :
      (ok : Bool) (h : Handle) (symbol : String) (g : Gateway F)
      → lookup symbol g.registry.subscriptions ≡ some (h ∷ [])
      → is_wanted prefix symbol (unsubscribe_symbol prefix ok h symbol g).channels ≡ false
  unfolding unsubscribe_symbol unsubscribe is_unused discard
  unsubscribe_last ok h symbol g last =
      let alone : discard h (h ∷ []) ≡ [] = ground (arith, beq_refl {A = Handle} h) in
      let missing : lookup symbol (delete symbol g.registry.subscriptions) ≡ none = ground (
        arith,
        lookup-delete symbol symbol g.registry.subscriptions,
        beq_refl {A = String} symbol,
      ) in
      rw (leave_last h symbol g.registry.subscriptions (h ∷ []) last alone, missing, is_unused)
        (ground (
          arith,
          is_wanted-unsubscribe prefix symbol symbol ok g.channels,
          beq_refl {A = String} symbol,
        ))

  -- What is not wanted is not asked for by the end of a subscription.
  remove_keeps :
      (ok : Bool) (symbol : String) (g : Gateway F)
      → is_wanted prefix symbol g.channels ≡ false
      → is_wanted prefix symbol (remove_desired_channel_if_unused prefix ok symbol g).channels
        ≡ false
  unfolding remove_desired_channel_if_unused
  remove_keeps ok symbol g h = elim (Bool-cases (in_use symbol g.registry)) [
    | inl used ↦ rw used h
    | inr unused ↦ rw unused (
        ground (
          arith,
          is_wanted-unsubscribe prefix symbol symbol ok g.channels,
          beq_refl {A = String} symbol,
        ))
  ]

  -- A session whose initialization is there is registered, if the store has no snapshot.
  answer_subscribes :
      (k : Handle) (symbol : String) (f : Option (SubscriptionFilter F))
      (i : SubscriptionInitialization F) (s : ClientSession F) (r : Registry F)
      → lookup k (get_or (lookup symbol r.initializing) []) ≡ some i
      → i.overflowed ≡ false
      → is_subscriber k symbol (answer_subscribe k symbol f (fetched none) s r).subscriptions ≡ true
  unfolding answer_subscribe finish_subscribe send_snapshot
  answer_subscribes k symbol f i s r waits fits =
      rw (waits, finish_subscribe, fits) (is_subscriber-joined k symbol r.subscriptions)

  -- If the only subscriber of a symbol unsubscribes while another session waits for its snapshot,
  -- and the store has none: then the other ends up a subscriber of the symbol, and its channel is
  -- not wanted.
  pub unsubscribe_strands :
      (ok ok' : Bool) (h k : Handle) (symbol : String) (f : Option (SubscriptionFilter F))
      (i : SubscriptionInitialization F) (s : ClientSession F) (g : Gateway F)
      → (h == k) ≡ false
      → lookup symbol g.registry.subscriptions ≡ some (h ∷ [])
      → lookup k (get_or (lookup symbol g.registry.initializing) []) ≡ some i
      → i.overflowed ≡ false
      → lookup k g.registry.sessions ≡ some s
      → (is_subscriber k symbol
            (operates prefix
              (unsubscribes ok h symbol ∷ completes ok' k symbol f (fetched none) ∷ [])
              g).registry.subscriptions
          ≡ true)
        × (is_wanted prefix symbol
              (operates prefix
                (unsubscribes ok h symbol ∷ completes ok' k symbol f (fetched none) ∷ [])
                g).channels
            ≡ false)
  unfolding operates operate unsubscribe_symbol unsubscribe
  unsubscribe_strands ok ok' h k symbol f i s g other last waits fits here =
      let u = unsubscribe_symbol prefix ok h symbol g in
      let there : lookup k u.registry.sessions ≡ some s =
        lookup-update_session h k (forget symbol) g.registry.sessions other ∙ here in
      let answered = record u {
        registry = answer_subscribe k symbol f (fetched none) s u.registry;
      } in
      rw (there, operate)
        (
          rw (remove_registry prefix ok' symbol answered)
              (answer_subscribes k symbol f i s u.registry waits fits),
          remove_keeps ok' symbol answered (unsubscribe_last ok h symbol g last),
        )
