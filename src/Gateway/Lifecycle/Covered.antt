-- ===== src/Gateway/Lifecycle/Covered.antt =====
-- When the symbols in use have their Pub/Sub channel (src/gateway/gateway.py).
pub mod Channel
pub mod Members
pub mod Waits
pub mod Dropped
use realtime_market_data_pla.Common.{
  ℕ, zero, suc, ◌+◌, ◌-◌, ◌*◌, ◌/◌, ◌%◌, ◌≤◌, ◌<◌, min, max, String, ◌≡◌, refl, sym, ap, ap₂, subst,
  ◌∙◌, ◌≢◌, ◌↔◌, ◌⊎◌, inl, inr, Bool, true, false, not, ◌&&◌, ◌||◌, Option, none, some, List, [],
  ◌∷◌, ◌++◌, map, append-nil, append_assoc, arith, dec_lt, length, drop, take, last_n,
  length-append, All, All-append, All-map, contains, discard, ltb, leb, if◌then◌else◌, Key, ◌==◌,
  nat_Key, string_Key, pair_Key, beq_refl, Bool-cases, Option-cases,
}
use realtime_market_data_pla.Gateway.PubSub.{
  subscribe_pubsub_symbol, subscribe_desired_channels, connect, disconnect, PubSub,
  unsubscribe_pubsub_symbol, event_channel,
}
use realtime_market_data_pla.Gateway.Registry.{
  unsubscribe, cleanup, leave, forget, update_session, Registry, Handle,
}
use realtime_market_data_pla.Gateway.Lifecycle.{
  remove_desired_channel_if_unused, unsubscribe_all, Operation, is_awaited, in_use, Gateway,
  operate, unsubscribes, cleans, dropped,
}
use realtime_market_data_pla.Gateway.Lifecycle.Covered.Waits.{Waiting}
use realtime_market_data_pla.Gateway.Lifecycle.Covered.Members.{unused-none}
use realtime_market_data_pla.Gateway.Lifecycle.Covered.Dropped.{IsLeft}
use realtime_market_data_pla.Gateway.Lifecycle.Covered.Channel.{
  IsCovered, unsubscribe-IsCovered, found-IsCovered,
}
use realtime_market_data_pla.Common.Dict.{lookup, Dict}
use realtime_market_data_pla.Gateway.Subscribing.{SubscriptionInitialization}

-- Each symbol that a session subscribes to, or waits for, has a wanted channel.
pub record IsServed {F : Type 0} (prefix : String) (p : PubSub) (r : Registry F) : Type 0 where
  pub subscribed : All (IsCovered prefix p) r.subscriptions
  pub awaited : All (IsCovered prefix p) r.initializing

module _ {F : Type 0} (prefix : String) where
  -- A symbol that a step gives up is one that no other session waits for.
  abbrev pub GivesUpAlone : Operation F → Gateway F → Type 0
  GivesUpAlone (unsubscribes ok h symbol) g =
      (unsubscribe h symbol g.registry).1 ≡ true → lookup symbol g.registry.initializing ≡ none
  GivesUpAlone (cleans ok h) g =
      All (λ j. lookup j (cleanup h g.registry).initializing ≡ none) (dropped h g.registry)
  GivesUpAlone o g = Unit

  abbrev pub AllGiveUpAlone : List (Operation F) → Gateway F → Type 0
  AllGiveUpAlone [] g = Unit
  AllGiveUpAlone (o ∷ os) g = GivesUpAlone o g × AllGiveUpAlone os (operate prefix o g)

  pub drop-IsServed :
      (ok : Bool) (j : String) (p : PubSub) (r : Registry F)
      → lookup j r.subscriptions ≡ none
      → lookup j r.initializing ≡ none
      → IsServed prefix p r
      → IsServed prefix (unsubscribe_pubsub_symbol ok (event_channel prefix j) p) r
  drop-IsServed ok j p r left alone v = record {
    subscribed = unsubscribe-IsCovered prefix j ok p r.subscriptions left v.subscribed;
    awaited = unsubscribe-IsCovered prefix j ok p r.initializing alone v.awaited;
  }

  pub unsubscribe_all-IsServed :
      (ok : String → Bool) (symbols : List String) (p : PubSub) (r : Registry F)
      → All (IsLeft r.subscriptions) symbols
      → All (λ j. lookup j r.initializing ≡ none) symbols
      → IsServed prefix p r
      → IsServed prefix (unsubscribe_all prefix ok symbols p) r
  unfolding unsubscribe_all
  unsubscribe_all-IsServed ok [] p r left alone v = v
  unsubscribe_all-IsServed ok (j ∷ symbols) p r left alone v =
      unsubscribe_all-IsServed ok symbols
        (unsubscribe_pubsub_symbol (ok j) (event_channel prefix j) p) r left.1 alone.1
        (drop-IsServed (ok j) j p r left.0 alone.0 v)

  awaited-none :
      (symbol : String) (p : PubSub) (initializing : Waiting F)
      → All (IsCovered prefix p) initializing
      → is_awaited (lookup symbol initializing) ≡ false
      → lookup symbol initializing ≡ none
  unfolding is_awaited
  awaited-none symbol p initializing c h = from_entry (lookup symbol initializing) refl
    where
      from_entry :
          (entry : Option (Dict Handle (SubscriptionInitialization F)))
          → lookup symbol initializing ≡ entry
          → lookup symbol initializing ≡ none
      from_entry none e = e
      from_entry (some []) e = absurd (found-IsCovered prefix symbol p initializing [] c e).0
      from_entry (some (w ∷ ws)) e = absurd (ground arith)

  pub remove-IsServed :
      (ok : Bool) (symbol : String) (g : Gateway F)
      → IsServed prefix g.channels g.registry
      → IsServed prefix
          (remove_desired_channel_if_unused prefix ok symbol g).channels
          (remove_desired_channel_if_unused prefix ok symbol g).registry
  unfolding remove_desired_channel_if_unused in_use
  remove-IsServed ok symbol g v = elim (Bool-cases (in_use symbol g.registry)) [
    | inl used ↦ rw used v
    | inr unused ↦ rw unused (
        drop-IsServed ok symbol g.channels g.registry
          (unused-none prefix symbol g.channels g.registry.subscriptions v.subscribed
            (ground arith))
          (awaited-none symbol g.channels g.registry.initializing v.awaited (ground arith)) v)
  ]

  -- Only the channels change.
  pub remove_registry :
      (ok : Bool) (symbol : String) (g : Gateway F)
      → (remove_desired_channel_if_unused prefix ok symbol g).registry ≡ g.registry
  unfolding remove_desired_channel_if_unused
  remove_registry ok symbol g = ground arith
