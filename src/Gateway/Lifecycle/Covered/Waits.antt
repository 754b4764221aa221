-- ===== src/Gateway/Lifecycle/Covered/Waits.antt =====
-- `initializing_subscriptions` (src/gateway/gateway.py) keeps symbols that someone waits for and that
-- have a wanted channel.
use realtime_market_data_pla.Common.{
  String, ◌≡◌, refl, inl, inr, true, Option, none, some, [], ◌∷◌, All, ◌==◌, nat_Key, string_Key,
  pair_Key, Bool-cases,
}
use realtime_market_data_pla.Gateway.Registry.{
  buffer_each, buffer_symbol, stop_initializing, Handle,
}
use realtime_market_data_pla.Common.Dict.{
  insert, Dict, get_or, delete, lookup, All-delete, All-insert,
}
use realtime_market_data_pla.Gateway.Lifecycle.{end_waiting, wait}
use realtime_market_data_pla.Models.{MarketEvent}
use realtime_market_data_pla.Gateway.PubSub.{PubSub}
use realtime_market_data_pla.Gateway.Lifecycle.Covered.Channel.{
  HasSome, is_wanted, IsCovered, found-IsCovered,
}
use realtime_market_data_pla.Gateway.Subscribing.{SubscriptionInitialization, new_initialization}

abbrev pub Waiting : Type 0 → Type 0
Waiting F = Dict String (Dict Handle (SubscriptionInitialization F))

module _ {F : Type 0} (prefix : String) where
  HasSome-insert :
      (h : Handle) (i : SubscriptionInitialization F)
      (d : Dict Handle (SubscriptionInitialization F))
      → HasSome (insert h i d)
  unfolding insert
  HasSome-insert h i [] = tt
  HasSome-insert h i ((j, w) ∷ d) = elim (Bool-cases (j == h)) [
    | inl same ↦ rw same tt
    | inr other ↦ rw other tt
  ]

  pub wait-IsCovered :
      (h : Handle) (symbol : String) (p : PubSub) (initializing : Waiting F)
      → is_wanted prefix symbol p ≡ true
      → All (IsCovered prefix p) initializing
      → All (IsCovered prefix p) (wait h symbol initializing)
  unfolding wait
  wait-IsCovered h symbol p initializing wanted c =
      let waiting = get_or (lookup symbol initializing) [] in
      All-insert (IsCovered prefix p) symbol (insert h new_initialization waiting) initializing
        (HasSome-insert h new_initialization waiting, wanted) c

  pub end_waiting-IsCovered :
      (h : Handle) (symbol : String) (p : PubSub) (initializing : Waiting F)
      → All (IsCovered prefix p) initializing
      → All (IsCovered prefix p) (end_waiting h symbol initializing)
  unfolding end_waiting
  end_waiting-IsCovered h symbol p initializing c = from_entry (lookup symbol initializing) refl
    where
      from_left :
          (waiting left : Dict Handle (SubscriptionInitialization F))
          → lookup symbol initializing ≡ some waiting
          → All (IsCovered prefix p) (elim left [
            | [] ↦ delete symbol initializing
            | w ∷ ws ↦ insert symbol (w ∷ ws) initializing
          ])
      from_left waiting [] e = All-delete (IsCovered prefix p) symbol initializing c
      from_left waiting (w ∷ ws) e =
          All-insert (IsCovered prefix p) symbol (w ∷ ws) initializing
            (tt, (found-IsCovered prefix symbol p initializing waiting c e).1) c

      from_entry :
          (entry : Option (Dict Handle (SubscriptionInitialization F)))
          → lookup symbol initializing ≡ entry
          → All (IsCovered prefix p) (elim entry [
            | none ↦ initializing
            | some waiting ↦ elim (delete h waiting) [
              | [] ↦ delete symbol initializing
              | w ∷ ws ↦ insert symbol (w ∷ ws) initializing
            ]
          ])
      from_entry none e = c
      from_entry (some waiting) e = from_left waiting (delete h waiting) e

  pub stop_initializing-IsCovered :
      (h : Handle) (p : PubSub) (initializing : Waiting F)
      → All (IsCovered prefix p) initializing
      → All (IsCovered prefix p) (stop_initializing h initializing)
  unfolding stop_initializing
  stop_initializing-IsCovered h p [] c = tt
  stop_initializing-IsCovered h p ((symbol, waiting) ∷ rest) c =
      from_left (delete h waiting) (stop_initializing-IsCovered h p rest c.1)
    where
      from_left :
          (left : Dict Handle (SubscriptionInitialization F))
          → All (IsCovered prefix p) (stop_initializing h rest)
          → All (IsCovered prefix p) (elim left [
            | [] ↦ stop_initializing h rest
            | w ∷ ws ↦ (symbol, w ∷ ws) ∷ stop_initializing h rest
          ])
      from_left [] others = others
      from_left (w ∷ ws) others = ((tt, c.0.1), others)

  HasSome-buffer_each :
      (event : MarketEvent F) (waiting : Dict Handle (SubscriptionInitialization F))
      → HasSome waiting
      → HasSome (buffer_each event waiting)
  unfolding buffer_each
  HasSome-buffer_each event [] c = c
  HasSome-buffer_each event (w ∷ ws) c = tt

  pub buffer_symbol-IsCovered :
      (event : MarketEvent F) (p : PubSub) (initializing : Waiting F)
      → All (IsCovered prefix p) initializing
      → All (IsCovered prefix p) (buffer_symbol event initializing)
  unfolding buffer_symbol
  buffer_symbol-IsCovered event p initializing c =
      from_entry (lookup event.symbol initializing) refl
    where
      from_entry :
          (entry : Option (Dict Handle (SubscriptionInitialization F)))
          → lookup event.symbol initializing ≡ entry
          → All (IsCovered prefix p) (elim entry [
            | none ↦ initializing
            | some waiting ↦ insert event.symbol (buffer_each event waiting) initializing
          ])
      from_entry none e = c
      from_entry (some waiting) e =
          let (some_wait, wanted) =
            found-IsCovered prefix event.symbol p initializing waiting c e in
          All-insert (IsCovered prefix p) event.symbol (buffer_each event waiting) initializing
            (HasSome-buffer_each event waiting some_wait, wanted) c
