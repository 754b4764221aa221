-- ===== src/Session/Filter.antt =====
-- Which events `should_deliver` (src/gateway/session.py) lets through.
use realtime_market_data_pla.Common.{
  Option, ◌≡◌, false, some, true, ◌↔◌, arith, Option-cases, none, refl, inl, inr, string_Key, subst,
}
use realtime_market_data_pla.Models.{Numbers, MarketEvent}
use realtime_market_data_pla.Session.{
  spread_too_wide, change_too_small, should_deliver, ClientSession, SubscriptionFilter,
}
use realtime_market_data_pla.Common.Dict.{lookup}

module _ {F : Type 0} ⦃n : Numbers F⦄ where
  -- What a subscriber asked for: a spread `ask - bid` not above the bound, and, where a bid was
  -- delivered and is other than 0, a change |(bid - last) / last| * 100 to it that, with 1e-9 added,
  -- is not below the least one.
  pub record Passes (event : MarketEvent F) (f : SubscriptionFilter F) (last : Option F)
      : Type 0 where
    pub spread :
        (max_spread : F)
        → f.max_spread ≡ some max_spread
        → n.lt max_spread (n.sub event.ask event.bid) ≡ false
    pub change :
        (min_change_pct price : F)
        → f.min_change_pct ≡ some min_change_pct
        → last ≡ some price
        → n.eq price n.zero_f ≡ false
        → n.lt
            (n.add
              (n.mul (n.abs (n.div (n.sub event.bid price) price)) (n.literal 100 1))
              (n.literal 1 1000000000))
            min_change_pct
          ≡ false

  spread_too_wide_iff :
      (event : MarketEvent F) (bound : Option F)
      → (spread_too_wide event bound ≡ false)
        ↔ ((m : F) → bound ≡ some m → n.lt m (n.sub event.ask event.bid) ≡ false)
  unfolding spread_too_wide
  spread_too_wide_iff event none = (λ h m e. absurd (ground arith), λ h. refl)
  spread_too_wide_iff event (some bound) = (λ h m e. ground arith, λ h. h bound refl)

  change_too_small_iff :
      (event : MarketEvent F) (least last : Option F)
      → (change_too_small event least last ≡ false) ↔ (
          (m price : F)
          → least ≡ some m
          → last ≡ some price
          → n.eq price n.zero_f ≡ false
          → n.lt
              (n.add
                (n.mul (n.abs (n.div (n.sub event.bid price) price)) (n.literal 100 1))
                (n.literal 1 1000000000))
              m
            ≡ false)
  unfolding change_too_small
  change_too_small_iff event none last = (λ h m price e. absurd (ground arith), λ h. refl)
  change_too_small_iff event (some m) none = (λ h m' price e e'. absurd (ground arith), λ h. refl)
  change_too_small_iff event (some m) (some price) =
      (λ h m' price' e e' z. ground arith, λ h. ground (arith, h m price refl refl))

  -- An event is delivered exactly if its symbol has no filter or it passes it: its spread is not
  -- above the bound that is set, and the change of its bid from the last delivered one, if there is
  -- one other than 0, in percent of that one and with 1e-9 added, is not below the least one set.
  pub should_deliver_iff :
      (event : MarketEvent F) (s : ClientSession F)
      → (should_deliver event s ≡ true) ↔ (
          (f : SubscriptionFilter F)
          → lookup event.symbol s.filters ≡ some f
          → Passes event f (lookup event.symbol s.last_price))
  unfolding should_deliver
  should_deliver_iff event s = elim (Option-cases (lookup event.symbol s.filters)) [
    | inl none_set ↦ rw (none_set, should_deliver) (λ h f e. absurd (ground arith), λ h. refl)
    | inr (f, set) ↦ (
      λ h f' e.
          let same : f ≡ f' = ground arith in
          subst (λ g. Passes event g (lookup event.symbol s.last_price)) same
            (record {
              spread = (spread_too_wide_iff event f.max_spread).0 (ground arith);
              change =
                  (change_too_small_iff event f.min_change_pct (lookup event.symbol s.last_price)).0
                    (ground arith);
            }),
      λ h.
          let p = h f set in
          ground (
            arith,
            (spread_too_wide_iff event f.max_spread).1 p.spread,
            (change_too_small_iff event f.min_change_pct (lookup event.symbol s.last_price)).1
                p.change,
          ),
    )
  ]
