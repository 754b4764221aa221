-- ===== src/Engine/Processing/Acknowledged.antt =====
-- When `process_consumed_event` (src/engine/engine.py) acknowledges, and how long it waits.
use realtime_market_data_pla.Common.{
  ℕ, ◌+◌, ◌≤◌, max, ◌≡◌, refl, inl, inr, Bool, true, false, Option, none, some, List, [], ◌∷◌, ◌++◌,
  arith, All, All-append, nat_Key, string_Key, pair_Key, Bool-cases,
}
use realtime_market_data_pla.Engine.Processing.{
  process_consumed_event, process_loop, Attempt, DistributionEngine, process_event, fails,
  count_retry, succeeds, next_backoff, Effect, partial_effects, updated, published,
}
use realtime_market_data_pla.Engine.Bridge.{ConsumedEvent, acknowledge}

-- The attempts come to a success, or to a shutdown.
abbrev pub Settles : List Attempt → Type 0
Settles [] = ⊥
Settles (succeeds ∷ attempts) = Unit
Settles (fails reached true ∷ attempts) = Unit
Settles (fails reached false ∷ attempts) = Settles attempts

module _ {F : Type 0} where
  -- What the loop leaves, by its result.
  abbrev pub Leaves :
      ConsumedEvent F → DistributionEngine F → DistributionEngine F → Option Bool → Type 0
  Leaves c e e' (some true) =
      ((before : List (Effect F)) × (e'.effects
          ≡ before ++ updated c.event ∷ published c.event ∷ []))
      × (e'.bridge ≡ acknowledge c e.bridge)
      × (e'.processed ≡ e.processed + 1)
  Leaves c e e' (some false) =
      (e'.shutdown ≡ true) × (e'.bridge ≡ e.bridge) × (e'.processed ≡ e.processed)
  Leaves c e e' none = (e'.shutdown ≡ false) × (e'.bridge ≡ e.bridge) × (e'.processed ≡ e.processed)

  process_loop-Leaves :
      (attempts : List Attempt) (backoff : ℕ) (c : ConsumedEvent F) (e : DistributionEngine F)
      → Leaves c e (process_loop attempts backoff c e).0 (process_loop attempts backoff c e).1
  unfolding process_loop process_event count_retry next_backoff
  process_loop-Leaves [] backoff c e = elim (Bool-cases e.shutdown) [
    | inl off ↦ rw off (refl, refl, refl)
    | inr on ↦ rw on (refl, refl, refl)
  ]
  process_loop-Leaves (succeeds ∷ attempts) backoff c e = elim (Bool-cases e.shutdown) [
    | inl off ↦ rw off (refl, refl, refl)
    | inr on ↦ rw on ((e.effects, refl), refl, refl)
  ]
  process_loop-Leaves (fails reached stops ∷ attempts) backoff c e =
      let later =
        process_loop-Leaves attempts (next_backoff stops backoff e) c
          (count_retry (partial_effects reached c.event) backoff stops e) in
      elim (Bool-cases e.shutdown) [ inl off ↦ rw off (refl, refl, refl) | inr on ↦ rw on later ]

  -- The event is acknowledged exactly if the call returns true, after an update and a publication
  -- of it with nothing behind them; on a shutdown, and while it retries, the bridge stays as it was.
  pub process_consumed_event-Leaves :
      (attempts : List Attempt) (c : ConsumedEvent F) (e : DistributionEngine F)
      → Leaves c e (process_consumed_event attempts c e).0 (process_consumed_event attempts c e).1
  unfolding process_consumed_event
  process_consumed_event-Leaves attempts c e =
      process_loop-Leaves attempts e.redis_retry_initial c e

  process_loop_stopped :
      (attempts : List Attempt) (backoff : ℕ) (c : ConsumedEvent F) (e : DistributionEngine F)
      → e.shutdown ≡ true
      → (process_loop attempts backoff c e).1 ≡ some false
  unfolding process_loop
  process_loop_stopped [] backoff c e h = rw h
  process_loop_stopped (succeeds ∷ attempts) backoff c e h = rw h
  process_loop_stopped (fails reached stops ∷ attempts) backoff c e h = rw h

  process_loop_ends :
      (attempts : List Attempt) (backoff : ℕ) (c : ConsumedEvent F) (e : DistributionEngine F)
      → Settles attempts
      → (b : Bool) × ((process_loop attempts backoff c e).1 ≡ some b)
  unfolding process_loop count_retry
  process_loop_ends [] backoff c e h = absurd h
  process_loop_ends (succeeds ∷ attempts) backoff c e h = elim (Bool-cases e.shutdown) [
    | inl off ↦ (false, ground arith)
    | inr on ↦ (true, ground arith)
  ]
  process_loop_ends (fails reached true ∷ attempts) backoff c e h =
      let e' = count_retry (partial_effects reached c.event) backoff true e in
      (false, ground (arith, process_loop_stopped attempts (next_backoff true backoff e) c e' refl))
  process_loop_ends (fails reached false ∷ attempts) backoff c e h =
      let e' = count_retry (partial_effects reached c.event) backoff false e in
      let (b, later) = process_loop_ends attempts (next_backoff false backoff e) c e' h in
      elim (Bool-cases e.shutdown) [
        | inl off ↦ (false, ground arith)
        | inr on ↦ (b, ground (arith, later))
      ]

  -- If the attempts come to a success or to a shutdown, the call returns.
  pub process_consumed_event_ends :
      (attempts : List Attempt) (c : ConsumedEvent F) (e : DistributionEngine F)
      → Settles attempts
      → (b : Bool) × ((process_consumed_event attempts c e).1 ≡ some b)
  unfolding process_consumed_event
  process_consumed_event_ends attempts c e h =
      process_loop_ends attempts e.redis_retry_initial c e h

  -- Each wait is at most the larger of the two configured times.
  next_backoff-le :
      (stops : Bool) (backoff : ℕ) (e : DistributionEngine F) (bound : ℕ)
      → backoff ≤ bound
      → e.redis_retry_max ≤ bound
      → next_backoff stops backoff e ≤ bound
  unfolding next_backoff
  next_backoff-le stops backoff e bound h m = ground arith

  process_loop_waits :
      (attempts : List Attempt) (backoff : ℕ) (c : ConsumedEvent F) (e : DistributionEngine F)
      (bound : ℕ)
      → backoff ≤ bound
      → e.redis_retry_max ≤ bound
      → All (λ w. w ≤ bound) e.waits
      → All (λ w. w ≤ bound) (process_loop attempts backoff c e).0.waits
  unfolding process_loop count_retry process_event next_backoff
  process_loop_waits [] backoff c e bound h m all = all
  process_loop_waits (succeeds ∷ attempts) backoff c e bound h m all =
      elim (Bool-cases e.shutdown) [
        | inl off ↦ rw (off, process_loop) all
        | inr on ↦ rw (on, process_loop) all
      ]
  process_loop_waits (fails reached stops ∷ attempts) backoff c e bound h m all =
      let e' = count_retry (partial_effects reached c.event) backoff stops e in
      let later =
        process_loop_waits attempts (next_backoff stops backoff e) c e' bound
          (next_backoff-le stops backoff e bound h m) m
          (All-append (λ w. w ≤ bound) e.waits (backoff ∷ []) all (h, tt)) in
      elim (Bool-cases e.shutdown) [
        | inl off ↦ rw (off, process_loop) all
        | inr on ↦ rw (on, process_loop) later
      ]

  -- The engine never waits longer between two attempts than the larger of its two configured times.
  pub process_consumed_event_waits :
      (attempts : List Attempt) (c : ConsumedEvent F) (e : DistributionEngine F)
      → e.waits ≡ []
      → All
          (λ w. w ≤ max e.redis_retry_initial e.redis_retry_max)
          (process_consumed_event attempts c e).0.waits
  unfolding process_consumed_event
  process_consumed_event_waits attempts c e none_yet =
      process_loop_waits attempts e.redis_retry_initial c e
        (max e.redis_retry_initial e.redis_retry_max) (omega arith) (omega arith) (rw none_yet tt)
