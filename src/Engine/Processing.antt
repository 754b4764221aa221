-- ===== src/Engine/Processing.antt =====
-- `DistributionEngine.process_event` and `process_consumed_event` of src/engine/engine.py: the
-- retries of the Redis work for one consumed event.
pub mod Acknowledged
use realtime_market_data_pla.Common.{
  ℕ, zero, suc, ◌+◌, ◌-◌, ◌*◌, ◌/◌, ◌%◌, ◌≤◌, ◌<◌, min, max, String, ◌≡◌, refl, sym, ap, ap₂, subst,
  ◌∙◌, ◌≢◌, ◌↔◌, ◌⊎◌, inl, inr, Bool, true, false, not, ◌&&◌, ◌||◌, Option, none, some, List, [],
  ◌∷◌, ◌++◌, map, append-nil, append_assoc, arith, dec_lt, length, drop, last_n, length-append, All,
  All-append, All-map, contains, ltb, leb, if◌then◌else◌, Key, ◌==◌, nat_Key, string_Key, pair_Key,
  beq_refl, Bool-cases, Option-cases,
}
use realtime_market_data_pla.Engine.Bridge.{KafkaConsumerBridge, ConsumedEvent, acknowledge}
use realtime_market_data_pla.Models.{MarketEvent}

-- What Redis was made to do, in order.
pub data Effect (F : Type 0) : Type 0 where
  updated : MarketEvent F → Effect F
  published : MarketEvent F → Effect F

-- How far an attempt that raises has got in Redis: a call that raises may have had its effect.
pub data Reached : Type 0 where
  before_update after_update after_publish : Reached

-- How one attempt goes: both calls succeed, or one raises; then whether the shutdown comes while
-- the engine waits to retry.
pub data Attempt : Type 0 where
  succeeds : Attempt
  fails : Reached → Bool → Attempt

pub record DistributionEngine (F : Type 0) : Type 0 where
  pub bridge : KafkaConsumerBridge F
  pub processed : ℕ
  pub redis_retries : ℕ
  pub shutdown : Bool
  pub redis_retry_initial : ℕ
  pub redis_retry_max : ℕ
  pub effects : List (Effect F)
  pub waits : List ℕ

module _ {F : Type 0} where
  -- `process_event` where both calls of the store succeed
  unfoldable pub process_event : MarketEvent F → DistributionEngine F → DistributionEngine F
  process_event event e = record e {
    effects = e.effects ++ updated event ∷ published event ∷ [];
    processed = e.processed + 1;
  }

  -- What an attempt that raises leaves in Redis.
  unfoldable pub partial_effects : Reached → MarketEvent F → List (Effect F)
  partial_effects before_update event = []
  partial_effects after_update event = updated event ∷ []
  partial_effects after_publish event = updated event ∷ published event ∷ []

  -- `self._redis_retries += 1`, and the wait
  unfoldable pub count_retry :
      List (Effect F) → ℕ → Bool → DistributionEngine F → DistributionEngine F
  count_retry done backoff stops e = record e {
    effects = e.effects ++ done;
    redis_retries = e.redis_retries + 1;
    shutdown = stops;
    waits = e.waits ++ backoff ∷ [];
  }

  -- `min(backoff * 2, self._redis_retry_max)` after a wait that timed out
  unfoldable pub next_backoff : Bool → ℕ → DistributionEngine F → ℕ
  next_backoff stops backoff e = if stops then backoff else min (backoff * 2) e.redis_retry_max

  -- The loop, over the attempts that it gets to make; `none` where they end before it does.
  unfoldable pub process_loop :
      List Attempt → ℕ → ConsumedEvent F → DistributionEngine F → DistributionEngine F × Option Bool
  process_loop [] backoff c e = (e, if e.shutdown then some false else none)
  process_loop (succeeds ∷ attempts) backoff c e =
      if e.shutdown
      then (e, some false)
      else (let done = process_event c.event e in
          (record done { bridge = acknowledge c done.bridge }, some true))
  process_loop (fails reached stops ∷ attempts) backoff c e =
      let rest =
        process_loop attempts (next_backoff stops backoff e) c
          (count_retry (partial_effects reached c.event) backoff stops e) in
      if e.shutdown then (e, some false) else rest

  unfoldable pub process_consumed_event :
      List Attempt → ConsumedEvent F → DistributionEngine F → DistributionEngine F × Option Bool
  unfolding process_loop
  process_consumed_event attempts c e = process_loop attempts e.redis_retry_initial c e
