-- ===== src/Engine/Consumer/Blocked.antt =====
-- A message that does not parse holds back its partition (src/engine/engine.py).
use realtime_market_data_pla.Common.{
  ℕ, ◌≤◌, ◌≡◌, sym, subst, ◌∙◌, inl, inr, false, some, List, arith, All, contains, nat_Key,
  string_Key, pair_Key, Bool-cases,
}
use realtime_market_data_pla.Engine.Consumer.{Action, acts, start}
use realtime_market_data_pla.Engine.Processing.{DistributionEngine}
use realtime_market_data_pla.Engine.Bridge.{TopicPartition}
use realtime_market_data_pla.Common.Dict.{lookup}
use realtime_market_data_pla.Engine.Consumer.Refinement.{acts_start-Refines}
use realtime_market_data_pla.Engine.Bridge.Trace.{run}
use realtime_market_data_pla.Engine.Bridge.Safety.{fresh_trace, unacknowledged_blocks}

module _ {F : Type 0} where
  -- However the consumer thread, the commits, the handoffs and the engine go and interleave, from
  -- the start on: an offset at or above the first one that was consumed of its partition, which is
  -- itself never consumed, as that of a message that does not parse, is never committed past.
  pub unparsed_blocks :
      (actions : List (Action F)) (e : DistributionEngine F) (key : TopicPartition) (lowest o : ℕ)
      → lookup key (acts actions (start e)).consumed ≡ some lowest
      → lowest ≤ o
      → contains (key, o) (acts actions (start e)).consumed ≡ false
      → All (λ a. a.key ≡ key → a.cursor ≤ o) (acts actions (start e)).committed
  unparsed_blocks actions e key lowest o at le missing =
      let (calls, m) = acts_start-Refines actions e in
      let t = run fresh_trace calls in
      let unacked : contains (key, o) t.acked ≡ false =
        elim (Bool-cases (contains (key, o) t.acked)) [
          | inl known ↦ let was = m.acked (key, o) known in absurd (ground arith)
          | inr missed ↦ missed
        ] in
      subst (All (λ a. a.key ≡ key → a.cursor ≤ o)) (sym m.committed)
        (unacknowledged_blocks calls key lowest o (m.first key ∙ at) le unacked)
