-- ===== src/Engine/Consumer.antt =====
-- The engine as a whole (src/engine/engine.py): `_consume_loop` and `_handoff` of the consumer
-- thread, and the loop of `DistributionEngine.run`, which takes what the thread hands over.
pub mod Matches
pub mod Refinement
pub mod Blocked
use realtime_market_data_pla.Common.{
  ℕ, zero, suc, ◌+◌, ◌-◌, ◌*◌, ◌/◌, ◌%◌, ◌≤◌, ◌<◌, min, max, String, ◌≡◌, refl, sym, ap, ap₂, subst,
  ◌∙◌, ◌≢◌, ◌↔◌, ◌⊎◌, inl, inr, Bool, true, false, not, ◌&&◌, ◌||◌, Option, none, some, List, [],
  ◌∷◌, ◌++◌, map, append-nil, append_assoc, arith, dec_lt, length, drop, take, last_n,
  length-append, All, All-append, All-map, contains, discard, ltb, leb, if◌then◌else◌, Key, ◌==◌,
  nat_Key, string_Key, pair_Key, beq_refl, Bool-cases, Option-cases,
}
use realtime_market_data_pla.Engine.Bridge.{
  init as new_bridge, drain_acknowledgements, track_consumed, ConsumedEvent, KafkaConsumerBridge,
  key_of, TopicPartition, Advance,
}
use realtime_market_data_pla.Engine.Processing.{Attempt, process_consumed_event, DistributionEngine}
use realtime_market_data_pla.Models.{MarketEvent}

-- What `consumer.poll` gives: nothing or an error of Kafka, an exception, or a message, with what
-- `_parse_event` makes of it.
pub data Poll (F : Type 0) : Type 0 where
  nothing : Poll F
  poll_raises : Poll F
  message : Option (MarketEvent F) → TopicPartition → ℕ → Poll F

-- How the wait for the handoff ends: the event is in the queue, its `put` has failed, or the stop
-- event is set; then the `put` is cancelled, for which it may be too late.
pub data Ending : Type 0 where
  taken broken : Ending
  stopped : Bool → Ending

-- The state that the consumer thread and the engine share. `consumed` is the history of what was
-- tracked, `committed` that of the commits.
pub record System (F : Type 0) : Type 0 where
  pub engine : DistributionEngine F
  pub queue : List (ConsumedEvent F)
  pub has_loop : Bool
  pub looping : Bool
  pub working : Bool
  pub stop : Bool
  pub consumed : List (TopicPartition × ℕ)
  pub committed : List Advance

-- What the two loops do: a pass of the consumer thread, with whether its commit and the last one
-- succeed; the work of the engine on the next event; the two ways to stop.
pub data Action (F : Type 0) : Type 0 where
  passes : Bool → Poll F → ℕ → Ending → Bool → Action F
  processes : List Attempt → Action F
  shuts_down : Action F
  stops : Action F

-- `_handoff`, with how often the wait times out first: its result, and whether the event gets into
-- the queue.
unfoldable pub handoff : Bool → ℕ → Ending → Bool × Bool
handoff false timeouts ending = (false, false)
handoff true (suc timeouts) ending = handoff true timeouts ending
handoff true zero taken = (true, true)
handoff true zero broken = (false, false)
handoff true zero (stopped late) = (false, late)

-- whether the loop of `run` goes on, and whether it ends and stops the consumer
unfoldable pub goes_on : Option Bool → Bool
goes_on none = false
goes_on (some done) = done

unfoldable pub gives_up : Option Bool → Bool
gives_up none = false
gives_up (some done) = not done

module _ {F : Type 0} where
  unfoldable pub start : DistributionEngine F → System F
  unfolding new_bridge
  start e = record {
    engine = record e { bridge = new_bridge };
    queue = [];
    has_loop = true;
    looping = true;
    working = true;
    stop = false;
    consumed = [];
    committed = [];
  }

  abbrev pub with_bridge : KafkaConsumerBridge F → System F → System F
  with_bridge b s = record s { engine = record s.engine { bridge = b } }

  -- `_drain_acknowledgements`
  unfoldable pub drain : Bool → System F → System F
  unfolding drain_acknowledgements
  drain commit_ok s =
      let (b, advances) = drain_acknowledgements commit_ok s.engine.bridge in
      record (with_bridge b s) { committed = s.committed ++ advances }

  -- the `finally` of `_consume_loop`
  unfoldable pub finish : Bool → System F → System F
  unfolding drain
  finish last_ok s = record (drain last_ok s) { looping = false }

  -- `_track_consumed`
  unfoldable pub track : ConsumedEvent F → System F → System F
  unfolding track_consumed
  track c s = record (with_bridge (track_consumed c s.engine.bridge) s) {
    consumed = s.consumed ++ (key_of c, c.offset) ∷ [];
  }

  -- the event in the queue, if it gets there
  unfoldable pub put : Bool → ConsumedEvent F → System F → System F
  put queued c s = if queued then record s { queue = s.queue ++ c ∷ [] } else s

  -- A message that parses: it is tracked and handed over, and the loop ends if that fails.
  unfoldable pub receive : ConsumedEvent F → ℕ → Ending → Bool → System F → System F
  unfolding track handoff finish put
  receive c timeouts ending last_ok s =
      let (handed, queued) = handoff s.has_loop timeouts ending in
      let s' = put queued c (track c s) in if handed then s' else finish last_ok s'

  -- the body of the loop of `_consume_loop` behind the drain
  unfoldable pub poll_once : Poll F → ℕ → Ending → Bool → System F → System F
  unfolding receive finish
  poll_once nothing timeouts ending last_ok s = s
  poll_once poll_raises timeouts ending last_ok s = finish last_ok s
  poll_once (message none key offset) timeouts ending last_ok s = s
  poll_once (message (some event) key offset) timeouts ending last_ok s =
      receive (record { event = event; topic = key.0; partition = key.1; offset = offset }) timeouts
        ending last_ok s

  -- one pass of the loop of `_consume_loop`
  unfoldable pub pass : Bool → Poll F → ℕ → Ending → Bool → System F → System F
  unfolding drain poll_once finish
  pass commit_ok poll timeouts ending last_ok s =
      if s.stop
      then finish last_ok s
      else poll_once poll timeouts ending last_ok (drain commit_ok s)

  -- the body of the loop of `run`
  unfoldable pub process_next : List Attempt → List (ConsumedEvent F) → System F → System F
  unfolding process_consumed_event goes_on gives_up
  process_next attempts [] s = s
  process_next attempts (c ∷ rest) s =
      let (e, answer) = process_consumed_event attempts c s.engine in
      record s {
        engine = e;
        queue = rest;
        working = goes_on answer;
        stop = s.stop || gives_up answer;
      }

  unfoldable pub act : Action F → System F → System F
  unfolding pass process_next
  act (passes commit_ok poll timeouts ending last_ok) s =
      if s.looping then pass commit_ok poll timeouts ending last_ok s else s
  act (processes attempts) s = if s.working then process_next attempts s.queue s else s
  act shuts_down s = record s { engine = record s.engine { shutdown = true }; stop = true }
  act stops s = record s { stop = true }

  unfoldable pub acts : List (Action F) → System F → System F
  unfolding act
  acts [] s = s
  acts (a ∷ actions) s = acts actions (act a s)
