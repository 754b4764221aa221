-- ===== src/Tests/Engines.antt =====
-- The engine with its consumer thread (src/engine/engine.py): examples.
use realtime_market_data_pla.Common.{
  ℕ, ◌≤◌, ◌≡◌, refl, true, false, none, some, List, [], ◌∷◌, arith, All, contains, nat_Key,
  string_Key, pair_Key,
}
use realtime_market_data_pla.Engine.Bridge.{
  init as new_bridge, has_offset, track_consumed, note_pending, collect, plan, pop_range,
  pop_offsets, apply_advance, apply_all, drained, planned, drain_acknowledgements, acknowledge,
  advance, ConsumedEvent,
}
use realtime_market_data_pla.Engine.Bridge.Trace.{
  run as run_bridge, step as bridge_step, note_first, Call, consumes, acknowledges, drains,
}
use realtime_market_data_pla.Engine.Processing.{
  DistributionEngine, fails, succeeds, after_update, process_event, process_loop, partial_effects,
  count_retry, next_backoff, process_consumed_event,
}
use realtime_market_data_pla.Engine.Consumer.{
  nothing, message, start, act, acts, Action, passes, processes, taken, stops, pass, poll_once,
  receive, put, track, finish, drain, handoff, goes_on, gives_up, process_next,
}
use realtime_market_data_pla.Engine.Consumer.Refinement.{Refines, acts_start-Refines}
use realtime_market_data_pla.Tests.Data.{quoted}
use realtime_market_data_pla.Engine.Consumer.Blocked.{unparsed_blocks}
use realtime_market_data_pla.Common.Dict.{lookup, insert, delete}
use realtime_market_data_pla.Engine.Bridge.Safety.{fresh_trace}
use realtime_market_data_pla.Engine.Bridge.Frontier.{IsFrontier, drain-IsFrontier}

program : Unit {0}
unfolding new_bridge track_consumed note_pending collect has_offset advance plan pop_range
    pop_offsets apply_advance apply_all drained planned drain_acknowledgements acknowledge lookup
    insert delete run_bridge bridge_step note_first contains process_event process_loop
    process_consumed_event partial_effects count_retry next_backoff start act acts pass poll_once
    receive put track finish drain handoff goes_on gives_up process_next
program = tt

abbrev received : ℕ → ConsumedEvent ℕ
received offset = record {
  event = quoted "AAPL" offset 100;
  topic = "market-events";
  partition = 0;
  offset = offset;
}

-- Of offsets 7, 8 and 9, the middle one is acknowledged last.
abbrev out_of_order : List (Call ℕ)
out_of_order =
    consumes (received 7)
    ∷ consumes (received 8)
    ∷ consumes (received 9)
    ∷ acknowledges (received 9)
    ∷ acknowledges (received 7)
    ∷ drains false
    ∷ []

drain-IsFrontier_example :
    (n : ℕ) × (lookup
        ("market-events", 0)
        (bridge_step (run_bridge fresh_trace out_of_order) (drains true)).bridge.next_commit_offsets
      ≡ some n)
    × IsFrontier
        (run_bridge fresh_trace out_of_order).first
        (run_bridge fresh_trace out_of_order).acked
        ("market-events", 0)
        n
unfolding program
drain-IsFrontier_example = drain-IsFrontier out_of_order ("market-events", 0) 7 refl

-- That frontier is the offset 8.
out_of_order_next :
    lookup
      ("market-events", 0)
      (bridge_step (run_bridge fresh_trace out_of_order) (drains true)).bridge.next_commit_offsets
    ≡ some 8
unfolding program
out_of_order_next = refl

abbrev idle_engine : DistributionEngine ℕ
idle_engine = record {
  bridge = record {
    acknowledgements = [];
    pending_acknowledgements = [];
    next_commit_offsets = [];
  };
  processed = 0;
  redis_retries = 0;
  shutdown = false;
  redis_retry_initial = 1;
  redis_retry_max = 30;
  effects = [];
  waits = [];
}

-- Offset 7 parses, 8 does not, 9 does; the engine retries the first one.
abbrev schedule : List (Action ℕ)
schedule =
    passes true (message (some (quoted "AAPL" 1 100)) ("market-events", 0) 7) 2 taken true
    ∷ passes true (message none ("market-events", 0) 8) 0 taken true
    ∷ processes (fails after_update false ∷ succeeds ∷ [])
    ∷ passes true (message (some (quoted "AAPL" 2 101)) ("market-events", 0) 9) 0 taken true
    ∷ processes (succeeds ∷ [])
    ∷ passes true nothing 0 taken true
    ∷ stops
    ∷ passes true nothing 0 taken true
    ∷ []

acts_start-Refines_example : Refines (acts schedule (start idle_engine))
acts_start-Refines_example = acts_start-Refines schedule idle_engine

unparsed_blocks_example :
    All
      (λ a. a.key ≡ ("market-events", 0) → a.cursor ≤ 8)
      (acts schedule (start idle_engine)).committed
unfolding program
unparsed_blocks_example =
    unparsed_blocks schedule idle_engine ("market-events", 0) 7 8 refl (omega arith) refl

-- The one commit of that schedule: everything before the offset 8.
schedule_commits :
    (acts schedule (start idle_engine)).committed
    ≡ record { key = ("market-events", 0); start = 7; cursor = 8 } ∷ []
unfolding program
schedule_commits = refl
