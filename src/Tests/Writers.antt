-- ===== src/Tests/Writers.antt =====
-- The consumers (src/engine/engine.py, src/storage/tick_writer.py): examples.
use realtime_market_data_pla.Common.{
  ℕ, ◌≤◌, ◌≡◌, refl, Bool, true, false, none, some, List, [], ◌∷◌, arith, All, contains, nat_Key,
  string_Key, pair_Key, map,
}
use realtime_market_data_pla.Engine.Bridge.{
  init as new_bridge, has_offset, track_consumed, ConsumedEvent, advance, note_pending, collect,
  plan, pop_range, pop_offsets, apply_advance, apply_all, drained, planned, drain_acknowledgements,
  acknowledge,
}
use realtime_market_data_pla.Engine.Bridge.Trace.{
  run as run_bridge, step as bridge_step, Call, IsSafe, consumes, acknowledges, drains, note_first,
}
use realtime_market_data_pla.Engine.Processing.{
  Attempt as Try, succeeds, fails, process_consumed_event, DistributionEngine, after_update,
  before_update, process_event, process_loop, partial_effects, count_retry, next_backoff,
}
use realtime_market_data_pla.Storage.TickWriter.{
  round, append_tick, should_flush, message, nothing, Attempt as Insertion, inserts,
  fails as raises, ConsumedTick, TickWriter, commit_batch, place,
}
use realtime_market_data_pla.Engine.Bridge.Safety.{
  fresh_trace, run-IsSafe, unacknowledged_blocks, fresh_trace-IsSafe,
}
use realtime_market_data_pla.Engine.Processing.Acknowledged.{
  Leaves, process_consumed_event_waits, process_consumed_event-Leaves, process_consumed_event_ends,
}
use realtime_market_data_pla.Tests.Data.{quoted}
use realtime_market_data_pla.Common.Dict.{lookup, insert, delete}
use realtime_market_data_pla.Storage.TickWriter.Rounds.{
  run as run_writer, next, see, polled, run-Persisted, Turn, InOrder,
}
use realtime_market_data_pla.Storage.TickWriter.Persisted.{
  Trace as WriterTrace, IsSafe as WriterIsSafe,
}
use realtime_market_data_pla.Storage.TickWriter.Highest.{
  offsets_of, to_list, greatest, commit_batch-greatest,
}

program : Unit {0}
unfolding new_bridge track_consumed note_pending collect has_offset advance plan pop_range
    pop_offsets apply_advance apply_all drained planned drain_acknowledgements acknowledge lookup
    insert delete run_bridge bridge_step note_first contains process_event process_loop
    process_consumed_event partial_effects count_retry next_backoff
program = tt

abbrev consumed : ℕ → ConsumedEvent ℕ
consumed offset = record {
  event = quoted "AAPL" offset 100;
  topic = "market-events";
  partition = 0;
  offset = offset;
}

-- Offsets 7 and 9 are consumed and acknowledged; the message at 8 did not parse.
abbrev skipping : List (Call ℕ)
skipping =
    consumes (consumed 7)
    ∷ acknowledges (consumed 7)
    ∷ drains false
    ∷ consumes (consumed 9)
    ∷ acknowledges (consumed 9)
    ∷ drains true
    ∷ drains true
    ∷ []

run-IsSafe_example : IsSafe (run_bridge fresh_trace skipping)
run-IsSafe_example = run-IsSafe fresh_trace skipping fresh_trace-IsSafe

unacknowledged_blocks_example :
    All
      (λ a. a.key ≡ ("market-events", 0) → a.cursor ≤ 8)
      (run_bridge fresh_trace skipping).committed
unfolding program
unacknowledged_blocks_example =
    unacknowledged_blocks skipping ("market-events", 0) 7 8 refl (omega arith) refl

-- The one commit of that run.
skipping_commits :
    (run_bridge fresh_trace skipping).committed
    ≡ record { key = ("market-events", 0); start = 7; cursor = 8 } ∷ []
unfolding program
skipping_commits = refl

abbrev engine : DistributionEngine ℕ
engine = record {
  bridge = record {
    acknowledgements = [];
    pending_acknowledgements = [];
    next_commit_offsets = [];
  };
  processed = 0;
  redis_retries = 0;
  shutdown = false;
  redis_retry_initial = 1;
  redis_retry_max = 30;
  effects = [];
  waits = [];
}

abbrev attempts : List Try
attempts = fails after_update false ∷ fails before_update false ∷ succeeds ∷ []

process_consumed_event-Leaves_example :
    Leaves
      (consumed 7)
      engine
      (process_consumed_event attempts (consumed 7) engine).0
      (process_consumed_event attempts (consumed 7) engine).1
process_consumed_event-Leaves_example = process_consumed_event-Leaves attempts (consumed 7) engine

process_consumed_event_ends_example :
    (b : Bool) × ((process_consumed_event attempts (consumed 7) engine).1 ≡ some b)
process_consumed_event_ends_example = process_consumed_event_ends attempts (consumed 7) engine tt

process_consumed_event_waits_example :
    All (λ w. w ≤ 30) (process_consumed_event attempts (consumed 7) engine).0.waits
process_consumed_event_waits_example =
    process_consumed_event_waits attempts (consumed 7) engine refl

abbrev writer : TickWriter ℕ
writer = record {
  batch_max_size = 500;
  inserted_ticks = 0;
  stop = false;
  batch = [];
  running = true;
  inserted = [];
  commits = [];
}

abbrev ticks : List (ConsumedTick ℕ)
ticks =
    record { event = quoted "AAPL" 1 100; topic = "market-events"; partition = 0; offset = 7 } ∷ []

abbrev insertions : List Insertion
insertions = raises false ∷ inserts 1 none ∷ []

abbrev new_writer : WriterTrace ℕ
new_writer = record { writer = writer; consumed = []; seen = [] }

new_writer-IsSafe : WriterIsSafe new_writer
new_writer-IsSafe = record {
  persisted = [];
  unflushed = [];
  split = refl;
  stored = refl;
  live = λ on go. refl;
  commits_seen = tt;
  ticks_seen = tt;
  behind = tt;
}

-- A tick, an idle round, and a message that does not parse and flushes it.
abbrev rounds : List (Turn ℕ)
rounds =
    record {
      poll = message (some (quoted "AAPL" 1 100)) ("market-events", 0) 7;
      expired = false;
      attempts = [];
      takes = true;
    }
    ∷ record { poll = nothing; expired = false; attempts = []; takes = true }
    ∷ record {
      poll = message none ("market-events", 0) 8;
      expired = false;
      attempts = insertions;
      takes = true;
    }
    ∷ []

rounds-InOrder : InOrder new_writer rounds
unfolding next see polled round append_tick should_flush
rounds-InOrder = (tt, (tt, ((λ e. omega arith, tt), tt)))

run-Persisted_example : WriterIsSafe (run_writer new_writer rounds)
run-Persisted_example = run-Persisted rounds new_writer rounds-InOrder new_writer-IsSafe

abbrev shuffled : List (ConsumedTick ℕ)
shuffled =
    record { event = quoted "AAPL" 1 100; topic = "market-events"; partition = 0; offset = 7 }
    ∷ record { event = quoted "AAPL" 3 102; topic = "market-events"; partition = 0; offset = 9 }
    ∷ record { event = quoted "AAPL" 2 101; topic = "market-events"; partition = 0; offset = 8 }
    ∷ []

commit_batch-greatest_example :
    offsets_of ("market-events", 0) (commit_batch shuffled)
    ≡ to_list (greatest (offsets_of ("market-events", 0) (map place shuffled)))
commit_batch-greatest_example = commit_batch-greatest shuffled ("market-events", 0)
