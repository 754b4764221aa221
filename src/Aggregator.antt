-- ===== src/Aggregator.antt =====
-- src/gateway/aggregator.py: the buffer between the fanout and one client.
pub mod Raw
pub mod Coalesce
use realtime_market_data_pla.Common.{
  string_Key, ℕ, Bool, true, false, Option, none, some, String, List, [], ◌∷◌,
}
use realtime_market_data_pla.Common.Dict.{Dict, insert, values, get_or}
use realtime_market_data_pla.Common.Queue.{put_nowait, get_nowait}
use realtime_market_data_pla.Models.{MarketEvent}

abbrev pub output_max_size : ℕ
output_max_size = 1000

pub data AggregationMode : Type 0 where
  raw agg_100ms : AggregationMode

-- `mode == AggregationMode.RAW`
unfoldable pub is_raw : AggregationMode → Bool
is_raw raw = true
is_raw agg_100ms = false

pub record AggregationBuffer (F : Type 0) : Type 0 where
  pub mode : AggregationMode
  pub interval_ms : ℕ
  pub buffer : Dict String (MarketEvent F)
  pub output : List (MarketEvent F)
  pub flushing : Bool

module _ {F : Type 0} where
  -- the constructor
  unfoldable pub init : AggregationMode → AggregationBuffer F
  init mode = record { mode = mode; interval_ms = 100; buffer = []; output = []; flushing = false }

  -- `get_nowait`, its `QueueEmpty` ignored
  unfoldable pub drop_oldest : List (MarketEvent F) → List (MarketEvent F)
  drop_oldest q = elim (get_nowait q) [ some (_, rest) ↦ rest | none ↦ q ]

  -- The second `put_nowait` raises on a queue that is still full: no queue of at most
  -- `output_max_size` events is, with its oldest gone.
  unfoldable pub put_latest : MarketEvent F → List (MarketEvent F) → List (MarketEvent F)
  put_latest event q = elim (put_nowait output_max_size event q) [
    | some q' ↦ q'
    | none ↦ get_or (put_nowait output_max_size event (drop_oldest q)) (drop_oldest q)
  ]

  unfoldable pub push : MarketEvent F → AggregationBuffer F → AggregationBuffer F
  push event a = elim a.mode [
    | raw ↦ record a { output = put_latest event a.output }
    | agg_100ms ↦ record a { buffer = insert event.symbol event a.buffer }
  ]

  -- `for event in ...: self._put_latest(event)`
  unfoldable pub put_all : List (MarketEvent F) → List (MarketEvent F) → List (MarketEvent F)
  put_all [] q = q
  put_all (event ∷ events) q = put_all events (put_latest event q)

  -- One round of `_flush_loop`, after its sleep.
  unfoldable pub flush : AggregationBuffer F → AggregationBuffer F
  flush a = elim a.buffer [
    | [] ↦ a
    | _ ∷ _ ↦ record a { output = put_all (values a.buffer) a.output; buffer = [] }
  ]

  unfoldable pub start : AggregationBuffer F → AggregationBuffer F
  start a = elim a.mode [ raw ↦ a | agg_100ms ↦ record a { flushing = true } ]

  unfoldable pub stop : AggregationBuffer F → AggregationBuffer F
  stop a = record a { flushing = false }

  -- One step of the generator `events`; `none` waits.
  unfoldable pub next_event : AggregationBuffer F → Option (MarketEvent F × AggregationBuffer F)
  next_event a = elim (get_nowait a.output) [
    | none ↦ none
    | some (event, rest) ↦ some (event, record a { output = rest })
  ]
