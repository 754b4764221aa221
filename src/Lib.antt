-- ===== src/Lib.antt =====
-- Real-time market data platform: Kafka carries market events; an engine writes the latest snapshot
-- of each symbol to Redis and publishes the events on Redis Pub/Sub; a gateway fans them out to
-- WebSocket clients, each with its own aggregation buffer, dispatch loop and bounded queue; a tick
-- writer stores them in a database.
--
-- Which file models which part:
--   * Models: `MarketEvent`, `SnapshotData` and their dictionaries (src/models.py), and the JSON
--     values.
--   * Aggregator: `AggregationBuffer` (src/gateway/aggregator.py).
--   * Percentile: `LatencyTracker.percentile`, and the same computation elsewhere.
--   * Session: `ClientSession` (src/gateway/session.py): `classify_sequence`, `should_deliver`,
--     `enqueue`, the writer loop and the latency samples.
--   * Gateway.Dispatch: `client_dispatch_loop`; Gateway.PubSub: the channel sets and the connection
--     of `fanout_loop`; Gateway.Subscribing: `_subscribe`; Gateway.Registry: `_fanout_event`,
--     `_unsubscribe` and `_cleanup`; Gateway.Lifecycle: the registry and the channels as one state
--     under all of these; Gateway.Stream: `websocket_stream` (all src/gateway/gateway.py).
--   * Parsing.Events, Parsing.Requests and Parsing.History: the parsers of src/gateway/gateway.py,
--     src/engine/engine.py and src/storage/tick_writer.py.
--   * Engine.Bridge: the acknowledgements and commits of `KafkaConsumerBridge`; Engine.Processing:
--     `DistributionEngine.process_consumed_event`; Engine.Consumer: the consumer thread and
--     `DistributionEngine.run` around them (all src/engine/engine.py); Engine.Snapshots:
--     `SnapshotStore` (src/engine/snapshot_store.py).
--   * Storage.History: `HistoryStore` (src/storage/history_store.py), and `get_history` of
--     src/gateway/gateway.py that answers from it. Feed: `FeedSimulator` (src/feed/simulator.py).
--     Benchmark: the counters of `run_client` (src/benchmark/load_bench.py).
--   * Storage.TickWriter: the loop, the batches and the commits of `TickWriter`
--     (src/storage/tick_writer.py).
--   * Common: dictionaries, sets and queues of Python, its integers, and shared lemmas. Tests:
--     concrete values.
--
-- How state and calls are modelled: an object is a record, and a method a function of the same name
-- that returns the object after the call. What comes from outside (the answers of Redis, of the
-- database and of the WebSocket, the time, the work of other tasks while a call waits) is an
-- argument. Python's `int` is the type ℤ of Common.Int, without a bound; offsets, counters and times
-- between attempts are natural numbers; `float` is any type with the operations of `Numbers`, of
-- which a theorem assumes what it says. A `dict` is an association list in the order of insertion; a
-- `set` is a list.
--
-- Fuel: the loop that moves a commit cursor runs on the number of pending offsets, which is enough.
-- The retry loops run over the list of the attempts that they get to make. All else is recursion on
-- lists.
--
-- Simplifications: a round of the writer loop is one step, its send included. The exceptions of
-- `put_nowait` on a queue that has just lost its oldest entry do not occur and are not modelled.
-- A pass of the consumer thread is one step, as is the engine's work on one event. In
-- Gateway.Lifecycle a call runs as a whole, but that a subscription has a step for each attempt
-- at the channel and one for the answer of the store; other tasks work between these. Giving up a
-- channel that is not used any more is one step. The turns of a client's dispatch loop are an
-- argument of `websocket_stream`, beside its messages. Percentages of a percentile are whole
-- numbers, as at every call, for which the index is that of integer division. `json.loads` is
-- taken to raise `JSONDecodeError` only.
--
-- Not modelled: the metrics, health and snapshot endpoints, which format what others compute; SQL;
-- the rest of src/benchmark/; logging, timeouts and reconnect pauses.
pub mod Common
pub mod Models
pub mod Aggregator
pub mod Percentile
pub mod Parsing
pub mod Session
pub mod Gateway
pub mod Engine
pub mod Storage
pub mod Feed
pub mod Benchmark
mod Tests
