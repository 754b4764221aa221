-- ===== src/Session.antt =====
-- src/gateway/session.py: one connected client.
pub mod Sequence
pub mod Outbound
pub mod Delivery
pub mod Latency
pub mod Filter
use realtime_market_data_pla.Common.{
  ℕ, ◌+◌, Bool, true, false, not, ◌&&◌, Option, none, some, String, List, [], ◌∷◌, ◌++◌, string_Key,
  if◌then◌else◌, ltb, leb, length, drop,
}
use realtime_market_data_pla.Common.Int.{ℤ, pos, add_one, leb_ℤ, beq_ℤ}
use realtime_market_data_pla.Common.Dict.{Dict, lookup, insert}
use realtime_market_data_pla.Common.Queue.{put_nowait, get_nowait}
use realtime_market_data_pla.Models.{Numbers, MarketEvent, Message, get, int}
use realtime_market_data_pla.Aggregator.{AggregationBuffer}

abbrev pub queue_max_size : ℕ
queue_max_size = 500

abbrev pub slow_client_drop_limit : ℕ
slow_client_drop_limit = 100

abbrev pub max_samples : ℕ
max_samples = 1000

pub data SlowConsumerPolicy : Type 0 where
  drop_oldest disconnect : SlowConsumerPolicy

pub data Encoding : Type 0 where
  json msgpack : Encoding

pub data SequenceDecision : Type 0 where
  next gap stale : SequenceDecision

pub record SubscriptionFilter (F : Type 0) : Type 0 where
  pub min_change_pct : Option F
  pub max_spread : Option F

pub record ClientStats (F : Type 0) : Type 0 where
  pub sent : ℕ
  pub dropped : ℕ
  pub gaps_detected : ℕ
  pub connected_at : F
  pub samples : List F

pub record ClientSession (F : Type 0) : Type 0 where
  pub client_id : String
  pub policy : SlowConsumerPolicy
  pub encoding : Encoding
  pub subscriptions : List String
  pub stats : ClientStats F
  pub last_seq : Dict String ℤ
  pub filters : Dict String (SubscriptionFilter F)
  pub last_price : Dict String F
  pub aggregator : AggregationBuffer F
  pub queue : List (Message F)
  pub disconnected : Bool

module _ {F : Type 0} where
  -- the constructor, and the assignment of the aggregator that follows it
  unfoldable pub init :
      String → SlowConsumerPolicy → Encoding → F → AggregationBuffer F → ClientSession F
  init client_id policy encoding now aggregator = record {
    client_id = client_id;
    policy = policy;
    encoding = encoding;
    subscriptions = [];
    stats = record { sent = 0; dropped = 0; gaps_detected = 0; connected_at = now; samples = [] };
    last_seq = [];
    filters = [];
    last_price = [];
    aggregator = aggregator;
    queue = [];
    disconnected = false;
  }

  -- `self.stats.gaps_detected += 1`
  abbrev pub count_gap : ClientSession F → ClientSession F
  count_gap s = record s { stats = record s.stats { gaps_detected = s.stats.gaps_detected + 1 } }

  -- `self.last_seq[symbol] = seq`
  abbrev pub seed_seq : String → ℤ → ClientSession F → ClientSession F
  seed_seq symbol seq s = record s { last_seq = insert symbol seq s.last_seq }

  -- the body of `classify_sequence` once `last` is read
  unfoldable pub classify_after :
      Option ℤ → String → ℤ → Bool → ClientSession F → SequenceDecision × ClientSession F
  classify_after none symbol seq detect_gap s = (next, seed_seq symbol seq s)
  classify_after (some last) symbol seq detect_gap s =
      if leb_ℤ seq last
      then (stale, s)
      else if detect_gap && not (beq_ℤ seq (add_one last))
      then (gap, count_gap s)
      else (next, seed_seq symbol seq s)

  unfoldable pub classify_sequence :
      String → ℤ → Bool → ClientSession F → SequenceDecision × ClientSession F
  unfolding classify_after
  classify_sequence symbol seq detect_gap s =
      classify_after (lookup symbol s.last_seq) symbol seq detect_gap s

  -- `self.stats.dropped += 1`
  abbrev pub count_drop : ClientSession F → ClientSession F
  count_drop s = record s { stats = record s.stats { dropped = s.stats.dropped + 1 } }

  -- The branch of `enqueue` for DROP_OLDEST. A `QueueFull` of its `put_nowait` would leave the
  -- call: a queue of at most `queue_max_size` messages has room for one with its oldest gone.
  unfoldable pub replace_oldest : Message F → ClientSession F → ClientSession F × Bool
  replace_oldest message s = elim (get_nowait s.queue) [
    | none ↦ (s, false)
    | some (_, rest) ↦ elim (put_nowait queue_max_size message rest) [
      | some q ↦ (record s { queue = q }, true)
      | none ↦ (record s { queue = rest }, false)
    ]
  ]

  -- The branch for DISCONNECT.
  unfoldable pub signal_slow : ClientSession F → ClientSession F × Bool
  signal_slow s = (
    if leb slow_client_drop_limit s.stats.dropped then record s { disconnected = true } else s,
    false,
  )

  unfoldable pub enqueue : Message F → ClientSession F → ClientSession F × Bool
  enqueue message s = elim (put_nowait queue_max_size message s.queue) [
    | some q ↦ (record s { queue = q }, true)
    | none ↦ elim s.policy [
      | drop_oldest ↦ replace_oldest message (count_drop s)
      | disconnect ↦ signal_slow (count_drop s)
    ]
  ]

  -- `mark_delivered`
  unfoldable pub mark_delivered : MarketEvent F → ClientSession F → ClientSession F
  mark_delivered event s = record s { last_price = insert event.symbol event.bid s.last_price }

module _ {F : Type 0} ⦃n : Numbers F⦄ where
  -- `spread > max_spread`
  unfoldable pub spread_too_wide : MarketEvent F → Option F → Bool
  spread_too_wide event none = false
  spread_too_wide event (some max_spread) = n.lt max_spread (n.sub event.ask event.bid)

  -- `PERCENT_EPSILON`, that is `1e-9`
  abbrev percent_epsilon : F
  percent_epsilon = n.literal 1 1000000000

  -- `abs((event.bid - last) / last) * 100`
  abbrev change_pct : MarketEvent F → F → F
  change_pct event last = n.mul (n.abs (n.div (n.sub event.bid last) last)) (n.literal 100 1)

  -- `change_pct + PERCENT_EPSILON < min_change_pct`, where there is a last price other than 0
  unfoldable pub change_too_small : MarketEvent F → Option F → Option F → Bool
  change_too_small event none last = false
  change_too_small event (some min_change_pct) none = false
  change_too_small event (some min_change_pct) (some last) =
      not (n.eq last n.zero_f)
      && n.lt (n.add (change_pct event last) percent_epsilon) min_change_pct

  unfoldable pub should_deliver : MarketEvent F → ClientSession F → Bool
  should_deliver event s = elim (lookup event.symbol s.filters) [
    | none ↦ true
    | some f ↦
        if spread_too_wide event f.max_spread
        then false
        else not (change_too_small event f.min_change_pct (lookup event.symbol s.last_price))
  ]

  -- `LatencyTracker.record`, with the time in milliseconds; `none` is an `OverflowError`.
  unfoldable pub record_latency : F → ℤ → List F → Option (List F)
  record_latency now_ms event_ts samples = elim (n.of_int event_ts) [
    | none ↦ none
    | some t ↦
        let all = samples ++ n.sub now_ms t ∷ [] in
        some (if ltb max_samples (length all) then drop 1 all else all)
  ]

  -- `if event_ts: self.stats.latency.record(event_ts)`, `None` and 0 being false. A text or a list
  -- there would raise; no message of the gateway has one.
  unfoldable pub record_message : F → Message F → List F → Option (List F)
  unfolding record_latency
  record_message now_ms message samples = elim (get "event_ts" message) [
    | some (int event_ts) ↦
        if beq_ℤ event_ts (pos 0) then some samples else record_latency now_ms event_ts samples
    | _ ↦ some samples
  ]

  -- `self.stats.sent += 1`
  abbrev pub count_sent : ClientSession F → ClientSession F
  count_sent s = record s { stats = record s.stats { sent = s.stats.sent + 1 } }

  -- A send that succeeded: the counter, and the latency sample. An exception of the latter
  -- disconnects, as one of the send does.
  unfoldable pub after_send : F → Message F → ClientSession F → ClientSession F
  unfolding record_message
  after_send now_ms message s = elim (record_message now_ms message s.stats.samples) [
    | none ↦ record (count_sent s) { disconnected = true }
    | some samples ↦ record s {
      stats = record s.stats { sent = s.stats.sent + 1; samples = samples };
    }
  ]

  -- One round of `_writer_loop`: at time `now_ms`, with `send_ok` telling whether the WebSocket
  -- takes the message. The list is what was sent. On an empty queue `wait_for` times out.
  unfoldable pub writer_round : Bool → F → ClientSession F → ClientSession F × List (Message F)
  unfolding after_send
  writer_round send_ok now_ms s = if s.disconnected then (s, []) else elim (get_nowait s.queue) [
    | none ↦ (s, [])
    | some (message, rest) ↦
        if send_ok
        then (after_send now_ms message (record s { queue = rest }), message ∷ [])
        else (record s { queue = rest; disconnected = true }, [])
  ]

-- `close`, the cancelled writer task and the closed WebSocket left out
unfoldable pub close : {F : Type 0} → ClientSession F → ClientSession F
close s = record s { disconnected = true }
