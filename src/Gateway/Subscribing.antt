-- ===== src/Gateway/Subscribing.antt =====
-- Subscription of one client to one symbol: `_subscribe` and the buffering of `_fanout_event`
-- (src/gateway/gateway.py). While the snapshot is fetched, events of the symbol are buffered.
pub mod Replay
use realtime_market_data_pla.Common.{
  ℕ, zero, suc, ◌+◌, ◌-◌, ◌*◌, ◌/◌, ◌%◌, ◌≤◌, ◌<◌, min, max, String, ◌≡◌, refl, sym, ap, ap₂, subst,
  ◌∙◌, ◌≢◌, ◌↔◌, ◌⊎◌, inl, inr, Bool, true, false, not, ◌&&◌, ◌||◌, Option, none, some, List, [],
  ◌∷◌, ◌++◌, map, append-nil, append_assoc, arith, dec_lt, length, drop, take, last_n,
  length-append, All, All-append, All-map, contains, ltb, leb, if◌then◌else◌, Key, ◌==◌, nat_Key,
  string_Key, pair_Key, beq_refl, Bool-cases, Option-cases,
}
use realtime_market_data_pla.Models.{SnapshotData, MarketEvent, field, str, end}
use realtime_market_data_pla.Percentile.{sorted}
use realtime_market_data_pla.Session.{ClientSession, SubscriptionFilter, enqueue}
use realtime_market_data_pla.Gateway.Dispatch.{
  Fetch, snapshot_message, fetched, seed_snapshot, failed,
}
use realtime_market_data_pla.Common.Int.{ltb_ℤ}
use realtime_market_data_pla.Common.Dict.{Dict, delete, insert}
use realtime_market_data_pla.Aggregator.{AggregationBuffer, push}
use Prim.Native.String.{◌++◌ as concat}

abbrev pub initialization_buffer_max_size : ℕ
initialization_buffer_max_size = 500

pub record SubscriptionInitialization (F : Type 0) : Type 0 where
  pub events : List (MarketEvent F)
  pub overflowed : Bool

-- How `_subscribe` ends once it has its answer from the store: registered, or with an exception.
pub record Subscribed (F : Type 0) : Type 0 where
  pub session : ClientSession F
  pub registered : Bool

-- `session.subscriptions.add(symbol)`
unfoldable pub add_symbol : String → List String → List String
unfolding contains
add_symbol symbol symbols = if contains symbol symbols then symbols else symbols ++ symbol ∷ []

unfoldable pub failure_text : String → String
failure_text symbol = concat "subscription failed for " symbol

module _ {F : Type 0} where
  unfoldable pub new_initialization : SubscriptionInitialization F
  new_initialization = record { events = []; overflowed = false }

  -- what `_fanout_event` does to an initialization of the event's symbol
  unfoldable pub buffer_event :
      MarketEvent F → SubscriptionInitialization F → SubscriptionInitialization F
  buffer_event event i =
      if leb initialization_buffer_max_size (length i.events)
      then record i { overflowed = true }
      else record i { events = i.events ++ event ∷ [] }

  unfoldable pub buffer_all :
      List (MarketEvent F) → SubscriptionInitialization F → SubscriptionInitialization F
  unfolding buffer_event
  buffer_all [] i = i
  buffer_all (event ∷ events) i = buffer_all events (buffer_event event i)

  -- `snapshot is None or event.seq > snapshot.seq`
  unfoldable pub is_after : Option (SnapshotData F) → MarketEvent F → Bool
  is_after none event = true
  is_after (some d) event = ltb_ℤ d.seq event.seq

  -- the order of `sorted(..., key=lambda item: item.seq)`
  unfoldable pub seq_lt : MarketEvent F → MarketEvent F → Bool
  seq_lt a b = ltb_ℤ a.seq b.seq

  -- `for event in ...: if ...: session.aggregator.push(event)`
  unfoldable pub replay :
      Option (SnapshotData F) → List (MarketEvent F) → AggregationBuffer F → AggregationBuffer F
  unfolding is_after
  replay snapshot [] a = a
  replay snapshot (event ∷ events) a =
      replay snapshot events (if is_after snapshot event then push event a else a)

  -- `session.filters`, set or popped
  unfoldable pub set_filter :
      String
      → Option (SubscriptionFilter F)
      → Dict String (SubscriptionFilter F)
      → Dict String (SubscriptionFilter F)
  set_filter symbol none filters = delete symbol filters
  set_filter symbol (some f) filters = insert symbol f filters

  -- the locked block, behind the snapshot message
  unfoldable pub register :
      String
      → Option (SubscriptionFilter F)
      → Option (SnapshotData F)
      → SubscriptionInitialization F
      → ClientSession F
      → ClientSession F
  unfolding replay add_symbol set_filter sorted seq_lt
  register symbol f snapshot i s = record s {
    aggregator = replay snapshot (sorted seq_lt i.events) s.aggregator;
    subscriptions = add_symbol symbol s.subscriptions;
    filters = set_filter symbol f s.filters;
  }

  -- `session.enqueue({"error": ...})` of the handler of the exception
  unfoldable pub refuse : String → ClientSession F → Subscribed F
  refuse text s = record {
    session = (enqueue (field "error" (str text) end) s).0;
    registered = false;
  }

  -- `_subscribe` from the answer of `snapshot_store.get` on; `i` is the entry of the session in
  -- `initializing_subscriptions`, `none` if a cleanup has taken it away.
  unfoldable pub send_snapshot :
      String
      → Option (SubscriptionFilter F)
      → Option (SnapshotData F)
      → SubscriptionInitialization F
      → ClientSession F
      → Subscribed F
  unfolding register refuse failure_text
  send_snapshot symbol f none i s = record {
    session = register symbol f none i s;
    registered = true;
  }
  send_snapshot symbol f (some d) i s =
      let (s', taken) = enqueue (snapshot_message d) s in
      if taken
      then record {
        session = register symbol f (some d) i (seed_snapshot symbol d s');
        registered = true;
      }
      else refuse (failure_text symbol) s'

  unfoldable pub finish_subscribe :
      String
      → Option (SubscriptionFilter F)
      → Fetch F
      → Option (SubscriptionInitialization F)
      → ClientSession F
      → Subscribed F
  unfolding send_snapshot refuse failure_text
  finish_subscribe symbol f failed i s = refuse (failure_text symbol) s
  finish_subscribe symbol f (fetched snapshot) none s = refuse (failure_text symbol) s
  finish_subscribe symbol f (fetched snapshot) (some i) s =
      if i.overflowed then refuse (failure_text symbol) s else send_snapshot symbol f snapshot i s
