-- ===== src/Gateway/Dispatch.antt =====
-- `client_dispatch_loop` of src/gateway/gateway.py: from the aggregator of a client to its queue.
pub mod Effects
pub mod Rising
pub mod Order
use realtime_market_data_pla.Common.{
  ℕ, zero, suc, ◌+◌, ◌-◌, ◌*◌, ◌/◌, ◌%◌, ◌≤◌, ◌<◌, min, max, String, ◌≡◌, refl, sym, ap, ap₂, subst,
  ◌∙◌, ◌≢◌, ◌↔◌, ◌⊎◌, inl, inr, Bool, true, false, not, ◌&&◌, ◌||◌, Option, none, some, List, [],
  ◌∷◌, ◌++◌, map, append-nil, append_assoc, arith, length, drop, last_n, length-append, All,
  All-append, contains, ltb, leb, if◌then◌else◌, Key, ◌==◌, nat_Key, string_Key, pair_Key, beq_refl,
  Bool-cases, Option-cases,
}
use realtime_market_data_pla.Models.{
  MarketEvent, SnapshotData, Numbers, Message, field, str, event_dict, snapshot_dict,
}
use realtime_market_data_pla.Common.Int.{ℤ, ltb_ℤ}
use realtime_market_data_pla.Session.{
  ClientSession, should_deliver, classify_sequence, SequenceDecision, enqueue, stale, gap,
  mark_delivered, next,
}
use realtime_market_data_pla.Common.Dict.{lookup, insert}
use realtime_market_data_pla.Aggregator.{is_raw}

-- `snapshot_store.get`: a snapshot, none, or an exception.
pub data Fetch (F : Type 0) : Type 0 where
  fetched : Option (SnapshotData F) → Fetch F
  failed : Fetch F

-- A message that `enqueue` took, with the symbol and the sequence number that it carries.
pub record Delivery (F : Type 0) : Type 0 where
  pub symbol : String
  pub seq : ℤ
  pub message : Message F

-- A turn of the event loop: a round of the dispatch loop, with the answer of the store and what other
-- tasks do meanwhile, or another task's work on the session.
pub data Turn (F : Type 0) : Type 0 where
  arrives : Fetch F → (ClientSession F → ClientSession F) → MarketEvent F → Turn F
  other : (ClientSession F → ClientSession F) → Turn F

-- What the loop leaves: the session, whether the loop goes on, and what the queue took.
pub record Outcome (F : Type 0) : Type 0 where
  pub session : ClientSession F
  pub running : Bool
  pub delivered : List (Delivery F)

-- `previous_seq is None or snapshot.seq > previous_seq`
unfoldable pub is_newer : ℤ → Option ℤ → Bool
is_newer seq none = true
is_newer seq (some previous) = ltb_ℤ previous seq

module _ {F : Type 0} where
  -- `{"type": "snapshot", **snapshot.to_dict()}`
  unfoldable pub snapshot_message : SnapshotData F → Message F
  snapshot_message d = field "type" (str "snapshot") (snapshot_dict d)

  abbrev pub quiet : ClientSession F → Outcome F
  quiet s = record { session = s; running = true; delivered = [] }

  -- `self.last_seq[symbol] = snapshot.seq`, and the price
  unfoldable pub seed_snapshot : String → SnapshotData F → ClientSession F → ClientSession F
  seed_snapshot symbol d s = record s {
    last_seq = insert symbol d.seq s.last_seq;
    last_price = insert symbol d.bid s.last_price;
  }

  -- The GAP branch, once the snapshot is there.
  unfoldable pub recover : String → Option (SnapshotData F) → ClientSession F → Outcome F
  recover symbol none s = quiet s
  recover symbol (some d) s =
      if is_newer d.seq (lookup symbol s.last_seq)
      then (let (s', taken) = enqueue (snapshot_message d) s in
          if taken
          then record {
            session = seed_snapshot symbol d s';
            running = true;
            delivered = record { symbol = symbol; seq = d.seq; message = snapshot_message d } ∷ [];
          }
          else quiet s')
      else quiet s

  -- The GAP branch. The exception of a fetch that fails ends the loop.
  unfoldable pub on_gap : Fetch F → MarketEvent F → ClientSession F → Outcome F
  on_gap (fetched snapshot) event s = recover event.symbol snapshot s
  on_gap failed event s = record { session = s; running = false; delivered = [] }

module _ {F : Type 0} ⦃n : Numbers F⦄ where
  -- The rest of the loop's body, for an event that is next.
  unfoldable pub deliver : MarketEvent F → ClientSession F → Outcome F
  deliver event s =
      if should_deliver event s
      then (let (s', taken) = enqueue (event_dict event) s in
          if taken
          then record {
            session = mark_delivered event s';
            running = true;
            delivered =
                record { symbol = event.symbol; seq = event.seq; message = event_dict event } ∷ [];
          }
          else quiet s')
      else quiet s

  -- What follows a decision. While the store answers, other tasks may work on the session.
  unfoldable pub act :
      SequenceDecision
      → Fetch F
      → (ClientSession F → ClientSession F)
      → MarketEvent F
      → ClientSession F
      → Outcome F
  act stale fetch meanwhile event s = quiet s
  act gap fetch meanwhile event s = on_gap fetch event (meanwhile s)
  act next fetch meanwhile event s = deliver event s

  -- One round of the loop. `fetch` is what the store answers if it is asked.
  unfoldable pub dispatch :
      Fetch F → (ClientSession F → ClientSession F) → MarketEvent F → ClientSession F → Outcome F
  dispatch fetch meanwhile event s =
      let (decision, s') = classify_sequence event.symbol event.seq (is_raw s.aggregator.mode) s in
      act decision fetch meanwhile event s'

  -- The loop, with what other tasks do to the session between its rounds.
  unfoldable pub dispatch_loop : List (Turn F) → ClientSession F → Outcome F
  dispatch_loop [] s = quiet s
  dispatch_loop (other task ∷ turns) s = dispatch_loop turns (task s)
  dispatch_loop (arrives fetch meanwhile event ∷ turns) s =
      let first = dispatch fetch meanwhile event s in
      let later = dispatch_loop turns first.session in
      if first.running
      then record later { delivered = first.delivered ++ later.delivered }
      else first
