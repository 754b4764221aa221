-- ===== src/Gateway/Subscribing/Replay.antt =====
-- What a subscription (`_subscribe` of src/gateway/gateway.py) delivers of the events that arrive
-- while its snapshot is fetched.
use realtime_market_data_pla.Common.{
  ◌+◌, ◌≤◌, ◌<◌, String, ◌≡◌, refl, ap, ◌∙◌, inl, inr, true, false, Option, none, some, List, [],
  ◌∷◌, ◌++◌, append-nil, append_assoc, arith, length, length-append, contains, All, if◌then◌else◌,
  nat_Key, string_Key, pair_Key, beq_refl, Bool-cases,
}
use realtime_market_data_pla.Gateway.Subscribing.{
  finish_subscribe, register, buffer_all, replay, new_initialization, buffer_event, add_symbol,
  send_snapshot, initialization_buffer_max_size, is_after, Subscribed, seq_lt,
}
use realtime_market_data_pla.Models.{SnapshotData, MarketEvent}
use realtime_market_data_pla.Session.{SubscriptionFilter, ClientSession, queue_max_size}
use realtime_market_data_pla.Aggregator.Raw.{push_all}
use realtime_market_data_pla.Aggregator.{AggregationBuffer, push}
use realtime_market_data_pla.Gateway.Dispatch.{seed_snapshot, fetched, snapshot_message}
use realtime_market_data_pla.Percentile.{sorted, sorted-perm}
use realtime_market_data_pla.Percentile.Rank.{IsOrder, IsSorted, sorted-IsSorted}
use realtime_market_data_pla.Common.Int.{◌≤ℤ◌, ◌<ℤ◌}
use mathlib.Core.List.{Perm}
use realtime_market_data_pla.Session.Outbound.{enqueue_room}

contains-append_here :
    (symbol : String) (xs : List String) → contains symbol (xs ++ symbol ∷ []) ≡ true
unfolding contains
contains-append_here symbol [] = ground (arith, beq_refl {A = String} symbol)
contains-append_here symbol (x ∷ xs) = ground (arith, contains-append_here symbol xs)

contains-add_symbol :
    (symbol : String) (xs : List String) → contains symbol (add_symbol symbol xs) ≡ true
unfolding add_symbol
contains-add_symbol symbol xs = ground (arith, contains-append_here symbol xs)

module _ {F : Type 0} where
  -- The events that the snapshot has not overtaken.
  unfoldable pub newer : Option (SnapshotData F) → List (MarketEvent F) → List (MarketEvent F)
  newer snapshot [] = []
  newer snapshot (event ∷ events) =
      if is_after snapshot event then event ∷ newer snapshot events else newer snapshot events

  replay-push_all :
      (snapshot : Option (SnapshotData F)) (events : List (MarketEvent F)) (a : AggregationBuffer F)
      → replay snapshot events a ≡ push_all (newer snapshot events) a
  unfolding replay newer push_all
  replay-push_all snapshot [] a = refl
  replay-push_all snapshot (event ∷ events) a = elim (Bool-cases (is_after snapshot event)) [
    | inl later ↦ rw (later, push_all) (replay-push_all snapshot events (push event a))
    | inr earlier ↦ rw earlier (replay-push_all snapshot events a)
  ]

  buffer_event_room :
      (event : MarketEvent F) (before : List (MarketEvent F))
      → length before < initialization_buffer_max_size
      → buffer_event event (record { events = before; overflowed = false })
        ≡ record { events = before ++ event ∷ []; overflowed = false }
  unfolding buffer_event
  buffer_event_room event before h = ground arith

  buffer_all-append :
      (before events : List (MarketEvent F))
      → length before + length events ≤ initialization_buffer_max_size
      → buffer_all events (record { events = before; overflowed = false })
        ≡ record { events = before ++ events; overflowed = false }
  unfolding buffer_all
  buffer_all-append before [] h = rw (append-nil before) refl
  buffer_all-append before (event ∷ events) h = rw (buffer_event_room event before (omega arith)) (
      buffer_all-append (before ++ event ∷ []) events
        (omega (arith, length-append before (event ∷ [])))
      ∙ ap (λ xs. record { events = xs; overflowed = false })
          (append_assoc before (event ∷ []) events))

  -- Up to five hundred events are all buffered, in order.
  buffer_all-new :
      (events : List (MarketEvent F))
      → length events ≤ initialization_buffer_max_size
      → buffer_all events new_initialization ≡ record { events = events; overflowed = false }
  unfolding new_initialization
  buffer_all-new events h = buffer_all-append [] events (omega arith)

  -- The numbers do not fall.
  abbrev pub IsRising : List (MarketEvent F) → Type 0
  IsRising [] = Unit
  IsRising (event ∷ events) = All (λ e. event.seq ≤ℤ e.seq) events × IsRising events

  -- The event has a number above that of the snapshot, or there is no snapshot.
  abbrev pub IsBeyond : Option (SnapshotData F) → MarketEvent F → Type 0
  IsBeyond none event = Unit
  IsBeyond (some d) event = d.seq <ℤ event.seq

  -- The second list has, in their order, exactly those events of the first that are beyond the
  -- snapshot.
  pub data Keeps (snapshot : Option (SnapshotData F))
      : List (MarketEvent F) → List (MarketEvent F) → Type 0 where
    nothing : Keeps snapshot [] []
    keeps :
        {event : MarketEvent F} {events kept : List (MarketEvent F)}
        → IsBeyond snapshot event
        → Keeps snapshot events kept
        → Keeps snapshot (event ∷ events) (event ∷ kept)
    skips :
        {event : MarketEvent F} {events kept : List (MarketEvent F)}
        → ¬ IsBeyond snapshot event
        → Keeps snapshot events kept
        → Keeps snapshot (event ∷ events) kept

  is_after-IsBeyond :
      (snapshot : Option (SnapshotData F)) (event : MarketEvent F)
      → is_after snapshot event ≡ true
      → IsBeyond snapshot event
  unfolding is_after
  is_after-IsBeyond none event h = tt
  is_after-IsBeyond (some d) event h = ground arith

  overtaken :
      (snapshot : Option (SnapshotData F)) (event : MarketEvent F)
      → is_after snapshot event ≡ false
      → ¬ IsBeyond snapshot event
  unfolding is_after
  overtaken none event h = absurd (ground arith)
  overtaken (some d) event h = λ beyond. ground arith

  newer-Keeps :
      (snapshot : Option (SnapshotData F)) (events : List (MarketEvent F))
      → Keeps snapshot events (newer snapshot events)
  unfolding newer
  newer-Keeps snapshot [] = nothing
  newer-Keeps snapshot (event ∷ events) = elim (Bool-cases (is_after snapshot event)) [
    | inl later ↦
        rw later (keeps (is_after-IsBeyond snapshot event later) (newer-Keeps snapshot events))
    | inr earlier ↦
        rw earlier (skips (overtaken snapshot event earlier) (newer-Keeps snapshot events))
  ]

  seq_lt-IsOrder : IsOrder (seq_lt {F = F})
  unfolding seq_lt
  seq_lt-IsOrder = record { asym = λ a b h. ground arith; negation = λ a b c h k. ground arith }

  not_below :
      (event : MarketEvent F) (events : List (MarketEvent F))
      → All (λ e. seq_lt e event ≡ false) events
      → All (λ e. event.seq ≤ℤ e.seq) events
  unfolding seq_lt
  not_below event [] h = tt
  not_below event (e ∷ events) (h, rest) = (ground arith, not_below event events rest)

  sorted-IsRising : (events : List (MarketEvent F)) → IsSorted seq_lt events → IsRising events
  sorted-IsRising [] h = tt
  sorted-IsRising (event ∷ events) (h, rest) =
      (not_below event events h, sorted-IsRising events rest)

  -- The client is registered for the symbol, and what is pushed to its aggregator is what an
  -- arrangement of the events with rising numbers keeps beyond the snapshot.
  abbrev pub Replayed :
      String
      → Option (SnapshotData F)
      → List (MarketEvent F)
      → ClientSession F
      → Subscribed F
      → Type 0
  Replayed symbol snapshot events s r =
      (r.registered ≡ true)
      × (contains symbol r.session.subscriptions ≡ true)
      × ((arranged : List (MarketEvent F)) × (kept : List (MarketEvent F)) × Perm arranged events
          × IsRising arranged
          × Keeps snapshot arranged kept
          × (r.session.aggregator ≡ push_all kept s.aggregator))

  register-Replayed :
      (symbol : String) (f : Option (SubscriptionFilter F)) (snapshot : Option (SnapshotData F))
      (events : List (MarketEvent F)) (s : ClientSession F)
      → Replayed symbol snapshot events s (record {
        session = register symbol f snapshot (record { events = events; overflowed = false }) s;
        registered = true;
      })
  unfolding register
  register-Replayed symbol f snapshot events s = (
    refl,
    contains-add_symbol symbol s.subscriptions,
    (
      sorted seq_lt events,
      newer snapshot (sorted seq_lt events),
      sorted-perm seq_lt events,
      sorted-IsRising (sorted seq_lt events) (sorted-IsSorted seq_lt seq_lt-IsOrder events),
      newer-Keeps snapshot (sorted seq_lt events),
      replay-push_all snapshot (sorted seq_lt events) s.aggregator,
    ),
  )

  -- If at most five hundred events of the symbol arrive while the store answers, and the queue has
  -- room for the snapshot, the subscription succeeds: the client is registered, and exactly those of
  -- the events whose number is above the snapshot's, all if there is none, are pushed to its
  -- aggregator, in an order in which the numbers do not fall.
  pub finish_subscribe-Replayed :
      (symbol : String) (f : Option (SubscriptionFilter F)) (snapshot : Option (SnapshotData F))
      (events : List (MarketEvent F)) (s : ClientSession F)
      → length events ≤ initialization_buffer_max_size
      → length s.queue < queue_max_size
      → Replayed symbol snapshot events s (
          finish_subscribe symbol f
            (fetched snapshot)
            (some (buffer_all events new_initialization))
            s)
  unfolding finish_subscribe send_snapshot seed_snapshot
  finish_subscribe-Replayed symbol f none events s few room =
      rw (buffer_all-new events few) (register-Replayed symbol f none events s)
  finish_subscribe-Replayed symbol f (some d) events s few room =
      rw (buffer_all-new events few, enqueue_room (snapshot_message d) s room)
        (register-Replayed symbol f (some d) events
          (seed_snapshot symbol d (record s { queue = s.queue ++ snapshot_message d ∷ [] })))
