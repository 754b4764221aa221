-- ===== src/Tests/Sessions.antt =====
-- One client (src/gateway/session.py): examples.
use realtime_market_data_pla.Common.{
  ℕ, ◌≤◌, ◌≡◌, refl, ap, ◌↔◌, ◌⊎◌, true, false, some, List, [], ◌∷◌, arith, length, last_n, nat_Key,
  string_Key, pair_Key,
}
use realtime_market_data_pla.Models.{get, Message, field, str, end}
use realtime_market_data_pla.Session.Delivery.{
  Trace as SessionTrace, run as run_session, Accounts, Action, run-Accounts, offer, round,
}
use realtime_market_data_pla.Session.{
  enqueue, should_deliver, classify_sequence, SubscriptionFilter, ClientSession, replace_oldest,
  SlowConsumerPolicy, signal_slow, spread_too_wide, change_too_small, record_latency,
  record_message, after_send, writer_round,
}
use realtime_market_data_pla.Common.Int.{add_one, pos, ◌≤ℤ◌, ◌<ℤ◌}
use realtime_market_data_pla.Common.Dict.{lookup, insert}
use realtime_market_data_pla.Session.Latency.{record_all, record_all-last_n, latencies}
use realtime_market_data_pla.Session.Outbound.{
  enqueue-disconnect, enqueue-drop_oldest, enqueue_bound,
}
use realtime_market_data_pla.Tests.Data.{stuffed, quoted, connected}
use realtime_market_data_pla.Session.Sequence.{
  classify_sequence-Decides, classify_sequence-Advances,
}
use realtime_market_data_pla.Session.Filter.{Passes, should_deliver_iff}
use realtime_market_data_pla.Common.Queue.{put_nowait, get_nowait}
use realtime_market_data_pla.Session.Delivery.{step}
use mathlib.Core.List.Sublist
use realtime_market_data_pla.Tests.Data.{naturals}
use realtime_market_data_pla.Common.Int.{pos_part, neg_part}

program : Unit {0}
unfolding classify_sequence enqueue replace_oldest signal_slow put_nowait get_nowait should_deliver
    spread_too_wide change_too_small record_latency record_message record_all latencies insert
    lookup pos_part neg_part add_one connected step run_session after_send writer_round get
program = tt

-- A client that has seen number 4 of a symbol.
abbrev after_4 : ClientSession ℕ
after_4 = record (connected SlowConsumerPolicy.drop_oldest) { last_seq = ("AAPL", pos 4) ∷ [] }

-- Number 6 is a gap in RAW mode.
classify_sequence-Decides_example : (true ≡ true) × (add_one (pos 4) <ℤ pos 6)
unfolding program
classify_sequence-Decides_example = classify_sequence-Decides "AAPL" (pos 6) true after_4

classify_sequence-Advances_example : pos 4 ≤ℤ pos 5
unfolding program
classify_sequence-Advances_example = classify_sequence-Advances "AAPL" "AAPL" (pos 5) true after_4

abbrev note : Message ℕ
note = field "type" (str "note") end

enqueue-drop_oldest_example :
    (enqueue note (stuffed SlowConsumerPolicy.drop_oldest)).0.stats.dropped ≡ 1
unfolding program
enqueue-drop_oldest_example =
    ap (λ r. r.0.stats.dropped)
      (enqueue-drop_oldest note (stuffed SlowConsumerPolicy.drop_oldest) refl refl)

enqueue_bound_example : length (enqueue note (stuffed SlowConsumerPolicy.drop_oldest)).0.queue ≤ 500
enqueue_bound_example = enqueue_bound note (stuffed SlowConsumerPolicy.drop_oldest) (omega arith)

-- A client with 99 drops.
abbrev almost_out : ClientSession ℕ
almost_out = record (stuffed SlowConsumerPolicy.disconnect) {
  stats = record (stuffed SlowConsumerPolicy.disconnect).stats { dropped = 99 };
}

-- The hundredth drop disconnects.
enqueue-disconnect_example :
    ((enqueue note almost_out).1 ≡ false)
    × ((enqueue note almost_out).0.queue ≡ almost_out.queue)
    × ((enqueue note almost_out).0.stats.dropped ≡ 100)
    × (((enqueue note almost_out).0.disconnected ≡ true) ↔ ((false ≡ true) ⊎ (100 ≤ 100)))
unfolding program
enqueue-disconnect_example = enqueue-disconnect note almost_out refl refl

abbrev picky : SubscriptionFilter ℕ
picky = record { min_change_pct = some 1; max_spread = some 1 }

-- A client that wants a spread of at most 1.
abbrev filtering : ClientSession ℕ
filtering = record (connected SlowConsumerPolicy.drop_oldest) { filters = ("AAPL", picky) ∷ [] }

should_deliver_iff_example : (should_deliver (quoted "AAPL" 1 100) filtering ≡ true) ↔ (
    (f : SubscriptionFilter ℕ)
    → lookup "AAPL" filtering.filters ≡ some f
    → Passes (quoted "AAPL" 1 100) f (lookup "AAPL" filtering.last_price))
should_deliver_iff_example = should_deliver_iff (quoted "AAPL" 1 100) filtering

record_all-last_n_example :
    record_all {F = ℕ} ((1005, pos 1000) ∷ (1010, pos 1003) ∷ []) [] ≡ some (5 ∷ 7 ∷ [])
unfolding program last_n
record_all-last_n_example =
    record_all-last_n ((1005, pos 1000) ∷ (1010, pos 1003) ∷ []) [] (5 ∷ 7 ∷ []) refl

abbrev opening : SessionTrace ℕ
opening = record { session = connected SlowConsumerPolicy.drop_oldest; offered = []; sent = [] }

opening-Accounts : Accounts opening
unfolding program
opening-Accounts = record {
  policy = refl;
  bound = omega arith;
  gone = [];
  split = refl;
  order = Sublist.refl [];
  counted = refl;
  failed = 0;
  total = refl;
  failed_once = omega arith;
  failed_stops = λ e. refl;
}

abbrev work : List (Action ℕ)
work = offer note ∷ round true 0 ∷ offer note ∷ round false 0 ∷ offer note ∷ []

run-Accounts_example : Accounts (run_session opening work)
run-Accounts_example = run-Accounts opening work opening-Accounts
