-- ===== src/Tests/Data.antt =====
-- The values that the examples run on: prices are natural numbers.
use realtime_market_data_pla.Common.{
  ℕ, zero, suc, ◌+◌, ◌-◌, ◌*◌, ◌/◌, String, true, Option, none, some, List, [], ◌∷◌, ltb, ◌==◌,
  nat_Key, string_Key, pair_Key, ap,
}
use realtime_market_data_pla.Session.{init as new_session, SlowConsumerPolicy, ClientSession, json}
use realtime_market_data_pla.Aggregator.{init as new_buffer, raw}
use realtime_market_data_pla.Models.{
  Numbers, SnapshotData, MarketEvent, Message, field, quote, int, end, PrintsBack,
}
use realtime_market_data_pla.Common.Int.{ℤ, pos, negsuc}
use realtime_market_data_pla.Tests.Printing.{
  text_of, size, text_of_int, int_of_text, size-text_of, int_of_text-text_of_int,
}

abbrev float_of : ℤ → Option ℕ
float_of (pos k) = some k
float_of (negsuc k) = none

-- Subtraction stops at 0, and a division by 0 gives 0.
instance abbrev pub naturals : Numbers ℕ
naturals = record {
  add = λ x y. x + y;
  sub = λ x y. x - y;
  mul = λ x y. x * y;
  div = λ x y. x / y;
  abs = λ x. x;
  lt = ltb;
  eq = λ x y. x == y;
  is_finite = λ x. true;
  round_2 = λ x. x;
  zero_f = 0;
  literal = λ x y. x / y;
  of_int = float_of;
  int_of_float = λ x. some (pos x);
  text_of_float = text_of;
  text_of_int = text_of_int;
  float_of_text = λ t. some (size t);
  int_of_text = int_of_text;
}

pub naturals-PrintsBack : PrintsBack naturals
unfolding text_of size text_of_int int_of_text
naturals-PrintsBack = record {
  float-text = λ x. ap some (size-text_of x);
  int-text = int_of_text-text_of_int;
}

-- A quote of a symbol, by its sequence number and its bid.
abbrev pub quoted : String → ℕ → ℕ → MarketEvent ℕ
quoted symbol seq bid = record {
  symbol = symbol;
  bid = bid;
  ask = bid + 2;
  bid_size = pos 100;
  ask_size = pos 200;
  event_ts = pos 1000;
  server_ts = pos 1001;
  seq = pos seq;
  type = quote;
  last_price = bid + 1;
  last_size = pos 10;
}

abbrev pub snapshot_at : ℕ → ℕ → SnapshotData ℕ
snapshot_at seq bid = record {
  symbol = "AAPL";
  bid = bid;
  ask = bid + 2;
  bid_size = pos 100;
  ask_size = pos 200;
  seq = pos seq;
  ts = pos 1001;
}

-- A client that has just connected.
unfoldable pub connected : SlowConsumerPolicy → ClientSession ℕ
unfolding new_session new_buffer
connected policy = new_session "c-1" policy json 0 (new_buffer raw)

-- The same with a full queue, each message with its number in it.
abbrev numbered : ℕ → List (Message ℕ)
numbered zero = []
numbered (suc k) = field "seq" (int (pos k)) end ∷ numbered k

abbrev pub stuffed : SlowConsumerPolicy → ClientSession ℕ
stuffed policy = record (connected policy) { queue = numbered 500 }
