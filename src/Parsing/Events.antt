-- ===== src/Parsing/Events.antt =====
-- The three parsers of market events: `_parse_pubsub_event` of src/gateway/gateway.py, and
-- `_parse_event` of src/engine/engine.py and of src/storage/tick_writer.py. `json.loads` is a
-- parameter; `none` is its exception.
use realtime_market_data_pla.Common.{
  String, ◌≡◌, refl, Option, none, some, arith, if◌then◌else◌, ◌==◌, nat_Key, string_Key, pair_Key,
}
use realtime_market_data_pla.Models.{
  MarketEvent, EventType, Numbers, Json, type_value, event_dict, quote, trade, obj, str, Fields,
  get, bool, snapshot, int, float, arr, null,
}
use realtime_market_data_pla.Common.Int.{ℤ, pos}

infixl 20 ◌>>=◌
abbrev ◌>>=◌ : {A B : Type 0} → Option A → (A → Option B) → Option B
none >>= f = none
some a >>= f = f a

-- What a parser makes of a message: an event, or none because of an exception. A symbol that is no
-- text goes into the event as it is; what becomes of it is not modelled.
pub data Parsed (F : Type 0) : Type 0 where
  valid : MarketEvent F → Parsed F
  rejected : Parsed F
  symbol_not_text : Parsed F

-- `EventType(text)`; `none` is a `ValueError`.
unfoldable pub event_type_of_text : String → Option EventType
event_type_of_text t =
    if t == "quote"
    then some quote
    else if t == "trade"
    then some trade
    else if t == "snapshot"
    then some snapshot
    else none

type_round : (t : EventType) → event_type_of_text (type_value t) ≡ some t
unfolding event_type_of_text
type_round quote = refl
type_round trade = refl
type_round snapshot = refl

module _ {F : Type 0} ⦃n : Numbers F⦄ where
  -- `float(value)`
  unfoldable pub to_float : Json F → Option F
  to_float null = none
  to_float (bool b) = n.of_int (pos (if b then 1 else 0))
  to_float (int i) = n.of_int i
  to_float (float x) = some x
  to_float (str t) = n.float_of_text t
  to_float (arr xs) = none
  to_float (obj fs) = none

  -- `int(value)`
  unfoldable pub to_int : Json F → Option ℤ
  to_int null = none
  to_int (bool b) = some (pos (if b then 1 else 0))
  to_int (int i) = some i
  to_int (float x) = n.int_of_float x
  to_int (str t) = n.int_of_text t
  to_int (arr xs) = none
  to_int (obj fs) = none

  -- `EventType(raw.get("type", "quote"))`
  unfoldable pub to_event_type : Option (Json F) → Option EventType
  to_event_type none = some quote
  to_event_type (some (str t)) = event_type_of_text t
  to_event_type (some _) = none

  -- The fields of the event, but for the symbol.
  unfoldable pub parse_numbers : Option ℤ → Fields F → Option (String → MarketEvent F)
  unfolding to_float to_int to_event_type event_type_of_text
  parse_numbers ts raw = do
    bid ← get "bid" raw >>= to_float
    ask ← get "ask" raw >>= to_float
    bid_size ← get "bid_size" raw >>= to_int
    ask_size ← get "ask_size" raw >>= to_int
    event_ts ← get "event_ts" raw >>= to_int
    server_ts ← ts
    seq ← get "seq" raw >>= to_int
    type ← to_event_type (get "type" raw)
    some (λ symbol. record {
      symbol = symbol;
      bid = bid;
      ask = ask;
      bid_size = bid_size;
      ask_size = ask_size;
      event_ts = event_ts;
      server_ts = server_ts;
      seq = seq;
      type = type;
      last_price = n.zero_f;
      last_size = pos 0;
    })

  -- The common body of the three parsers, with the value of `server_ts`.
  unfoldable pub parse_fields : Option ℤ → Fields F → Parsed F
  unfolding parse_numbers
  parse_fields server_ts raw = elim (parse_numbers server_ts raw) [
    | none ↦ rejected
    | some make ↦ elim (get "symbol" raw) [
      | none ↦ rejected
      | some (str symbol) ↦ valid (make symbol)
      | some _ ↦ symbol_not_text
    ]
  ]

  parse_fields-event_dict :
      (ts : ℤ) (e : MarketEvent F)
      → parse_fields (some ts) (event_dict e)
        ≡ valid (record e { server_ts = ts; last_price = n.zero_f; last_size = pos 0 })
  unfolding parse_fields event_dict get
  parse_fields-event_dict ts e = ground (arith, type_round e.type)

  module _ (loads : String → Option (Json F)) where
    -- `_parse_pubsub_event`, of data that is text
    unfoldable pub parse_pubsub_event : String → Parsed F
    unfolding parse_fields get
    parse_pubsub_event message = elim (loads message) [
      | some (obj raw) ↦ parse_fields (get "server_ts" raw >>= to_int) raw
      | _ ↦ rejected
    ]

    -- `TickWriter._parse_event`
    unfoldable pub parse_tick : String → Parsed F
    unfolding parse_fields get
    parse_tick message = elim (loads message) [
      | some (obj raw) ↦ parse_fields (get "server_ts" raw >>= to_int) raw
      | _ ↦ rejected
    ]

    -- `KafkaConsumerBridge._parse_event`, at the time `now_ms`
    unfoldable pub parse_kafka_event : ℤ → String → Parsed F
    unfolding parse_fields get
    parse_kafka_event now_ms message = elim (loads message) [
      | some (obj raw) ↦ parse_fields (some now_ms) raw
      | _ ↦ rejected
    ]

    -- An event that is printed with `to_dict` and `json.dumps`, and that `json.loads` reads back as
    -- the same object, is parsed by each of the three parsers, its last price and size reset; the
    -- engine's gives it the time of its receipt, the other two keep the server's.
    pub parse-event_dict :
        (dumps : Json F → String) (now_ms : ℤ) (e : MarketEvent F)
        → loads (dumps (obj (event_dict e))) ≡ some (obj (event_dict e))
        → (parse_pubsub_event (dumps (obj (event_dict e)))
            ≡ valid (record e { last_price = n.zero_f; last_size = pos 0 }))
          × (parse_tick (dumps (obj (event_dict e)))
              ≡ valid (record e { last_price = n.zero_f; last_size = pos 0 }))
          × (parse_kafka_event now_ms (dumps (obj (event_dict e)))
              ≡ valid (record e { server_ts = now_ms; last_price = n.zero_f; last_size = pos 0 }))
    unfolding parse_pubsub_event parse_tick parse_kafka_event event_dict
    parse-event_dict dumps now_ms e h =
        rw (h, parse_pubsub_event, parse_tick, parse_kafka_event)
          (
            parse_fields-event_dict e.server_ts e,
            parse_fields-event_dict e.server_ts e,
            parse_fields-event_dict now_ms e,
          )
