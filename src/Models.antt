-- ===== src/Models.antt =====
-- src/models.py: market events and snapshots, the JSON values that they are sent as, and the numbers
-- of the Python runtime that the program computes with.
use realtime_market_data_pla.Common.{
  ℕ, ◌≡◌, Bool, Option, none, some, String, ◌==◌, string_Key, if◌then◌else◌,
}
use realtime_market_data_pla.Common.Int.{ℤ}

-- Python's `float` and its conversions. `none` is an exception: `OverflowError` where an `int` has
-- no `float`, `ValueError` where a text is no number. `literal a b` is the `float` of a literal, the
-- nearest one to a / b.
pub record Numbers (F : Type 0) : Type 0 where
  pub add : F → F → F
  pub sub : F → F → F
  pub mul : F → F → F
  pub div : F → F → F
  pub abs : F → F
  pub lt : F → F → Bool
  pub eq : F → F → Bool
  pub is_finite : F → Bool
  pub round_2 : F → F
  pub zero_f : F
  pub literal : ℕ → ℕ → F
  pub of_int : ℤ → Option F
  pub int_of_float : F → Option ℤ
  pub text_of_float : F → String
  pub text_of_int : ℤ → String
  pub float_of_text : String → Option F
  pub int_of_text : String → Option ℤ

-- What `repr` and the parsers promise: a printed number reads back as itself.
pub record PrintsBack {F : Type 0} (n : Numbers F) : Type 0 where
  pub float-text : (x : F) → n.float_of_text (n.text_of_float x) ≡ some x
  pub int-text : (i : ℤ) → n.int_of_text (n.text_of_int i) ≡ some i

-- The values that `json.loads` makes and `json.dumps` takes.
mutual
  pub data Json (F : Type 0) : Type 0 where
    null : Json F
    bool : Bool → Json F
    int : ℤ → Json F
    float : F → Json F
    str : String → Json F
    arr : Items F → Json F
    obj : Fields F → Json F

  pub data Items (F : Type 0) : Type 0 where
    nil : Items F
    item : Json F → Items F → Items F

  pub data Fields (F : Type 0) : Type 0 where
    end : Fields F
    field : String → Json F → Fields F → Fields F

-- `d.get(name)` on a `dict` with text keys
unfoldable pub get : {F : Type 0} → String → Fields F → Option (Json F)
get name end = none
get name (field k v fs) = if k == name then some v else get name fs

pub data EventType : Type 0 where
  quote trade snapshot : EventType

-- `EventType.value`
abbrev pub type_value : EventType → String
type_value quote = "quote"
type_value trade = "trade"
type_value snapshot = "snapshot"

pub record MarketEvent (F : Type 0) : Type 0 where
  pub symbol : String
  pub bid : F
  pub ask : F
  pub bid_size : ℤ
  pub ask_size : ℤ
  pub event_ts : ℤ
  pub server_ts : ℤ
  pub seq : ℤ
  pub type : EventType
  pub last_price : F
  pub last_size : ℤ

-- A message to a client is a `dict`.
abbrev pub Message : Type 0 → Type 0
Message F = Fields F

pub record SnapshotData (F : Type 0) : Type 0 where
  pub symbol : String
  pub bid : F
  pub ask : F
  pub bid_size : ℤ
  pub ask_size : ℤ
  pub seq : ℤ
  pub ts : ℤ

module _ {F : Type 0} where
  -- `MarketEvent.to_dict`
  unfoldable pub event_dict : MarketEvent F → Message F
  event_dict e = field "symbol" (str e.symbol) (
      field "bid" (float e.bid) (
        field "ask" (float e.ask) (
          field "bid_size" (int e.bid_size) (
            field "ask_size" (int e.ask_size) (
              field "event_ts" (int e.event_ts) (
                field "server_ts" (int e.server_ts) (
                  field "seq" (int e.seq) (
                    field "type" (str (type_value e.type)) (
                      field "last_price" (float e.last_price)
                        (field "last_size" (int e.last_size) end))))))))))

  -- `SnapshotData.to_dict`
  unfoldable pub snapshot_dict : SnapshotData F → Message F
  snapshot_dict d = field "symbol" (str d.symbol) (
      field "bid" (float d.bid) (
        field "ask" (float d.ask) (
          field "bid_size" (int d.bid_size) (
            field "ask_size" (int d.ask_size)
              (field "seq" (int d.seq) (field "ts" (int d.ts) end))))))

  -- `SnapshotData.from_event`
  unfoldable pub from_event : MarketEvent F → SnapshotData F
  from_event e = record {
    symbol = e.symbol;
    bid = e.bid;
    ask = e.ask;
    bid_size = e.bid_size;
    ask_size = e.ask_size;
    seq = e.seq;
    ts = e.server_ts;
  }
