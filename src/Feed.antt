-- ===== src/Feed.antt =====
-- `FeedSimulator` of src/feed/simulator.py: the events that it produces. Its random draws and the
-- clock are inputs.
pub mod Numbered
pub mod Accepted
use realtime_market_data_pla.Common.{
  ℕ, zero, suc, ◌+◌, ◌-◌, ◌*◌, ◌/◌, ◌%◌, ◌≤◌, ◌<◌, min, max, String, ◌≡◌, refl, sym, ap, ap₂, subst,
  ◌∙◌, ◌≢◌, ◌↔◌, ◌⊎◌, inl, inr, Bool, true, false, not, ◌&&◌, ◌||◌, Option, none, some, List, [],
  ◌∷◌, ◌++◌, map, append-nil, append_assoc, arith, dec_lt, length, drop, take, last_n,
  length-append, All, All-append, All-map, contains, discard, contains-append_one, ltb, leb,
  if◌then◌else◌, Key, ◌==◌, nat_Key, string_Key, pair_Key, beq_refl, Bool-cases, Option-cases,
}
use realtime_market_data_pla.Common.Int.{ℤ, pos}
use realtime_market_data_pla.Models.{MarketEvent, Numbers, quote}
use realtime_market_data_pla.Common.Dict.{keys, Dict, lookup, insert}

abbrev pub initial_prices : Dict String ℕ
initial_prices =
    ("AAPL", 189) ∷ ("TSLA", 175) ∷ ("GOOGL", 175) ∷ ("MSFT", 420) ∷ ("BTCUSD", 68000) ∷ []

-- `list(INITIAL_PRICES.keys())`
abbrev pub symbols : List String
symbols = keys initial_prices

-- What one event draws: `random.gauss`, the two `random.randint`, and the time.
pub record Draw (F : Type 0) : Type 0 where
  pub gauss : F
  pub bid_size : ℤ
  pub ask_size : ℤ
  pub now : ℤ

-- `seqs` is what each counter gives next; `produced` is the history of what was handed to Kafka.
pub record FeedSimulator (F : Type 0) : Type 0 where
  pub prices : Dict String F
  pub seqs : Dict String ℕ
  pub produced : List (MarketEvent F)

-- the constants of `_next_price`, and the float of an initial price
pub record Constants (F : Type 0) : Type 0 where
  pub one : F
  pub two : F
  pub spread_rate : F
  pub price_of : ℕ → F

module _ {F : Type 0} ⦃n : Numbers F⦄ (k : Constants F) where
  -- `{s: p for s, p in INITIAL_PRICES.items()}`, and a counter for each symbol
  unfoldable pub init : FeedSimulator F
  init = record {
    prices = map (λ p. (p.0, k.price_of p.1)) initial_prices;
    seqs = map (λ p. (p.0, 1)) initial_prices;
    produced = [];
  }

  -- `_next_price` from the old price on: the new one, the bid and the ask
  unfoldable pub walk : F → F → F × F × F
  walk gauss price =
      let mid = n.round_2 (n.mul price (n.add k.one gauss)) in
      let spread = n.round_2 (n.mul mid k.spread_rate) in
      (mid, n.round_2 (n.sub mid (n.div spread k.two)), n.round_2 (n.add mid (n.div spread k.two)))

  -- the event of `_make_event`
  unfoldable pub quote_event : String → Draw F → F → F → ℕ → MarketEvent F
  quote_event symbol d bid ask seq = record {
    symbol = symbol;
    bid = bid;
    ask = ask;
    bid_size = d.bid_size;
    ask_size = d.ask_size;
    event_ts = d.now;
    server_ts = d.now;
    seq = pos seq;
    type = quote;
    last_price = n.zero_f;
    last_size = pos 0;
  }

  -- `_make_event` and `produce` for one symbol; `none` is a `KeyError`.
  unfoldable pub produce : String → Draw F → FeedSimulator F → Option (FeedSimulator F)
  unfolding walk quote_event
  produce symbol d sim = elim (lookup symbol sim.prices) [
    | none ↦ none
    | some price ↦ elim (lookup symbol sim.seqs) [
      | none ↦ none
      | some seq ↦
          let (mid, bid, ask) = walk d.gauss price in
          some (record {
            prices = insert symbol mid sim.prices;
            seqs = insert symbol (seq + 1) sim.seqs;
            produced = sim.produced ++ quote_event symbol d bid ask seq ∷ [];
          })
    ]
  ]

  -- `for symbol in symbols: ...`
  unfoldable pub produce_all :
      List String → (String → Draw F) → FeedSimulator F → Option (FeedSimulator F)
  unfolding produce
  produce_all [] draws sim = some sim
  produce_all (symbol ∷ rest) draws sim = elim (produce symbol (draws symbol) sim) [
    | none ↦ none
    | some sim' ↦ produce_all rest draws sim'
  ]

  -- `run`, for as many rounds as there are draws
  unfoldable pub run : List (String → Draw F) → FeedSimulator F → Option (FeedSimulator F)
  unfolding produce_all
  run [] sim = some sim
  run (draws ∷ rounds) sim = elim (produce_all symbols draws sim) [
    | none ↦ none
    | some sim' ↦ run rounds sim'
  ]
