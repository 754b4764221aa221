-- ===== src/Aggregator/Coalesce.antt =====
-- What a window of AGG_100MS mode (src/gateway/aggregator.py) emits.
use realtime_market_data_pla.Common.{
  String, List, Option, ◌∷◌, arith, none, ◌≡◌, [], string_Key, refl, ◌∙◌, if◌then◌else◌, ◌==◌, some,
  last_n, ◌++◌, append-nil, ap, sym,
}
use realtime_market_data_pla.Aggregator.{push, AggregationBuffer, agg_100ms, output_max_size, flush}
use realtime_market_data_pla.Aggregator.Raw.{push_all, put_all-last_n}
use realtime_market_data_pla.Common.Dict.{insert, lookup, Dict, values, or_else, lookup-insert}
use realtime_market_data_pla.Models.{MarketEvent}

module _ {F : Type 0} where
  -- The last event of a symbol.
  unfoldable pub latest : String → List (MarketEvent F) → Option (MarketEvent F)
  latest symbol [] = none
  latest symbol (event ∷ events) =
      or_else (latest symbol events) (if event.symbol == symbol then some event else none)

  -- The first event of a symbol.
  unfoldable pub find : String → List (MarketEvent F) → Option (MarketEvent F)
  find symbol [] = none
  find symbol (event ∷ events) = if event.symbol == symbol then some event else find symbol events

  -- No two events have one symbol.
  abbrev pub OnePerSymbol : List (MarketEvent F) → Type 0
  OnePerSymbol [] = Unit
  OnePerSymbol (event ∷ events) = (find event.symbol events ≡ none) × OnePerSymbol events

  -- Each event is under its symbol, and no symbol is there twice.
  abbrev IsKeyed : Dict String (MarketEvent F) → Type 0
  IsKeyed [] = Unit
  IsKeyed ((k, event) ∷ d) = (event.symbol ≡ k) × (lookup k d ≡ none) × IsKeyed d

  insert-IsKeyed :
      (event : MarketEvent F) (d : Dict String (MarketEvent F))
      → IsKeyed d
      → IsKeyed (insert event.symbol event d)
  unfolding insert lookup
  insert-IsKeyed event [] h = (refl, refl, tt)
  insert-IsKeyed event ((k, x) ∷ d) h = ground (
    arith,
    string_Key.same_iff k event.symbol,
    string_Key.same_iff event.symbol k,
    lookup-insert event.symbol k event d,
    insert-IsKeyed event d,
  )

  find-values :
      (symbol : String) (d : Dict String (MarketEvent F))
      → IsKeyed d
      → find symbol (values d) ≡ lookup symbol d
  unfolding find lookup
  find-values symbol [] h = refl
  find-values symbol ((k, x) ∷ d) h = rw (h.0, find-values symbol d h.2)

  values-OnePerSymbol : (d : Dict String (MarketEvent F)) → IsKeyed d → OnePerSymbol (values d)
  values-OnePerSymbol [] h = tt
  values-OnePerSymbol ((k, x) ∷ d) h =
      (rw (h.0, find-values k d h.2) h.1, values-OnePerSymbol d h.2)

  or_else-none : (o : Option (MarketEvent F)) → or_else o none ≡ o
  or_else-none none = refl
  or_else-none (some event) = refl

  push_agg :
      (event : MarketEvent F) (a : AggregationBuffer F)
      → a.mode ≡ agg_100ms
      → push event a ≡ record a { buffer = insert event.symbol event a.buffer }
  unfolding push
  push_agg event a e = ground arith

  -- Between two flushes the buffer keeps the last event of each symbol, and no output.
  record Coalesced (events : List (MarketEvent F)) (a b : AggregationBuffer F) : Type 0 where
    mode : b.mode ≡ agg_100ms
    output : b.output ≡ a.output
    keyed : IsKeyed b.buffer
    holds :
        (symbol : String)
        → lookup symbol b.buffer ≡ or_else (latest symbol events) (lookup symbol a.buffer)

  push_all-Coalesced :
      (events : List (MarketEvent F)) (a : AggregationBuffer F)
      → a.mode ≡ agg_100ms
      → IsKeyed a.buffer
      → Coalesced events a (push_all events a)
  unfolding push_all latest
  push_all-Coalesced [] a mode keyed = record {
    mode = mode;
    output = refl;
    keyed = keyed;
    holds = λ symbol. refl;
  }
  push_all-Coalesced (event ∷ events) a mode keyed =
      let c =
        push_all-Coalesced events (record a { buffer = insert event.symbol event a.buffer }) mode
          (insert-IsKeyed event a.buffer keyed) in
      rw (push_agg event a mode) (record {
        mode = c.mode;
        output = c.output;
        keyed = c.keyed;
        holds = λ symbol.
            c.holds symbol ∙ ground (arith, lookup-insert event.symbol symbol event a.buffer);
      })

  flush_lem :
      (h : List (MarketEvent F)) (a : AggregationBuffer F)
      → a.output ≡ last_n output_max_size h
      → ((flush a).output ≡ last_n output_max_size (h ++ values a.buffer)) × ((flush a).buffer ≡ [])
  unfolding flush
  flush_lem h a e = from_buffer a.buffer refl
    where
      from_buffer :
          (d : Dict String (MarketEvent F))
          → a.buffer ≡ d
          → ((flush a).output ≡ last_n output_max_size (h ++ values a.buffer))
            × ((flush a).buffer ≡ [])
      from_buffer [] e' = rw (e', flush) (e ∙ ap (last_n output_max_size) (sym (append-nil h)), e')
      from_buffer (x ∷ d) e' = rw (e', flush) (rw (e, e') (put_all-last_n h (values (x ∷ d))), refl)

  -- One window of AGG_100MS mode, from an empty buffer: whatever was pushed, the flush emits exactly
  -- one event for each symbol pushed, the last of it, behind what the output held, the oldest
  -- giving way past a thousand; and the buffer is empty again.
  pub window_coalesces :
      (h events : List (MarketEvent F)) (a : AggregationBuffer F)
      → a.mode ≡ agg_100ms
      → a.buffer ≡ []
      → a.output ≡ last_n output_max_size h
      → (emitted : List (MarketEvent F)) × ((flush (push_all events a)).output
          ≡ last_n output_max_size (h ++ emitted))
        × ((flush (push_all events a)).buffer ≡ [])
        × OnePerSymbol emitted
        × ((symbol : String) → find symbol emitted ≡ latest symbol events)
  unfolding lookup
  window_coalesces h events a mode fresh out =
      let c = push_all-Coalesced events a mode (rw fresh tt) in
      let (emits, empties) = flush_lem h (push_all events a) (c.output ∙ out) in
      (
        values (push_all events a).buffer,
        emits,
        empties,
        values-OnePerSymbol (push_all events a).buffer c.keyed,
        λ symbol.
            find-values symbol (push_all events a).buffer c.keyed
            ∙ c.holds symbol
            ∙ rw fresh (or_else-none (latest symbol events)),
      )
