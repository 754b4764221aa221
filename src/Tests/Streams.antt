-- ===== src/Tests/Streams.antt =====
-- Streams of events (src/gateway/aggregator.py, src/gateway/gateway.py): examples.
use realtime_market_data_pla.Common.{
  ℕ, String, ◌≡◌, refl, ap, none, some, List, [], ◌∷◌, arith, last_n, ltb, nat_Key, string_Key,
  pair_Key,
}
use realtime_market_data_pla.Aggregator.{init as new_buffer, raw, flush, output_max_size, agg_100ms}
use realtime_market_data_pla.Gateway.Dispatch.{Turn, arrives, failed, dispatch_loop, fetched, other}
use realtime_market_data_pla.Models.{MarketEvent}
use realtime_market_data_pla.Common.Dict.{lookup}
use realtime_market_data_pla.Percentile.{percentile_index, percentile}
use realtime_market_data_pla.Aggregator.Raw.{push_all, push_all_raw}
use realtime_market_data_pla.Session.{ClientSession, SlowConsumerPolicy}
use realtime_market_data_pla.Percentile.Rank.{IsOrder, HasRank, percentile-HasRank}
use realtime_market_data_pla.Tests.Data.{naturals, quoted, connected, snapshot_at}
use realtime_market_data_pla.Gateway.Dispatch.Rising.{Rising}
use realtime_market_data_pla.Gateway.Dispatch.Effects.{seqs}
use realtime_market_data_pla.Aggregator.Coalesce.{OnePerSymbol, find, latest, window_coalesces}
use realtime_market_data_pla.Gateway.Dispatch.Order.{dispatch_loop-Rising}

ltb-IsOrder : IsOrder ltb
ltb-IsOrder = record { asym = λ a b h. ground arith; negation = λ a b c h h'. ground arith }

percentile-HasRank_example :
    (v : ℕ) × (percentile (7 ∷ 3 ∷ 5 ∷ []) 50 ≡ some v) × HasRank ltb v 1 (7 ∷ 3 ∷ 5 ∷ [])
unfolding percentile_index
percentile-HasRank_example = percentile-HasRank ltb-IsOrder 7 (3 ∷ 5 ∷ []) 50

abbrev quotes : List (MarketEvent ℕ)
quotes = quoted "AAPL" 1 100 ∷ quoted "MSFT" 1 50 ∷ quoted "AAPL" 2 101 ∷ []

push_all_raw_example : (push_all quotes (new_buffer raw)).output ≡ last_n output_max_size quotes
unfolding new_buffer last_n
push_all_raw_example = ap (λ a. a.output) (push_all_raw [] quotes (new_buffer raw) refl refl)

-- Of two quotes of one symbol the window emits the later.
window_coalesces_example :
    (emitted : List (MarketEvent ℕ)) × ((flush (push_all quotes (new_buffer agg_100ms))).output
      ≡ last_n output_max_size emitted)
    × ((flush (push_all quotes (new_buffer agg_100ms))).buffer ≡ [])
    × OnePerSymbol emitted
    × ((symbol : String) → find symbol emitted ≡ latest symbol quotes)
unfolding new_buffer last_n
window_coalesces_example = window_coalesces [] quotes (new_buffer agg_100ms) refl refl refl

-- A gap that the store's snapshot bridges, with an event that the snapshot has overtaken.
abbrev arrivals : List (Turn ℕ)
arrivals =
    arrives failed (λ s. s) (quoted "AAPL" 1 100)
    ∷ arrives (fetched (some (snapshot_at 4 104))) (λ s. s) (quoted "AAPL" 3 102)
    ∷ other (λ s. s)
    ∷ arrives failed (λ s. s) (quoted "AAPL" 4 104)
    ∷ arrives failed (λ s. s) (quoted "AAPL" 5 105)
    ∷ []

abbrev client : ClientSession ℕ
client = connected SlowConsumerPolicy.drop_oldest

dispatch_loop-Rising_example : Rising none (seqs "AAPL" (dispatch_loop arrivals client).delivered)
unfolding lookup connected
dispatch_loop-Rising_example =
    dispatch_loop-Rising "AAPL" arrivals client
      (λ s. refl, (λ s. refl, (λ s. refl, (λ s. refl, (λ s. refl, tt)))))
