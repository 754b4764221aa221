-- ===== src/Tests/Benchmarks.antt =====
-- The clients of the load benchmark (src/benchmark/load_bench.py): examples.
use realtime_market_data_pla.Common.{
  ℕ, String, ◌≡◌, ◌↔◌, List, [], ◌∷◌, nat_Key, string_Key, pair_Key,
}
use realtime_market_data_pla.Common.Int.{pos}
use realtime_market_data_pla.Benchmark.{
  run_client, init, Frame, numbered, unnumbered, absent, unreadable, overflowing,
}
use realtime_market_data_pla.Benchmark.Counted.{NeverFalls, run_client_regressions_iff}

-- The second frame has no readable time; a later one falls behind the first, the last
-- that is read has an infinite time.
abbrev frames : List (Frame String ℕ)
frames =
    numbered "AAPL" (pos 5) absent
    ∷ numbered "AAPL" (pos 6) unreadable
    ∷ unnumbered
    ∷ numbered "MSFT" (pos 1) absent
    ∷ numbered "AAPL" (pos 4) absent
    ∷ numbered "MSFT" (pos 2) overflowing
    ∷ numbered "MSFT" (pos 1) absent
    ∷ []

run_client_regressions_iff_example :
    ((run_client frames init).sequence_regressions
      ≡ (init {S = String} {F = ℕ}).sequence_regressions)
    ↔ NeverFalls (init {S = String} {F = ℕ}).last_seq frames
run_client_regressions_iff_example = run_client_regressions_iff frames init
