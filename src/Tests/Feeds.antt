-- ===== src/Tests/Feeds.antt =====
-- The feed (src/feed/simulator.py): examples.
use realtime_market_data_pla.Common.{
  ℕ, String, ◌≡◌, refl, true, some, List, [], ◌∷◌, length, All, contains, nat_Key, string_Key,
  pair_Key,
}
use realtime_market_data_pla.Common.Int.{pos}
use realtime_market_data_pla.Tests.Data.{naturals}
use realtime_market_data_pla.Feed.{run, init, Draw, FeedSimulator, Constants, symbols}
use realtime_market_data_pla.Session.{next, ClientSession, SlowConsumerPolicy, init as new_session}
use realtime_market_data_pla.Tests.Data.{connected}
use realtime_market_data_pla.Common.Dict.{lookup}
use realtime_market_data_pla.Feed.Numbered.{seqs_of, count_up, run-Numbered}
use realtime_market_data_pla.Feed.Accepted.{decisions, feed_accepted}

abbrev constants : Constants ℕ
constants = record { one = 1; two = 2; spread_rate = 0; price_of = λ p. p }

abbrev draw : Draw ℕ
draw = record { gauss = 0; bid_size = pos 100; ask_size = pos 200; now = pos 1000 }

abbrev draws : List (String → Draw ℕ)
draws = (λ s. draw) ∷ (λ s. draw) ∷ []

abbrev viewer : ClientSession ℕ
viewer = connected SlowConsumerPolicy.drop_oldest

run-Numbered_example :
    (sim : FeedSimulator ℕ) × (run constants draws (init constants) ≡ some sim)
    × ((j : String) → contains j symbols ≡ true → seqs_of j sim.produced ≡ count_up 1 2)
run-Numbered_example = run-Numbered constants draws

feed_accepted_example :
    (sim : FeedSimulator ℕ) × (run constants draws (init constants) ≡ some sim)
    × (length (seqs_of "MSFT" sim.produced) ≡ 2)
    × All (λ d. d ≡ next) (decisions "MSFT" (seqs_of "MSFT" sim.produced) viewer)
unfolding contains connected new_session lookup
feed_accepted_example = feed_accepted constants draws "MSFT" viewer refl refl
