-- ===== src/Feed/Accepted.antt =====
-- The numbers of the feed (src/feed/simulator.py) at a client's gap detection
-- (src/gateway/session.py).
use realtime_market_data_pla.Common.{
  ℕ, zero, suc, ◌+◌, String, ◌≡◌, refl, ap, true, none, some, List, [], ◌∷◌, arith, length, All,
  contains, nat_Key, string_Key, pair_Key, beq_refl,
}
use realtime_market_data_pla.Common.Int.{ℤ, pos, pos_part, neg_part, add_one}
use realtime_market_data_pla.Feed.{run, init, Constants, Draw, symbols, FeedSimulator}
use realtime_market_data_pla.Session.{
  next, ClientSession, classify_sequence, classify_after, SequenceDecision, seed_seq,
}
use realtime_market_data_pla.Common.Dict.{lookup, lookup-insert}
use realtime_market_data_pla.Models.{Numbers}
use realtime_market_data_pla.Feed.Numbered.{count_up, seqs_of, run-Numbered}

length-count_up : (first count : ℕ) → length (count_up first count) ≡ count
unfolding count_up
length-count_up first zero = refl
length-count_up first (suc count) = ap suc (length-count_up (first + 1) count)

module _ {F : Type 0} where
  -- What gap detection decides on the numbers of one symbol, one after the other.
  pub decisions : String → List ℤ → ClientSession F → List SequenceDecision
  decisions j [] s = []
  decisions j (seq ∷ seqs) s =
      let (decision, s') = classify_sequence j seq true s in decision ∷ decisions j seqs s'

  classify_next :
      (j : String) (last : ℕ) (s : ClientSession F)
      → lookup j s.last_seq ≡ some (pos last)
      → classify_sequence j (pos (last + 1)) true s ≡ (next, seed_seq j (pos (last + 1)) s)
  unfolding classify_sequence classify_after pos_part neg_part add_one
  classify_next j last s known = rw (known, classify_after) (ground arith)

  classify_first :
      (j : String) (seq : ℤ) (s : ClientSession F)
      → lookup j s.last_seq ≡ none
      → classify_sequence j seq true s ≡ (next, seed_seq j seq s)
  unfolding classify_sequence classify_after
  classify_first j seq s unknown = rw (unknown, classify_after) refl

  lookup-seed_seq :
      (j : String) (seq : ℤ) (s : ClientSession F) → lookup j (seed_seq j seq s).last_seq ≡ some seq
  lookup-seed_seq j seq s =
      ground (arith, lookup-insert j j seq s.last_seq, beq_refl {A = String} j)

  count_up-accepted :
      (j : String) (last count : ℕ) (s : ClientSession F)
      → lookup j s.last_seq ≡ some (pos last)
      → All (λ d. d ≡ next) (decisions j (count_up (last + 1) count) s)
  unfolding count_up decisions
  count_up-accepted j last zero s known = tt
  count_up-accepted j last (suc count) s known = rw (classify_next j last s known) (
    refl,
    count_up-accepted j (last + 1) count (seed_seq j (pos (last + 1)) s)
        (lookup-seed_seq j (pos (last + 1)) s),
  )

  from_start :
      (j : String) (count : ℕ) (s : ClientSession F)
      → lookup j s.last_seq ≡ none
      → All (λ d. d ≡ next) (decisions j (count_up 1 count) s)
  unfolding count_up decisions
  from_start j zero s unknown = tt
  from_start j (suc count) s unknown =
      rw (classify_first j (pos 1) s unknown)
        (refl, count_up-accepted j 1 count (seed_seq j (pos 1) s) (lookup-seed_seq j (pos 1) s))

module _ {F : Type 0} ⦃n : Numbers F⦄ (k : Constants F) where
  -- A client that has accepted no number of a symbol of the feed yet takes all of the symbol's
  -- events for the next ones, in the order in which the feed produces them: none is a gap or stale.
  pub feed_accepted :
      (rounds : List (String → Draw F)) (j : String) (s : ClientSession F)
      → contains j symbols ≡ true
      → lookup j s.last_seq ≡ none
      → (sim : FeedSimulator F) × (run k rounds (init k) ≡ some sim)
        × (length (seqs_of j sim.produced) ≡ length rounds)
        × All (λ d. d ≡ next) (decisions j (seqs_of j sim.produced) s)
  feed_accepted rounds j s known unknown =
      let (sim, made, numbers) = run-Numbered k rounds in
      (
        sim,
        made,
        rw (numbers j known) (length-count_up 1 (length rounds)),
        rw (numbers j known) (from_start j (length rounds) s unknown),
      )
