-- ===== src/Feed/Numbered.antt =====
-- The sequence numbers of the feed (src/feed/simulator.py): each symbol's run from 1 without a gap.
use realtime_market_data_pla.Common.{
  ℕ, zero, suc, ◌+◌, String, ◌≡◌, refl, ap, ◌∙◌, some, List, [], ◌∷◌, ◌++◌, arith, if◌then◌else◌,
  ◌==◌, nat_Key, string_Key, pair_Key, Bool-cases, inr, inl, subst, contains, All, true, length,
  All-contains,
}
use realtime_market_data_pla.Common.Int.{ℤ, pos}
use realtime_market_data_pla.Feed.{
  produce, walk, quote_event, FeedSimulator, Constants, Draw, run, produce_all, init, symbols,
}
use realtime_market_data_pla.Models.{Numbers, MarketEvent}
use realtime_market_data_pla.Common.Dict.{lookup, insert, lookup-insert}

-- `count` numbers from `first` on
unfoldable pub count_up : ℕ → ℕ → List ℤ
count_up first zero = []
count_up first (suc count) = pos first ∷ count_up (first + 1) count

count_up-suc :
    (first count : ℕ)
    → count_up first (suc count) ≡ count_up first count ++ pos (first + count) ∷ []
unfolding count_up
count_up-suc first zero = ap (λ x. pos x ∷ []) (omega arith)
count_up-suc first (suc count) =
    ap (λ xs. pos first ∷ xs)
      (count_up-suc (first + 1) count
        ∙ ap (λ x. count_up (first + 1) count ++ pos x ∷ []) (omega arith))

-- how often the symbol is there
unfoldable pub occurrences : String → List String → ℕ
occurrences j [] = 0
occurrences j (symbol ∷ rest) = (if symbol == j then 1 else 0) + occurrences j rest

occurs_once : (j : String) → contains j symbols ≡ true → occurrences j symbols ≡ 1
unfolding occurrences contains
occurs_once j known =
    All-contains (λ j. occurrences j symbols ≡ 1) j symbols
      (refl, (refl, (refl, (refl, (refl, tt))))) known

symbols_known : All (λ s. contains s symbols ≡ true) symbols
unfolding contains
symbols_known = (refl, (refl, (refl, (refl, (refl, tt)))))

module _ {F : Type 0} where
  -- the sequence numbers of a symbol's events
  unfoldable pub seqs_of : String → List (MarketEvent F) → List ℤ
  seqs_of j [] = []
  seqs_of j (e ∷ events) = if e.symbol == j then e.seq ∷ seqs_of j events else seqs_of j events

  seqs_of-append :
      (j : String) (before : List (MarketEvent F)) (e : MarketEvent F)
      → seqs_of j (before ++ e ∷ [])
        ≡ (if e.symbol == j then seqs_of j before ++ e.seq ∷ [] else seqs_of j before)
  unfolding seqs_of
  seqs_of-append j [] e = ground arith
  seqs_of-append j (x ∷ before) e = ground (arith, seqs_of-append j before e)

  -- The symbol has a price, and has had the numbers from 1 to `count`.
  abbrev pub IsAt : String → ℕ → FeedSimulator F → Type 0
  IsAt j count sim =
      ((price : F) × (lookup j sim.prices ≡ some price))
      × (lookup j sim.seqs ≡ some (count + 1))
      × (seqs_of j sim.produced ≡ count_up 1 count)

module _ {F : Type 0} ⦃n : Numbers F⦄ (k : Constants F) where
  produced_one :
      (symbol : String) (d : Draw F) (sim : FeedSimulator F) (price : F) (seq : ℕ)
      → lookup symbol sim.prices ≡ some price
      → lookup symbol sim.seqs ≡ some seq
      → produce k symbol d sim
        ≡ some (record {
          prices = insert symbol (walk k d.gauss price).0 sim.prices;
          seqs = insert symbol (seq + 1) sim.seqs;
          produced =
              sim.produced
              ++ quote_event k symbol d (walk k d.gauss price).1 (walk k d.gauss price).2 seq ∷ [];
        })
  unfolding produce
  produced_one symbol d sim price seq at at' = rw (at, at', produce) refl

  -- One event moves its symbol on, and no other.
  produce-IsAt :
      (symbol : String) (d : Draw F) (sim : FeedSimulator F) (m : ℕ)
      → IsAt symbol m sim
      → (sim' : FeedSimulator F) × (produce k symbol d sim ≡ some sim')
        × ((j : String) (count : ℕ)
            → IsAt j count sim
            → IsAt j ((if symbol == j then 1 else 0) + count) sim')
  unfolding quote_event
  produce-IsAt symbol d sim m ((price, at), at', numbers) =
      (after, produced_one symbol d sim price (m + 1) at at', moves)
    where
      mid : F
      mid = (walk k d.gauss price).0

      event : MarketEvent F
      event = quote_event k symbol d (walk k d.gauss price).1 (walk k d.gauss price).2 (m + 1)

      after : FeedSimulator F
      after = record {
        prices = insert symbol mid sim.prices;
        seqs = insert symbol (m + 1 + 1) sim.seqs;
        produced = sim.produced ++ event ∷ [];
      }

      moves :
          (j : String) (count : ℕ)
          → IsAt j count sim
          → IsAt j ((if symbol == j then 1 else 0) + count) after
      moves j count ((p, here), next, so_far) = elim (Bool-cases (symbol == j)) [
        | inr other ↦ (
          (p, ground (arith, lookup-insert symbol j mid sim.prices)),
          ground (arith, lookup-insert symbol j (m + 1 + 1) sim.seqs),
          ground (arith, seqs_of-append j sim.produced event),
        )
        | inl same ↦
            let known : lookup j sim.seqs ≡ some (m + 1) =
              subst (λ x. lookup x sim.seqs ≡ some (m + 1)) ((string_Key.same_iff symbol j).0 same)
                at' in
            let level : m ≡ count = ground arith in
            (
              (mid, ground (arith, lookup-insert symbol j mid sim.prices)),
              ground (arith, lookup-insert symbol j (m + 1 + 1) sim.seqs),
              ground (arith, seqs_of-append j sim.produced event, count_up-suc 1 count),
            )
      ]

  produce_all-IsAt :
      (syms known : List String) (draws : String → Draw F) (sim : FeedSimulator F)
      (count : String → ℕ)
      → All (λ s. contains s known ≡ true) syms
      → ((j : String) → contains j known ≡ true → IsAt j (count j) sim)
      → (sim' : FeedSimulator F) × (produce_all k syms draws sim ≡ some sim')
        × ((j : String) → contains j known ≡ true → IsAt j (occurrences j syms + count j) sim')
  unfolding produce_all occurrences
  produce_all-IsAt [] known draws sim count among at =
      (sim, refl, λ j is_known. subst (λ c. IsAt j c sim) (omega arith) (at j is_known))
  produce_all-IsAt (symbol ∷ rest) known draws sim count among at =
      let (sim', made, moves) =
        produce-IsAt symbol (draws symbol) sim (count symbol) (at symbol among.0) in
      let (after, made', at') =
        produce_all-IsAt rest known draws sim' (λ j. (if symbol == j then 1 else 0) + count j)
          among.1 (λ j is_known. moves j (count j) (at j is_known)) in
      (
        after,
        rw (made, produce_all) made',
        λ j is_known. subst (λ c. IsAt j c after) (omega arith) (at' j is_known),
      )

  run-IsAt :
      (rounds : List (String → Draw F)) (sim : FeedSimulator F) (count : ℕ)
      → ((j : String) → contains j symbols ≡ true → IsAt j count sim)
      → (sim' : FeedSimulator F) × (run k rounds sim ≡ some sim')
        × ((j : String) → contains j symbols ≡ true → IsAt j (length rounds + count) sim')
  unfolding run
  run-IsAt [] sim count at =
      (sim, refl, λ j is_known. subst (λ c. IsAt j c sim) (omega arith) (at j is_known))
  run-IsAt (draws ∷ rounds) sim count at =
      let (sim', made, at') =
        produce_all-IsAt symbols symbols draws sim (λ j. count) symbols_known at in
      let (after, made', done) = run-IsAt rounds sim' (suc count) (λ j known.
        subst (λ c. IsAt j c sim') (omega (arith, occurs_once j known)) (at' j known)) in
      (
        after,
        rw (made, run) made',
        λ j known. subst (λ c. IsAt j c after) (omega arith) (done j known),
      )

  init-IsAt : (j : String) → contains j symbols ≡ true → IsAt j 0 (init k)
  unfolding init contains lookup seqs_of count_up
  init-IsAt j known =
      All-contains (λ j. IsAt j 0 (init k)) j symbols
        (
          ((k.price_of 189, refl), refl, refl),
          (
            ((k.price_of 175, refl), refl, refl),
            (
              ((k.price_of 175, refl), refl, refl),
              (((k.price_of 420, refl), refl, refl), (((k.price_of 68000, refl), refl, refl), tt)),
            ),
          ),
        )
        known

  -- However the draws fall, the feed never misses a price or a counter, and after each number of
  -- rounds every symbol has had as many events, numbered from 1 without a gap.
  pub run-Numbered :
      (rounds : List (String → Draw F))
      → (sim : FeedSimulator F) × (run k rounds (init k) ≡ some sim)
        × ((j : String)
            → contains j symbols ≡ true
            → seqs_of j sim.produced ≡ count_up 1 (length rounds))
  run-Numbered rounds =
      let (sim, made, at) = run-IsAt rounds (init k) 0 init-IsAt in
      (
        sim,
        made,
        λ j known. subst (λ c. seqs_of j sim.produced ≡ count_up 1 c) (omega arith) (at j known).2,
      )
