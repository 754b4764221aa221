-- ===== src/Benchmark/Counted.antt =====
-- When `run_client` (src/benchmark/load_bench.py) counts a regression.
use realtime_market_data_pla.Common.{
  ◌+◌, ◌≤◌, ◌<◌, ◌⊎◌, ◌≡◌, refl, sym, ap, subst, ◌∙◌, ◌↔◌, inl, inr, true, false, Option, none,
  some, List, [], ◌∷◌, arith, Key, nat_Key, string_Key, pair_Key, Bool-cases,
}
use realtime_market_data_pla.Common.Int.{ℤ, ◌≤ℤ◌}
use realtime_market_data_pla.Benchmark.{
  run_client, note_seq, note_timestamp, is_regression, next_last, Timestamp, Frame, Client,
  numbered, latency, infinite, overflowing, not_object, absent, unnumbered, unreadable,
}
use realtime_market_data_pla.Common.Dict.{Dict, lookup, insert}

-- The number is at least the one before it, if there is one.
abbrev pub IsAtLeast : Option ℤ → ℤ → Type 0
IsAtLeast none seq = Unit
IsAtLeast (some previous) seq = previous ≤ℤ seq

at_least :
    (previous : Option ℤ) (seq : ℤ)
    → is_regression previous seq ≡ false
    → IsAtLeast previous seq × (next_last previous seq ≡ seq)
unfolding is_regression next_last
at_least none seq h = (tt, refl)
at_least (some previous) seq h = (ground arith, ground arith)

fallen :
    (previous : Option ℤ) (seq : ℤ) → is_regression previous seq ≡ true → ¬ IsAtLeast previous seq
unfolding is_regression
fallen none seq h = absurd (ground arith)
fallen (some previous) seq h = λ above. ground arith

module _ {S : Type 0} {F : Type 0} ⦃key : Key S⦄ where
  -- The frame is the last one that a client reads: it raises what the loop does not catch.
  abbrev pub IsLast : Frame S F → Type 0
  IsLast not_object = Unit
  IsLast infinite = Unit
  IsLast (numbered symbol seq overflowing) = Unit
  IsLast frame = ⊥

  -- The number of each frame is at least the last one before it of the same symbol, in `last` or in
  -- an earlier frame, up to the last frame that is read.
  abbrev pub NeverFalls : Dict S ℤ → List (Frame S F) → Type 0
  NeverFalls last [] = Unit
  NeverFalls last (not_object ∷ frames) = Unit
  NeverFalls last (infinite ∷ frames) = Unit
  NeverFalls last (unnumbered ∷ frames) = NeverFalls last frames
  NeverFalls last (numbered symbol seq ts ∷ frames) =
      IsAtLeast (lookup symbol last) seq
      × (¬ IsLast (numbered symbol seq ts) → NeverFalls (insert symbol seq last) frames)

  note_timestamp-keeps :
      (ts : Timestamp F) (c : Client S F)
      → ((note_timestamp ts c).0.sequence_regressions ≡ c.sequence_regressions)
        × ((note_timestamp ts c).0.last_seq ≡ c.last_seq)
  unfolding note_timestamp
  note_timestamp-keeps absent c = (refl, refl)
  note_timestamp-keeps unreadable c = (refl, refl)
  note_timestamp-keeps overflowing c = (refl, refl)
  note_timestamp-keeps (latency x is_finite) c = (refl, refl)

  -- Exactly a frame that overflows is the last one.
  goes_on_unless :
      (symbol : S) (seq : ℤ) (ts : Timestamp F) (c : Client S F)
      → (((note_timestamp ts c).1 ≡ true) × ¬ IsLast (numbered symbol seq ts))
        ⊎ (((note_timestamp ts c).1 ≡ false) × IsLast (numbered symbol seq ts))
  unfolding note_timestamp
  goes_on_unless symbol seq absent c = inl (refl, λ bad. bad)
  goes_on_unless symbol seq unreadable c = inl (refl, λ bad. bad)
  goes_on_unless symbol seq overflowing c = inr (refl, tt)
  goes_on_unless symbol seq (latency x is_finite) c = inl (refl, λ bad. bad)

  regressions-le :
      (frames : List (Frame S F)) (c : Client S F)
      → c.sequence_regressions ≤ (run_client frames c).sequence_regressions
  unfolding run_client note_seq
  regressions-le [] c = omega arith
  regressions-le (not_object ∷ frames) c = omega arith
  regressions-le (infinite ∷ frames) c = omega arith
  regressions-le (unnumbered ∷ frames) c =
      regressions-le frames (record c { malformed = c.malformed + 1 })
  regressions-le (numbered symbol seq ts ∷ frames) c = ground (
    arith,
    regressions-le frames (note_timestamp ts (note_seq symbol seq c)).0,
    note_timestamp-keeps ts (note_seq symbol seq c),
  )

  note_risen :
      (symbol : S) (seq : ℤ) (ts : Timestamp F) (c : Client S F)
      → is_regression (lookup symbol c.last_seq) seq ≡ false
      → ((note_timestamp ts (note_seq symbol seq c)).0.sequence_regressions
          ≡ c.sequence_regressions)
        × ((note_timestamp ts (note_seq symbol seq c)).0.last_seq ≡ insert symbol seq c.last_seq)
  unfolding note_seq
  note_risen symbol seq ts c risen =
      let (same, last) = note_timestamp-keeps ts (note_seq symbol seq c) in
      (
        same ∙ rw risen refl,
        last
            ∙ ap (λ x. insert symbol x c.last_seq)
                (at_least (lookup symbol c.last_seq) seq risen).1,
      )

  note_fallen :
      (symbol : S) (seq : ℤ) (ts : Timestamp F) (c : Client S F)
      → is_regression (lookup symbol c.last_seq) seq ≡ true
      → (note_timestamp ts (note_seq symbol seq c)).0.sequence_regressions
        ≡ c.sequence_regressions + 1
  unfolding note_seq
  note_fallen symbol seq ts c falls =
      (note_timestamp-keeps ts (note_seq symbol seq c)).0 ∙ rw falls refl

  -- From a frame that falls on, a regression stays counted.
  fallen_counts :
      (symbol : S) (seq : ℤ) (ts : Timestamp F) (frames : List (Frame S F)) (c : Client S F)
      → is_regression (lookup symbol c.last_seq) seq ≡ true
      → c.sequence_regressions
        < (run_client (numbered symbol seq ts ∷ frames) c).sequence_regressions
  unfolding run_client
  fallen_counts symbol seq ts frames c falls =
      let c' = note_timestamp ts (note_seq symbol seq c) in
      let more = note_fallen symbol seq ts c falls in
      elim (Bool-cases c'.1) [
        | inl goes_on ↦ rw goes_on (omega (arith, regressions-le frames c'.0, more))
        | inr ends ↦ rw ends (omega (arith, more))
      ]

  -- A client counts no regression exactly if no frame that it reads has a number below the last one
  -- before it of the same symbol, whatever comes between. It reads the frames up to the first that
  -- raises what the loop does not catch: no object, or an infinite `seq`, or an `event_ts` that
  -- overflows, in which the `seq` still counts.
  pub run_client_regressions_iff :
      (frames : List (Frame S F)) (c : Client S F)
      → ((run_client frames c).sequence_regressions ≡ c.sequence_regressions)
        ↔ NeverFalls c.last_seq frames
  unfolding run_client
  run_client_regressions_iff [] c = (λ h. tt, λ h. refl)
  run_client_regressions_iff (not_object ∷ frames) c = (λ h. tt, λ h. refl)
  run_client_regressions_iff (infinite ∷ frames) c = (λ h. tt, λ h. refl)
  run_client_regressions_iff (unnumbered ∷ frames) c =
      run_client_regressions_iff frames (record c { malformed = c.malformed + 1 })
  run_client_regressions_iff (numbered symbol seq ts ∷ frames) c =
      let (c', goes_on) = note_timestamp ts (note_seq symbol seq c) in
      let later = run_client_regressions_iff frames c' in
      elim (Bool-cases (is_regression (lookup symbol c.last_seq) seq)) [
        | inl falls ↦ (
          λ h. absurd (omega (arith, fallen_counts symbol seq ts frames c falls, h)),
          λ (above, rest). absurd (fallen (lookup symbol c.last_seq) seq falls above),
        )
        | inr risen ↦
            let (same, last) = note_risen symbol seq ts c risen in
            let above = (at_least (lookup symbol c.last_seq) seq risen).0 in
            elim (goes_on_unless symbol seq ts (note_seq symbol seq c)) [
              | inl (on, more) ↦ rw on (
                λ h. (above, λ _. subst (λ d. NeverFalls d frames) last (later.0 (h ∙ sym same))),
                λ (_, rest).
                    later.1 (subst (λ d. NeverFalls d frames) (sym last) (rest more)) ∙ same,
              )
              | inr (ends, done) ↦ rw ends (λ h. (above, λ more. absurd (more done)), λ h. same)
            ]
      ]
