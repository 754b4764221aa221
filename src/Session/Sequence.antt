-- ===== src/Session/Sequence.antt =====
-- What `ClientSession.classify_sequence` (src/gateway/session.py) does to a stream of sequence
-- numbers.
use realtime_market_data_pla.Common.{
  string_Key, ◌≡◌, inl, inr, Bool-cases, subst, Bool, true, Option, none, some, String, ◌==◌,
  if◌then◌else◌, arith,
}
use realtime_market_data_pla.Common.Int.{
  ℤ, ◌≤ℤ◌, ◌<ℤ◌, add_one, add_one_parts, eq_of_parts, parts_of_eq,
}
use realtime_market_data_pla.Common.Dict.{lookup, lookup-insert}
use realtime_market_data_pla.Session.{
  ClientSession, SequenceDecision, next, gap, stale, classify_after, classify_sequence,
}

-- What a decision says of a number, against the last accepted one of the symbol.
abbrev pub Decides : Bool → ℤ → Option ℤ → SequenceDecision → Type 0
Decides detect_gap seq none next = Unit
Decides detect_gap seq none gap = ⊥
Decides detect_gap seq none stale = ⊥
Decides detect_gap seq (some last) next = (last <ℤ seq) × (detect_gap ≡ true → seq ≡ add_one last)
Decides detect_gap seq (some last) gap = (detect_gap ≡ true) × (add_one last <ℤ seq)
Decides detect_gap seq (some last) stale = seq ≤ℤ last

-- The number that a symbol has accepted, after a decision.
abbrev pub accepted : SequenceDecision → ℤ → Option ℤ → Option ℤ
accepted next seq last = some seq
accepted gap seq last = last
accepted stale seq last = last

-- `some m` is followed by `some n` at or above it.
abbrev pub Advances : Option ℤ → Option ℤ → Type 0
Advances none after = Unit
Advances (some m) none = ⊥
Advances (some m) (some n) = m ≤ℤ n

pub Advances-refl : (o : Option ℤ) → Advances o o
Advances-refl none = tt
Advances-refl (some m) = omega arith

pub Decides-Advances :
    (detect_gap : Bool) (seq : ℤ) (last : Option ℤ) (d : SequenceDecision)
    → Decides detect_gap seq last d
    → Advances last (accepted d seq last)
Decides-Advances detect_gap seq none next h = tt
Decides-Advances detect_gap seq none gap h = tt
Decides-Advances detect_gap seq none stale h = tt
Decides-Advances detect_gap seq (some last) next h = omega arith
Decides-Advances detect_gap seq (some last) gap h = omega arith
Decides-Advances detect_gap seq (some last) stale h = omega arith

module _ {F : Type 0} where
  classify_after-Decides :
      (last : Option ℤ) (symbol : String) (seq : ℤ) (detect_gap : Bool) (s : ClientSession F)
      → Decides detect_gap seq last (classify_after last symbol seq detect_gap s).0
  unfolding classify_after
  classify_after-Decides none symbol seq detect_gap s = tt
  classify_after-Decides (some last) symbol seq detect_gap s = ground (
    arith,
    add_one_parts last,
    eq_of_parts seq (add_one last),
    parts_of_eq {a = seq} {b = add_one last},
  )

  -- The decision means what it says: NEXT is a first number, or a later one and in RAW mode the
  -- very next; GAP is a jump in RAW mode; STALE is not above the last accepted number.
  pub classify_sequence-Decides :
      (symbol : String) (seq : ℤ) (detect_gap : Bool) (s : ClientSession F)
      → Decides detect_gap seq
          (lookup symbol s.last_seq)
          (classify_sequence symbol seq detect_gap s).0
  unfolding classify_sequence
  classify_sequence-Decides symbol seq detect_gap s =
      classify_after-Decides (lookup symbol s.last_seq) symbol seq detect_gap s

  last_seq-classify_after :
      (last : Option ℤ) (symbol j : String) (seq : ℤ) (detect_gap : Bool) (s : ClientSession F)
      → lookup j (classify_after last symbol seq detect_gap s).1.last_seq ≡ (
          if symbol == j
          then accepted (classify_after last symbol seq detect_gap s).0 seq (lookup j s.last_seq)
          else lookup j s.last_seq)
  unfolding classify_after
  last_seq-classify_after none symbol j seq detect_gap s =
      ground (arith, lookup-insert symbol j seq s.last_seq)
  last_seq-classify_after (some last) symbol j seq detect_gap s =
      ground (arith, lookup-insert symbol j seq s.last_seq)

  -- Only NEXT writes the accepted number, and only of its symbol.
  pub last_seq-classify_sequence :
      (symbol j : String) (seq : ℤ) (detect_gap : Bool) (s : ClientSession F)
      → lookup j (classify_sequence symbol seq detect_gap s).1.last_seq ≡ (
          if symbol == j
          then accepted (classify_sequence symbol seq detect_gap s).0 seq (lookup j s.last_seq)
          else lookup j s.last_seq)
  unfolding classify_sequence
  last_seq-classify_sequence symbol j seq detect_gap s =
      last_seq-classify_after (lookup symbol s.last_seq) symbol j seq detect_gap s

  -- No classification moves any symbol's accepted number back, or forgets it.
  pub classify_sequence-Advances :
      (symbol j : String) (seq : ℤ) (detect_gap : Bool) (s : ClientSession F)
      → Advances
          (lookup j s.last_seq)
          (lookup j (classify_sequence symbol seq detect_gap s).1.last_seq)
  classify_sequence-Advances symbol j seq detect_gap s =
      rw (last_seq-classify_sequence symbol j seq detect_gap s) (elim (Bool-cases (symbol == j)) [
        | inl same ↦ rw same (
            subst
              (λ k. Advances (lookup k s.last_seq) (accepted decision seq (lookup k s.last_seq)))
              ((string_Key.same_iff symbol j).0 same)
              (Decides-Advances detect_gap seq (lookup symbol s.last_seq) decision
                (classify_sequence-Decides symbol seq detect_gap s)))
        | inr other ↦ rw other (Advances-refl (lookup j s.last_seq))
      ])
    where
      decision : SequenceDecision
      decision = (classify_sequence symbol seq detect_gap s).0
