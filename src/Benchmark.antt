-- ===== src/Benchmark.antt =====
-- The clients of src/benchmark/load_bench.py: how `run_client` counts the frames that it receives.
pub mod Counted
use realtime_market_data_pla.Common.{
  ℕ, zero, suc, ◌+◌, ◌-◌, ◌*◌, ◌/◌, ◌%◌, ◌≤◌, ◌<◌, min, max, String, ◌≡◌, refl, sym, ap, ap₂, subst,
  ◌∙◌, ◌≢◌, ◌↔◌, ◌⊎◌, inl, inr, Bool, true, false, not, ◌&&◌, ◌||◌, Option, none, some, List, [],
  ◌∷◌, ◌++◌, map, append-nil, append_assoc, arith, dec_lt, length, drop, take, last_n,
  length-append, All, All-append, All-map, contains, discard, contains-append_one, All-contains,
  ltb, leb, if◌then◌else◌, Key, ◌==◌, nat_Key, string_Key, pair_Key, beq_refl, Bool-cases,
  Option-cases,
}
use realtime_market_data_pla.Common.Int.{ℤ, ltb_ℤ, max_ℤ, beq_ℤ, pos}
use realtime_market_data_pla.Common.Dict.{lookup, Dict, insert}

-- What a frame has for an `event_ts`: nothing; a value that is no integer; one that raises an
-- `OverflowError`, an infinite one in `int`, a huge one in the subtraction; or one with a latency, and
-- whether that is finite.
pub data Timestamp (F : Type 0) : Type 0 where
  absent : Timestamp F
  unreadable : Timestamp F
  overflowing : Timestamp F
  latency : F → Bool → Timestamp F

-- A frame, as far as it is read: JSON that is no object, or an object with an infinite `seq`, which
-- raise what the loop does not catch; one that is no JSON, or has no sequence number; or one with a
-- number.
pub data Frame (S : Type 0) (F : Type 0) : Type 0 where
  not_object : Frame S F
  infinite : Frame S F
  unnumbered : Frame S F
  numbered : S → ℤ → Timestamp F → Frame S F

-- The `ClientResult` with `last_seq`.
pub record Client (S : Type 0) (F : Type 0) : Type 0 where
  pub received : ℕ
  pub malformed : ℕ
  pub sequence_regressions : ℕ
  pub latencies_ms : List F
  pub error : Bool
  pub last_seq : Dict S ℤ

-- `previous is not None and seq < previous`
unfoldable pub is_regression : Option ℤ → ℤ → Bool
is_regression none seq = false
is_regression (some previous) seq = ltb_ℤ seq previous

-- `max(seq, previous or seq)`, 0 being false
unfoldable pub next_last : Option ℤ → ℤ → ℤ
next_last none seq = seq
next_last (some previous) seq = if beq_ℤ previous (pos 0) then seq else max_ℤ seq previous

module _ {S : Type 0} {F : Type 0} ⦃key : Key S⦄ where
  unfoldable pub init : Client S F
  init = record {
    received = 0;
    malformed = 0;
    sequence_regressions = 0;
    latencies_ms = [];
    error = false;
    last_seq = [];
  }

  -- the number of a frame
  unfoldable pub note_seq : S → ℤ → Client S F → Client S F
  unfolding is_regression next_last
  note_seq symbol seq c =
      let previous = lookup symbol c.last_seq in
      record c {
        sequence_regressions =
            if is_regression previous seq
            then c.sequence_regressions + 1
            else c.sequence_regressions;
        last_seq = insert symbol (next_last previous seq) c.last_seq;
      }

  -- the rest of a frame with a number, and whether the loop goes on
  unfoldable pub note_timestamp : Timestamp F → Client S F → Client S F × Bool
  note_timestamp absent c = (record c { received = c.received + 1 }, true)
  note_timestamp unreadable c = (record c { malformed = c.malformed + 1 }, true)
  note_timestamp overflowing c = (record c { error = true }, false)
  note_timestamp (latency x is_finite) c = (
    record c {
      latencies_ms = if is_finite then c.latencies_ms ++ x ∷ [] else c.latencies_ms;
      received = c.received + 1;
    },
    true,
  )

  -- The loop of `run_client`, over the frames that arrive before the deadline.
  unfoldable pub run_client : List (Frame S F) → Client S F → Client S F
  unfolding note_seq note_timestamp
  run_client [] c = c
  run_client (not_object ∷ frames) c = record c { error = true }
  run_client (infinite ∷ frames) c = record c { error = true }
  run_client (unnumbered ∷ frames) c = run_client frames (record c { malformed = c.malformed + 1 })
  run_client (numbered symbol seq ts ∷ frames) c =
      let (c', goes_on) = note_timestamp ts (note_seq symbol seq c) in
      let rest = run_client frames c' in if goes_on then rest else c'
