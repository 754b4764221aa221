-- ===== src/Engine/Bridge/Frontier.antt =====
-- What a successful drain of `KafkaConsumerBridge` (src/engine/engine.py) comes to.
use realtime_market_data_pla.Common.{
  ℕ, ◌≡◌, refl, ap, ◌∙◌, inl, inr, true, false, Option, none, some, List, [], arith, length,
  contains, nat_Key, string_Key, pair_Key, Bool-cases, Option-cases,
}
use realtime_market_data_pla.Engine.Bridge.Trace.{step, Trace, IsSafe, Done, Call, run, drains}
use realtime_market_data_pla.Common.Dict.{Dict, lookup, IsUnique}
use realtime_market_data_pla.Engine.Bridge.{
  planned, init, TopicPartition, drain_acknowledgements, drained, KafkaConsumerBridge, apply_all,
  ConsumedEvent, advance,
}
use realtime_market_data_pla.Engine.Bridge.Retained.{
  IsRetained, is_held, is_below, drained-IsRetained, run-IsRetained,
}
use realtime_market_data_pla.Engine.Bridge.Safety.{
  fresh_trace, run-IsSafe, fresh_trace-IsSafe, drain-IsSafe,
}
use realtime_market_data_pla.Engine.Bridge.Settle.{is_queued}
use realtime_market_data_pla.Engine.Bridge.Planned.{cursor_of, plan_absent, plan_present}
use realtime_market_data_pla.Engine.Bridge.Drain.{has_offset_none}
use realtime_market_data_pla.Engine.Bridge.Cursor.{advance-le, advance_stops}

-- What the bridge is to commit of a partition: its first offset that was not acknowledged, from the
-- first consumed one on.
pub record IsFrontier (first : Dict TopicPartition ℕ) (acked : List (TopicPartition × ℕ))
    (key : TopicPartition) (n : ℕ) : Type 0 where
  pub before : Done first acked key n
  pub missing : contains (key, n) acked ≡ false

module _ {F : Type 0} where
  fresh_trace-IsRetained : IsRetained (fresh_trace {F = F})
  unfolding init contains
  fresh_trace-IsRetained = record { unique = tt; held = λ key o e. absurd (ground arith) }

  -- After the drain the cursor stands at no offset that the drained bridge holds.
  cursor_missing :
      (key : TopicPartition) (start : ℕ) (b : KafkaConsumerBridge F)
      → IsUnique b.pending_acknowledgements
      → lookup key b.next_commit_offsets ≡ some start
      → b.acknowledgements ≡ []
      → (n : ℕ) × (lookup key (apply_all (planned b) b).next_commit_offsets ≡ some n)
        × (is_held key n b ≡ false)
  unfolding planned is_held is_below is_queued cursor_of
  cursor_missing key start b u at empty = from_entry (lookup key b.pending_acknowledgements) refl
    where
      from_entry :
          (d : Option (Dict ℕ (ConsumedEvent F)))
          → lookup key b.pending_acknowledgements ≡ d
          → (n : ℕ) × (lookup key (apply_all (planned b) b).next_commit_offsets ≡ some n)
            × (is_held key n b ≡ false)
      from_entry none e =
          let after =
            plan_absent key b.pending_acknowledgements b.next_commit_offsets b none (some start) e
              (e, at) in
          (start, after.1, ground (arith, has_offset_none F start))
      from_entry (some d) e =
          let after =
            plan_present key b.pending_acknowledgements b.next_commit_offsets b d u e (e, refl) in
          (
            advance (length d) start d,
            after.1 ∙ ap (cursor_of (some d)) at,
            ground (
              arith,
              advance-le (length d) start d,
              advance_stops (length d) start d (omega arith),
            ),
          )

  -- The consumed partitions are known to the bridge.
  first-next :
      (t : Trace F) (key : TopicPartition) (lowest : ℕ)
      → IsSafe t
      → lookup key t.first ≡ some lowest
      → (start : ℕ) × (lookup key t.bridge.next_commit_offsets ≡ some start)
  first-next t key lowest v at = elim (Option-cases (lookup key t.bridge.next_commit_offsets)) [
    | inl unseen ↦
        let unknown : lookup key t.first ≡ none = v.fresh key unseen in absurd (ground arith)
    | inr known ↦ known
  ]

  -- In any run of a new bridge, a drain whose commit succeeds brings every consumed partition to
  -- its frontier: the offset that it is to commit next is the first one not acknowledged, counted
  -- from the first one consumed.
  pub drain-IsFrontier :
      (calls : List (Call F)) (key : TopicPartition) (lowest : ℕ)
      → lookup key (run fresh_trace calls).first ≡ some lowest
      → (n : ℕ) × (lookup key
            (step (run fresh_trace calls) (drains true)).bridge.next_commit_offsets
          ≡ some n)
        × IsFrontier (run fresh_trace calls).first (run fresh_trace calls).acked key n
  unfolding step drain_acknowledgements drained
  drain-IsFrontier calls key lowest at =
      let t = run fresh_trace calls in
      let v = run-IsSafe fresh_trace calls fresh_trace-IsSafe in
      let r = drained-IsRetained t (run-IsRetained fresh_trace calls fresh_trace-IsRetained) in
      let (start, known) = first-next t key lowest v at in
      let (n, next, missing) =
        cursor_missing key start (drained t.bridge) r.unique (known) (refl) in
      let unacknowledged : contains (key, n) t.acked ≡ false =
        elim (Bool-cases (contains (key, n) t.acked)) [
          | inl known ↦ let held = r.held key n known in absurd (ground arith)
          | inr missed ↦ missed
        ] in
      (
        n,
        next,
        record { before = (drain-IsSafe true t v).next_done key n next; missing = unacknowledged },
      )
