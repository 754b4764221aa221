-- ===== src/Engine/Bridge/Retained.antt =====
-- The bridge (src/engine/engine.py) loses no acknowledgement.
use realtime_market_data_pla.Common.{
  ℕ, ◌≡◌, inl, inr, Bool, true, false, ◌&&◌, ◌||◌, Option, none, some, List, [], ◌∷◌, ◌++◌, arith,
  contains, ltb, Key, ◌==◌, nat_Key, string_Key, pair_Key, Option-cases, refl, sym, length, ◌-◌,
  ◌∙◌, append-nil,
}
use realtime_market_data_pla.Engine.Bridge.{
  TopicPartition, track_consumed, collect, drained, ConsumedEvent, acknowledge, note_pending,
  KafkaConsumerBridge, key_of, has_offset, apply_all, drain_acknowledgements, planned, plan,
  apply_advance, pop_offsets, advance, Advance, pop_range,
}
use realtime_market_data_pla.Engine.Bridge.Settle.{
  is_queued, has_offset-collect, pending_of, has_offset-pop_range,
}
use realtime_market_data_pla.Engine.Bridge.Trace.{
  Trace, step, consumes, acknowledges, run, Call, drains,
}
use realtime_market_data_pla.Common.Dict.{
  IsUnique, lookup, Dict, insert-IsUnique, lookup-insert, insert, get_or,
}
use realtime_market_data_pla.Engine.Bridge.Planned.{
  left_of, Stands, cursor_of, plan_absent, plan_present,
}
use realtime_market_data_pla.Engine.Bridge.Drain.{apply_all-queue}
use realtime_market_data_pla.Engine.Bridge.Cursor.{advance-le}

-- The offset lies behind the one to be committed next.
unfoldable pub is_below : Option ℕ → ℕ → Bool
is_below none o = false
is_below (some next) o = ltb o next

module _ {F : Type 0} where
  -- The bridge has not lost the acknowledgement: it is committed, pending or in the queue.
  unfoldable pub is_held : TopicPartition → ℕ → KafkaConsumerBridge F → Bool
  unfolding is_below
  is_held key o b =
      is_below (lookup key b.next_commit_offsets) o
      || has_offset o (pending_of key b.pending_acknowledgements)
      || is_queued key o b.acknowledgements

  pub record IsRetained (t : Trace F) : Type 0 where
    pub unique : IsUnique t.bridge.pending_acknowledgements
    pub held :
        (key : TopicPartition) (o : ℕ)
        → contains (key, o) t.acked ≡ true
        → is_held key o t.bridge ≡ true

  track-is_held :
      (c : ConsumedEvent F) (key : TopicPartition) (o : ℕ) (b : KafkaConsumerBridge F)
      → is_held key o b ≡ true
      → is_held key o (track_consumed c b) ≡ true
  unfolding is_held track_consumed
  track-is_held c key o b h = elim (Option-cases (lookup (key_of c) b.next_commit_offsets)) [
    | inr (n, seen) ↦ ground arith
    | inl unseen ↦ ground (
      arith,
      lookup-insert (key_of c) key c.offset b.next_commit_offsets,
      pair_eq.same_iff (key_of c) key,
    )
  ]
    where
      pair_eq : Key TopicPartition
      pair_eq = pair_Key

  track-pending :
      (c : ConsumedEvent F) (b : KafkaConsumerBridge F)
      → (track_consumed c b).pending_acknowledgements ≡ b.pending_acknowledgements
  unfolding track_consumed
  track-pending c b = ground arith

  track-IsRetained :
      (c : ConsumedEvent F) (t : Trace F) → IsRetained t → IsRetained (step t (consumes c))
  unfolding step
  track-IsRetained c t v = record {
    unique = rw (track-pending c t.bridge) v.unique;
    held = λ key o e. track-is_held c key o t.bridge (v.held key o e);
  }

  is_queued-append :
      (key : TopicPartition) (o : ℕ) (c : ConsumedEvent F) (acks : List (ConsumedEvent F))
      → is_queued key o (acks ++ c ∷ [])
        ≡ (is_queued key o acks || (key_of c == key && c.offset == o))
  unfolding is_queued
  is_queued-append key o c [] = ground arith
  is_queued-append key o c (x ∷ acks) = ground (arith, is_queued-append key o c acks)

  acknowledge-IsRetained :
      (c : ConsumedEvent F) (t : Trace F) → IsRetained t → IsRetained (step t (acknowledges c))
  unfolding step acknowledge is_held contains
  acknowledge-IsRetained c t v = record {
    unique = v.unique;
    held = λ key o e. ground (
      arith,
      is_queued-append key o c t.bridge.acknowledgements,
      v.held key o,
      pair_eq.same_iff (key, o) (key_of c, c.offset),
      key_eq.same_iff (key_of c) key,
    );
  }
    where
      pair_eq : Key (TopicPartition × ℕ)
      pair_eq = pair_Key

      key_eq : Key TopicPartition
      key_eq = pair_Key

  collect-IsUnique :
      (acks : List (ConsumedEvent F)) (pending : Dict TopicPartition (Dict ℕ (ConsumedEvent F)))
      → IsUnique pending
      → IsUnique (collect acks pending)
  unfolding collect note_pending
  collect-IsUnique [] pending u = u
  collect-IsUnique (c ∷ acks) pending u = collect-IsUnique acks (note_pending c pending) (
      insert-IsUnique (key_of c) (insert c.offset c (get_or (lookup (key_of c) pending) [])) pending
        u)

  pub drained-IsRetained :
      (t : Trace F) → IsRetained t → IsRetained (record t { bridge = drained t.bridge })
  unfolding drained is_held is_queued
  drained-IsRetained t v = record {
    unique = collect-IsUnique t.bridge.acknowledgements t.bridge.pending_acknowledgements v.unique;
    held = λ key o e. ground (
      arith,
      v.held key o e,
      has_offset-collect key o t.bridge.acknowledgements t.bridge.pending_acknowledgements,
    );
  }

  apply_all-IsUnique :
      (advances : List Advance) (b : KafkaConsumerBridge F)
      → IsUnique b.pending_acknowledgements
      → IsUnique (apply_all advances b).pending_acknowledgements
  unfolding apply_all apply_advance pop_offsets
  apply_all-IsUnique [] b u = u
  apply_all-IsUnique (a ∷ advances) b u =
      apply_all-IsUnique advances (apply_advance a b)
        (from_old (lookup a.key b.pending_acknowledgements))
    where
      from_old :
          (old : Option (Dict ℕ (ConsumedEvent F)))
          → IsUnique (pop_offsets old a b.pending_acknowledgements)
      from_old none = u
      from_old (some d) =
          insert-IsUnique a.key (pop_range (a.cursor - a.start) a.start d)
            b.pending_acknowledgements u

  -- Read through what stands in the bridge.
  abbrev held_by :
      TopicPartition
      → ℕ
      → Option (Dict ℕ (ConsumedEvent F))
      → Option ℕ
      → List (ConsumedEvent F)
      → Bool
  held_by key o d next acks = is_below next o || has_offset o (get_or d []) || is_queued key o acks

  is_held-held_by :
      (key : TopicPartition) (o : ℕ) (d : Option (Dict ℕ (ConsumedEvent F))) (next : Option ℕ)
      (b : KafkaConsumerBridge F)
      → Stands key d next b
      → is_held key o b ≡ held_by key o d next b.acknowledgements
  unfolding is_held
  is_held-held_by key o d next b (at, at') = rw (at, at') refl

  held_by-moves :
      (key : TopicPartition) (o : ℕ) (d : Dict ℕ (ConsumedEvent F)) (next : Option ℕ)
      (acks : List (ConsumedEvent F))
      → held_by key o (some d) next acks ≡ true
      → held_by key o (left_of (some d) next) (cursor_of (some d) next) acks ≡ true
  unfolding left_of cursor_of is_below
  held_by-moves key o d none acks h = h
  held_by-moves key o d (some start) acks h = ground (
    arith,
    has_offset-pop_range (advance (length d) start d - start) start o d,
    advance-le (length d) start d,
  )

  planned-is_held :
      (key : TopicPartition) (o : ℕ) (b : KafkaConsumerBridge F)
      → IsUnique b.pending_acknowledgements
      → is_held key o b ≡ true
      → is_held key o (apply_all (planned b) b) ≡ true
  unfolding planned
  planned-is_held key o b u h = from_entry (lookup key b.pending_acknowledgements) refl
    where
      queue :
          (apply_all (plan b.pending_acknowledgements b.next_commit_offsets) b).acknowledgements
          ≡ b.acknowledgements
      queue = apply_all-queue (plan b.pending_acknowledgements b.next_commit_offsets) b

      from_entry :
          (d : Option (Dict ℕ (ConsumedEvent F)))
          → lookup key b.pending_acknowledgements ≡ d
          → is_held key o (apply_all (plan b.pending_acknowledgements b.next_commit_offsets) b)
            ≡ true
      from_entry none e =
          let next = lookup key b.next_commit_offsets in
          let after =
            plan_absent key b.pending_acknowledgements b.next_commit_offsets b none next e
              (e, refl) in
          rw
            (
              is_held-held_by key o none next
                  (apply_all (plan b.pending_acknowledgements b.next_commit_offsets) b) after,
              queue,
            )
            (sym (is_held-held_by key o none next b (e, refl)) ∙ h)
      from_entry (some d) e =
          let next = lookup key b.next_commit_offsets in
          let after =
            plan_present key b.pending_acknowledgements b.next_commit_offsets b d u e (e, refl) in
          rw
            (
              is_held-held_by key o (left_of (some d) next) (cursor_of (some d) next)
                  (apply_all (plan b.pending_acknowledgements b.next_commit_offsets) b) after,
              queue,
            )
            (held_by-moves key o d next b.acknowledgements
              (sym (is_held-held_by key o (some d) next b (e, refl)) ∙ h))

  drain-IsRetained : (ok : Bool) (t : Trace F) → IsRetained t → IsRetained (step t (drains ok))
  unfolding step drain_acknowledgements
  drain-IsRetained false t v = rw (append-nil t.committed) (drained-IsRetained t v)
  drain-IsRetained true t v =
      let v' = drained-IsRetained t v in
      record {
        unique = apply_all-IsUnique (planned (drained t.bridge)) (drained t.bridge) v'.unique;
        held = λ key o e. planned-is_held key o (drained t.bridge) v'.unique (v'.held key o e);
      }

  pub run-IsRetained :
      (t : Trace F) (calls : List (Call F)) → IsRetained t → IsRetained (run t calls)
  unfolding run
  run-IsRetained t [] v = v
  run-IsRetained t (consumes c ∷ calls) v =
      run-IsRetained (step t (consumes c)) calls (track-IsRetained c t v)
  run-IsRetained t (acknowledges c ∷ calls) v =
      run-IsRetained (step t (acknowledges c)) calls (acknowledge-IsRetained c t v)
  run-IsRetained t (drains ok ∷ calls) v =
      run-IsRetained (step t (drains ok)) calls (drain-IsRetained ok t v)
