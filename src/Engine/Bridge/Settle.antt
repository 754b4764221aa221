-- ===== src/Engine/Bridge/Settle.antt =====
-- What one `_drain_acknowledgements` (src/engine/engine.py) makes of one partition.
use realtime_market_data_pla.Common.{
  ℕ, zero, suc, ◌+◌, ◌≡◌, inl, inr, Bool, false, not, ◌&&◌, ◌||◌, List, [], ◌∷◌, arith, ltb, leb,
  Key, ◌==◌, nat_Key, string_Key, pair_Key, Bool-cases,
}
use realtime_market_data_pla.Engine.Bridge.{
  note_pending, pop_range, TopicPartition, collect, ConsumedEvent, has_offset, key_of,
}
use realtime_market_data_pla.Common.Dict.{
  Dict, delete, get_or, lookup-insert, lookup, lookup-delete, insert,
}

module _ {F : Type 0} where
  -- `pending.get(key, {})`
  abbrev pub pending_of :
      TopicPartition → Dict TopicPartition (Dict ℕ (ConsumedEvent F)) → Dict ℕ (ConsumedEvent F)
  pending_of key pending = get_or (lookup key pending) []

  -- The acknowledgement waits in the queue.
  unfoldable pub is_queued : TopicPartition → ℕ → List (ConsumedEvent F) → Bool
  is_queued key o [] = false
  is_queued key o (c ∷ acks) = (key_of c == key && c.offset == o) || is_queued key o acks

  has_offset-note_pending :
      (key : TopicPartition) (o : ℕ) (c : ConsumedEvent F)
      (pending : Dict TopicPartition (Dict ℕ (ConsumedEvent F)))
      → has_offset o (pending_of key (note_pending c pending))
        ≡ (has_offset o (pending_of key pending) || (key_of c == key && c.offset == o))
  unfolding note_pending has_offset
  has_offset-note_pending key o c pending = elim (Bool-cases (key_of c == key)) [
    | inl same ↦ ground (
      arith,
      lookup-insert (key_of c) key (insert c.offset c (pending_of (key_of c) pending)) pending,
      lookup-insert c.offset o c (pending_of (key_of c) pending),
      (pair_eq.same_iff (key_of c) key).0 same,
    )
    | inr other ↦ ground (
      arith,
      lookup-insert (key_of c) key (insert c.offset c (pending_of (key_of c) pending)) pending,
    )
  ]
    where
      pair_eq : Key TopicPartition
      pair_eq = pair_Key

  -- The drained queue is pending, and what was pending is.
  pub has_offset-collect :
      (key : TopicPartition) (o : ℕ) (acks : List (ConsumedEvent F))
      (pending : Dict TopicPartition (Dict ℕ (ConsumedEvent F)))
      → has_offset o (pending_of key (collect acks pending))
        ≡ (has_offset o (pending_of key pending) || is_queued key o acks)
  unfolding collect is_queued
  has_offset-collect key o [] pending = ground arith
  has_offset-collect key o (c ∷ acks) pending =
      rw
        (
          has_offset-collect key o acks (note_pending c pending),
          has_offset-note_pending key o c pending,
        )
        (ground arith)

  pub has_offset-pop_range :
      (n start o : ℕ) (d : Dict ℕ (ConsumedEvent F))
      → has_offset o (pop_range n start d)
        ≡ (has_offset o d && not (leb start o && ltb o (start + n)))
  unfolding pop_range has_offset
  has_offset-pop_range zero start o d = ground arith
  has_offset-pop_range (suc n) start o d =
      rw (has_offset-pop_range n (start + 1) o (delete start d))
        (ground (arith, lookup-delete start o d))
