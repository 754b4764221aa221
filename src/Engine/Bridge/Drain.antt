-- ===== src/Engine/Bridge/Drain.antt =====
-- What one `_drain_acknowledgements` (src/engine/engine.py) commits and keeps.
use realtime_market_data_pla.Common.{
  ℕ, zero, suc, ◌+◌, ◌-◌, ◌≤◌, ◌<◌, ◌≡◌, refl, subst, ◌⊎◌, inl, inr, true, false, Option, none,
  some, List, [], ◌∷◌, arith, length, All, ltb, nat_Key, string_Key, pair_Key, Bool-cases,
  Option-cases,
}
use realtime_market_data_pla.Engine.Bridge.{
  TopicPartition, note_pending, plan, collect, ConsumedEvent, Advance, advance, key_of, has_offset,
  apply_all, apply_advance, pop_range, KafkaConsumerBridge, pop_offsets,
}
use realtime_market_data_pla.Common.Dict.{
  Dict, lookup, insert, get_or, All-insert, delete, lookup-insert, All-lookup, lookup-delete,
  insert-cases, lookup-insert-none,
}
use realtime_market_data_pla.Engine.Bridge.Trace.{PendingAcked, WasAcked}
use realtime_market_data_pla.Engine.Bridge.Cursor.{advance_passes}

-- A planned advance starts at the partition's offset, and passes acknowledged offsets alone.
abbrev pub Sound : List (TopicPartition × ℕ) → Dict TopicPartition ℕ → Advance → Type 0
Sound acked nexts a =
    (lookup a.key nexts ≡ some a.start)
    × ((o : ℕ) → a.start ≤ o → o < a.cursor → WasAcked acked a.key o)

module _ {F : Type 0} where
  has_offset-insert :
      (k o : ℕ) (c : ConsumedEvent F) (d : Dict ℕ (ConsumedEvent F))
      → has_offset o (insert k c d) ≡ true
      → (k ≡ o) ⊎ (has_offset o d ≡ true)
  unfolding has_offset
  has_offset-insert k o c d h = ground (arith, lookup-insert k o c d)

  delete-subset :
      (k o : ℕ) (d : Dict ℕ (ConsumedEvent F))
      → has_offset o (delete k d) ≡ true
      → has_offset o d ≡ true
  unfolding has_offset
  delete-subset k o d h = ground (arith, lookup-delete k o d)

pub has_offset_none : (F : Type 0) (o : ℕ) → has_offset {F = F} o [] ≡ false
unfolding has_offset lookup
has_offset_none F o = refl

module _ {F : Type 0} (acked : List (TopicPartition × ℕ)) where
  note_pending-acked :
      (c : ConsumedEvent F) (pending : Dict TopicPartition (Dict ℕ (ConsumedEvent F)))
      → WasAcked acked (key_of c) c.offset
      → All (PendingAcked acked) pending
      → All (PendingAcked acked) (note_pending c pending)
  unfolding note_pending
  note_pending-acked c pending here h =
      All-insert (PendingAcked acked) (key_of c)
        (insert c.offset c (get_or (lookup (key_of c) pending) [])) pending
        (λ o e. by_offset o (lookup (key_of c) pending) refl e) h
    where
      by_offset :
          (o : ℕ) (old : Option (Dict ℕ (ConsumedEvent F)))
          → lookup (key_of c) pending ≡ old
          → has_offset o (insert c.offset c (get_or old [])) ≡ true
          → WasAcked acked (key_of c) o
      by_offset o none e there = elim (has_offset-insert c.offset o c [] there) [
        | inl same ↦ subst (WasAcked acked (key_of c)) same here
        | inr old ↦ absurd (ground (arith, has_offset_none F o))
      ]
      by_offset o (some d) e there = elim (has_offset-insert c.offset o c d there) [
        | inl same ↦ subst (WasAcked acked (key_of c)) same here
        | inr old ↦ All-lookup (PendingAcked acked) (key_of c) d pending h e o old
      ]

  pub collect-acked :
      (acks : List (ConsumedEvent F)) (pending : Dict TopicPartition (Dict ℕ (ConsumedEvent F)))
      → All (λ c. WasAcked acked (key_of c) c.offset) acks
      → All (PendingAcked acked) pending
      → All (PendingAcked acked) (collect acks pending)
  unfolding collect
  collect-acked [] pending q h = h
  collect-acked (c ∷ acks) pending q h =
      collect-acked acks (note_pending c pending) q.1 (note_pending-acked c pending q.0 h)

  pub plan-Sound :
      (pending : Dict TopicPartition (Dict ℕ (ConsumedEvent F))) (nexts : Dict TopicPartition ℕ)
      → All (PendingAcked acked) pending
      → All (Sound acked nexts) (plan pending nexts)
  unfolding plan
  plan-Sound [] nexts h = tt
  plan-Sound ((key, d) ∷ rest) nexts h = elim (Option-cases (lookup key nexts)) [
    | inl none_seen ↦ rw (none_seen, plan) (plan-Sound rest nexts h.1)
    | inr (start, at) ↦
        let cursor = advance (length d) start d in
        rw (at, plan)
          (elim (Bool-cases (ltb start (advance (length d) start d))) [
            | inl moves ↦ rw moves (
              (at, λ o lo hi. h.0 o (advance_passes (length d) start o d lo hi)),
              plan-Sound rest nexts h.1,
            )
            | inr stays ↦ rw stays (plan-Sound rest nexts h.1)
          ])
  ]

  pop_range-subset :
      (n start o : ℕ) (d : Dict ℕ (ConsumedEvent F))
      → has_offset o (pop_range n start d) ≡ true
      → has_offset o d ≡ true
  unfolding pop_range
  pop_range-subset zero start o d h = h
  pop_range-subset (suc n) start o d h =
      delete-subset start o d (pop_range-subset n (start + 1) o (delete start d) h)

  pop_offsets-acked :
      (a : Advance) (pending : Dict TopicPartition (Dict ℕ (ConsumedEvent F)))
      (old : Option (Dict ℕ (ConsumedEvent F)))
      → lookup a.key pending ≡ old
      → All (PendingAcked acked) pending
      → All (PendingAcked acked) (pop_offsets old a pending)
  unfolding pop_offsets
  pop_offsets-acked a pending none e h = h
  pop_offsets-acked a pending (some d) e h =
      All-insert (PendingAcked acked) a.key (pop_range (a.cursor - a.start) a.start d) pending
        (λ o there.
          All-lookup (PendingAcked acked) a.key d pending h e o
            (pop_range-subset (a.cursor - a.start) a.start o d there))
        h

  -- Applying an advance forgets pending offsets, and moves its partition alone.
  apply_advance-acked :
      (a : Advance) (b : KafkaConsumerBridge F)
      → All (PendingAcked acked) b.pending_acknowledgements
      → All (PendingAcked acked) (apply_advance a b).pending_acknowledgements
  unfolding apply_advance
  apply_advance-acked a b h =
      pop_offsets-acked a b.pending_acknowledgements (lookup a.key b.pending_acknowledgements) refl
        h

  pub apply_all-acked :
      (advances : List Advance) (b : KafkaConsumerBridge F)
      → All (PendingAcked acked) b.pending_acknowledgements
      → All (PendingAcked acked) (apply_all advances b).pending_acknowledgements
  unfolding apply_all
  apply_all-acked [] b h = h
  apply_all-acked (a ∷ advances) b h =
      apply_all-acked advances (apply_advance a b) (apply_advance-acked a b h)

module _ {F : Type 0} where
  -- A partition's next offset after all advances is the old one, or the cursor of an advance.
  pub apply_all-next :
      (P : TopicPartition → ℕ → Type 0) (advances : List Advance) (b : KafkaConsumerBridge F)
      → All (λ a. P a.key a.cursor) advances
      → ((key : TopicPartition) (n : ℕ) → lookup key b.next_commit_offsets ≡ some n → P key n)
      → (key : TopicPartition) (n : ℕ)
      → lookup key (apply_all advances b).next_commit_offsets ≡ some n
      → P key n
  unfolding apply_all apply_advance
  apply_all-next P [] b all old key n e = old key n e
  apply_all-next P (a ∷ advances) b all old key n e =
      apply_all-next P advances (apply_advance a b) all.1
        (λ j m at. elim (insert-cases a.key j a.cursor m b.next_commit_offsets at) [
          | inl (k, c) ↦ subst (P j) c (subst (λ i. P i a.cursor) k all.0)
          | inr before ↦ old j m before
        ])
        key n e

  pub apply_all-fresh :
      (advances : List Advance) (b : KafkaConsumerBridge F) (key : TopicPartition)
      → lookup key (apply_all advances b).next_commit_offsets ≡ none
      → lookup key b.next_commit_offsets ≡ none
  unfolding apply_all apply_advance
  apply_all-fresh [] b key e = e
  apply_all-fresh (a ∷ advances) b key e =
      lookup-insert-none a.key key a.cursor b.next_commit_offsets
        (apply_all-fresh advances (apply_advance a b) key e)

  pub apply_all-queue :
      (advances : List Advance) (b : KafkaConsumerBridge F)
      → (apply_all advances b).acknowledgements ≡ b.acknowledgements
  unfolding apply_all apply_advance
  apply_all-queue [] b = refl
  apply_all-queue (a ∷ advances) b = apply_all-queue advances (apply_advance a b)
