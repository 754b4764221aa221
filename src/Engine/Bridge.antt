-- ===== src/Engine/Bridge.antt =====
-- `KafkaConsumerBridge` of src/engine/engine.py: which offsets are committed.
pub mod Cursor
pub mod Trace
pub mod Drain
pub mod Safety
pub mod Settle
pub mod Planned
pub mod Retained
pub mod Frontier
use realtime_market_data_pla.Common.{
  ℕ, zero, suc, ◌+◌, ◌-◌, ◌*◌, ◌/◌, ◌%◌, ◌≤◌, ◌<◌, min, max, String, ◌≡◌, refl, sym, ap, ap₂, subst,
  ◌∙◌, ◌≢◌, ◌↔◌, ◌⊎◌, inl, inr, Bool, true, false, not, ◌&&◌, ◌||◌, Option, none, some, List, [],
  ◌∷◌, ◌++◌, map, append-nil, append_assoc, arith, length, drop, last_n, length-append, All,
  All-append, contains, ltb, leb, if◌then◌else◌, Key, ◌==◌, nat_Key, string_Key, pair_Key, beq_refl,
  Bool-cases, Option-cases,
}
use realtime_market_data_pla.Common.Dict.{lookup, Dict, insert, delete, get_or}
use realtime_market_data_pla.Models.{MarketEvent}

-- The key of the bridge's dictionaries: `(topic, partition)`.
abbrev pub TopicPartition : Type 0
TopicPartition = String × ℕ

pub record ConsumedEvent (F : Type 0) : Type 0 where
  pub event : MarketEvent F
  pub topic : String
  pub partition : ℕ
  pub offset : ℕ

-- The part of the bridge that the consumer thread works on.
pub record KafkaConsumerBridge (F : Type 0) : Type 0 where
  pub acknowledgements : List (ConsumedEvent F)
  pub pending_acknowledgements : Dict TopicPartition (Dict ℕ (ConsumedEvent F))
  pub next_commit_offsets : Dict TopicPartition ℕ

-- An entry of `advances`, and the `TopicPartition` that is committed for it.
pub record Advance : Type 0 where
  pub key : TopicPartition
  pub start : ℕ
  pub cursor : ℕ

module _ {F : Type 0} where
  abbrev pub key_of : ConsumedEvent F → TopicPartition
  key_of c = (c.topic, c.partition)

  unfoldable pub init : KafkaConsumerBridge F
  init = record { acknowledgements = []; pending_acknowledgements = []; next_commit_offsets = [] }

  unfoldable pub acknowledge : ConsumedEvent F → KafkaConsumerBridge F → KafkaConsumerBridge F
  acknowledge consumed b = record b { acknowledgements = b.acknowledgements ++ consumed ∷ [] }

  -- `_track_consumed`: the first offset that is seen of a partition
  unfoldable pub track_consumed : ConsumedEvent F → KafkaConsumerBridge F → KafkaConsumerBridge F
  track_consumed consumed b = elim (lookup (key_of consumed) b.next_commit_offsets) [
    | none ↦ record b {
      next_commit_offsets = insert (key_of consumed) consumed.offset b.next_commit_offsets;
    }
    | some _ ↦ b
  ]

  -- `self._pending_acknowledgements.setdefault(key, {})[consumed.offset] = consumed`
  unfoldable pub note_pending :
      ConsumedEvent F
      → Dict TopicPartition (Dict ℕ (ConsumedEvent F))
      → Dict TopicPartition (Dict ℕ (ConsumedEvent F))
  note_pending c pending =
      insert (key_of c) (insert c.offset c (get_or (lookup (key_of c) pending) [])) pending

  -- the first loop of `_drain_acknowledgements`
  unfoldable pub collect :
      List (ConsumedEvent F)
      → Dict TopicPartition (Dict ℕ (ConsumedEvent F))
      → Dict TopicPartition (Dict ℕ (ConsumedEvent F))
  collect [] pending = pending
  collect (c ∷ acks) pending = collect acks (note_pending c pending)

  -- `offset in pending`
  unfoldable pub has_offset : ℕ → Dict ℕ (ConsumedEvent F) → Bool
  has_offset o pending = elim (lookup o pending) [ none ↦ false | some _ ↦ true ]

  -- `while cursor in pending: cursor += 1`, with fuel
  unfoldable pub advance : ℕ → ℕ → Dict ℕ (ConsumedEvent F) → ℕ
  advance zero cursor pending = cursor
  advance (suc fuel) cursor pending =
      let rest = advance fuel (cursor + 1) pending in
      if has_offset cursor pending then rest else cursor

  -- the second loop: the partitions whose cursor moves
  unfoldable pub plan :
      Dict TopicPartition (Dict ℕ (ConsumedEvent F)) → Dict TopicPartition ℕ → List Advance
  plan [] nexts = []
  plan ((key, pending) ∷ rest) nexts =
      let more = plan rest nexts in
      elim (lookup key nexts) [
        | none ↦ more
        | some start ↦
            let cursor = advance (length pending) start pending in
            if ltb start cursor
            then record { key = key; start = start; cursor = cursor } ∷ more
            else more
      ]

  -- `for offset in range(start, start + n): pending.pop(offset, None)`
  unfoldable pub pop_range : ℕ → ℕ → Dict ℕ (ConsumedEvent F) → Dict ℕ (ConsumedEvent F)
  pop_range zero start pending = pending
  pop_range (suc n) start pending = pop_range n (start + 1) (delete start pending)

  -- The offsets that an advance passes leave `pending`. The `KeyError` of a missing key is not
  -- reached, the key of an advance being one of `pending`.
  unfoldable pub pop_offsets :
      Option (Dict ℕ (ConsumedEvent F))
      → Advance
      → Dict TopicPartition (Dict ℕ (ConsumedEvent F))
      → Dict TopicPartition (Dict ℕ (ConsumedEvent F))
  pop_offsets none a pending = pending
  pop_offsets (some offsets) a pending =
      insert a.key (pop_range (a.cursor - a.start) a.start offsets) pending

  -- the body of the last loop
  unfoldable pub apply_advance : Advance → KafkaConsumerBridge F → KafkaConsumerBridge F
  apply_advance a b = record b {
    pending_acknowledgements =
        pop_offsets (lookup a.key b.pending_acknowledgements) a b.pending_acknowledgements;
    next_commit_offsets = insert a.key a.cursor b.next_commit_offsets;
  }

  unfoldable pub apply_all : List Advance → KafkaConsumerBridge F → KafkaConsumerBridge F
  apply_all [] b = b
  apply_all (a ∷ advances) b = apply_all advances (apply_advance a b)

  -- The bridge with its acknowledgements drained.
  unfoldable pub drained : KafkaConsumerBridge F → KafkaConsumerBridge F
  drained b = record b {
    acknowledgements = [];
    pending_acknowledgements = collect b.acknowledgements b.pending_acknowledgements;
  }

  unfoldable pub planned : KafkaConsumerBridge F → List Advance
  planned b = plan b.pending_acknowledgements b.next_commit_offsets

  -- `_drain_acknowledgements`, with whether `consumer.commit` succeeds, if it is called. The list is
  -- what was committed.
  unfoldable pub drain_acknowledgements :
      Bool → KafkaConsumerBridge F → KafkaConsumerBridge F × List Advance
  unfolding drained planned
  drain_acknowledgements commit_ok b =
      let advances = planned (drained b) in
      if commit_ok then (apply_all advances (drained b), advances) else (drained b, [])
