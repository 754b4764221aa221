-- ===== src/Storage/TickWriter/Highest.antt =====
-- Which places `_commit_batch` of src/storage/tick_writer.py commits.
use realtime_market_data_pla.Common.{
  ℕ, max, ◌≡◌, refl, sym, ap, subst, ◌∙◌, inl, inr, true, false, Option, none, some, List, [], ◌∷◌,
  map, arith, All, ltb, if◌then◌else◌, Key, ◌==◌, nat_Key, string_Key, pair_Key, beq_refl,
  Bool-cases,
}
use realtime_market_data_pla.Storage.TickWriter.{
  ConsumedTick, Place, place, note_last, last_by_partition, commit_batch,
}
use realtime_market_data_pla.Common.Dict.{
  lookup, Dict, IsUnique, insert, values, lookup-insert, All-insert, insert-IsUnique,
}
use realtime_market_data_pla.Engine.Bridge.{TopicPartition}

-- The offsets of a partition among the places.
pub offsets_of : TopicPartition → List Place → List ℕ
offsets_of key [] = []
offsets_of key (p ∷ places) =
    if p.key == key then p.offset ∷ offsets_of key places else offsets_of key places

-- The larger one of two numbers that may be missing.
larger : Option ℕ → Option ℕ → Option ℕ
larger none b = b
larger (some a) none = some a
larger (some a) (some b) = some (max a b)

-- The largest of the numbers, if there is one.
pub greatest : List ℕ → Option ℕ
greatest [] = none
greatest (x ∷ xs) = larger (some x) (greatest xs)

abbrev pub to_list : Option ℕ → List ℕ
to_list none = []
to_list (some x) = x ∷ []

larger_assoc : (a b c : Option ℕ) → larger (larger a b) c ≡ larger a (larger b c)
unfolding larger
larger_assoc none b c = refl
larger_assoc (some a) none c = refl
larger_assoc (some a) (some b) none = refl
larger_assoc (some a) (some b) (some c) = ap some (omega arith)

larger-none : (a : Option ℕ) → larger a none ≡ a
unfolding larger
larger-none none = refl
larger-none (some a) = refl

module _ {F : Type 0} where
  -- the offset that the dictionary has for a partition
  offset_for : TopicPartition → Dict TopicPartition (ConsumedTick F) → Option ℕ
  offset_for key last = elim (lookup key last) [ none ↦ none | some t ↦ some t.offset ]

  insert-offset_for :
      (key k : TopicPartition) (t : ConsumedTick F) (last : Dict TopicPartition (ConsumedTick F))
      → offset_for key (insert k t last) ≡ (if k == key then some t.offset else offset_for key last)
  unfolding offset_for
  insert-offset_for key k t last = ground (arith, lookup-insert k key t last)

  note_here :
      (t : ConsumedTick F) (entry : Option (ConsumedTick F))
      (last : Dict TopicPartition (ConsumedTick F))
      → lookup (place t).key last ≡ entry
      → offset_for (place t).key (note_last entry t last)
        ≡ larger (offset_for (place t).key last) (some t.offset)
  unfolding offset_for note_last larger
  note_here t none last e = ground (
    arith,
    lookup-insert (place t).key (place t).key t last,
    beq_refl {A = TopicPartition} (place t).key,
  )
  note_here t (some previous) last e =
      let k = (place t).key in
      let known : offset_for k last ≡ some previous.offset = rw (e, offset_for) refl in
      elim (Bool-cases (ltb previous.offset t.offset)) [
        | inl later ↦
            rw (later, insert-offset_for k k t last, beq_refl {A = TopicPartition} k, known)
              (ap some (ground arith))
        | inr earlier ↦ rw (earlier, known) (ap some (ground arith))
      ]

  note_other :
      (key : TopicPartition) (t : ConsumedTick F) (entry : Option (ConsumedTick F))
      (last : Dict TopicPartition (ConsumedTick F))
      → ((place t).key == key) ≡ false
      → offset_for key (note_last entry t last) ≡ offset_for key last
  unfolding note_last
  note_other key t none last other = ground (arith, insert-offset_for key (place t).key t last)
  note_other key t (some previous) last other =
      ground (arith, insert-offset_for key (place t).key t last)

  -- The dictionary has the largest offset of each partition.
  offset_for-last_by_partition :
      (key : TopicPartition) (batch : List (ConsumedTick F))
      (last : Dict TopicPartition (ConsumedTick F))
      → offset_for key (last_by_partition batch last)
        ≡ larger (offset_for key last) (greatest (offsets_of key (map place batch)))
  unfolding last_by_partition offsets_of greatest
  offset_for-last_by_partition key [] last = sym (larger-none (offset_for key last))
  offset_for-last_by_partition key (t ∷ batch) last =
      let after = note_last (lookup (place t).key last) t last in
      let more = greatest (offsets_of key (map place batch)) in
      offset_for-last_by_partition key batch after ∙ elim (Bool-cases ((place t).key == key)) [
        | inl same ↦
            let here : offset_for key after ≡ larger (offset_for key last) (some t.offset) =
              subst (λ k. offset_for k after ≡ larger (offset_for k last) (some t.offset))
                ((key_eq.same_iff (place t).key key).0 same)
                (note_here t (lookup (place t).key last) last refl) in
            rw (same, here) (larger_assoc (offset_for key last) (some t.offset) more)
        | inr other ↦ rw (other, note_other key t (lookup (place t).key last) last other) refl
      ]
    where
      key_eq : Key TopicPartition
      key_eq = pair_Key

  -- Each tick stands under its own partition.
  abbrev Keyed : Dict TopicPartition (ConsumedTick F) → Type 0
  Keyed = All (λ e. (place e.1).key ≡ e.0)

  offset_for_first :
      (key k : TopicPartition) (t : ConsumedTick F) (d : Dict TopicPartition (ConsumedTick F))
      → offset_for key ((k, t) ∷ d) ≡ (if k == key then some t.offset else offset_for key d)
  unfolding offset_for lookup
  offset_for_first key k t d = ground arith

  offsets_of-offset_for :
      (key : TopicPartition) (d : Dict TopicPartition (ConsumedTick F))
      → Keyed d
      → IsUnique d
      → offsets_of key (map place (values d)) ≡ to_list (offset_for key d)
  unfolding offsets_of offset_for lookup
  offsets_of-offset_for key [] own u = refl
  offsets_of-offset_for key ((k, t) ∷ d) own u =
      let rest = offsets_of-offset_for key d own.1 u.1 in
      elim (Bool-cases (k == key)) [
        | inl same ↦
            let here : ((place t).key == key) ≡ true =
              subst (λ x. (x == key) ≡ true) (sym own.0) same in
            let missing : lookup key d ≡ none =
              subst (λ x. lookup x d ≡ none) ((key_eq.same_iff k key).0 same) u.0 in
            let none_left : offsets_of key (map place (values d)) ≡ [] =
              rest ∙ rw (missing, offset_for) refl in
            rw (here, offset_for_first key k t d, same, none_left) refl
        | inr other ↦
            let away : ((place t).key == key) ≡ false =
              subst (λ x. (x == key) ≡ false) (sym own.0) other in
            rw (away, offset_for_first key k t d, other) rest
      ]
    where
      key_eq : Key TopicPartition
      key_eq = pair_Key

  note_last-Keyed :
      (entry : Option (ConsumedTick F)) (t : ConsumedTick F)
      (last : Dict TopicPartition (ConsumedTick F))
      → Keyed last
      → IsUnique last
      → Keyed (note_last entry t last) × IsUnique (note_last entry t last)
  unfolding note_last
  note_last-Keyed none t last own u = (
    All-insert (λ e. (place e.1).key ≡ e.0) (place t).key t last refl own,
    insert-IsUnique (place t).key t last u,
  )
  note_last-Keyed (some previous) t last own u = elim (Bool-cases (ltb previous.offset t.offset)) [
    | inl later ↦ rw later (
      All-insert (λ e. (place e.1).key ≡ e.0) (place t).key t last refl own,
      insert-IsUnique (place t).key t last u,
    )
    | inr earlier ↦ rw earlier (own, u)
  ]

  last_by_partition-Keyed :
      (batch : List (ConsumedTick F)) (last : Dict TopicPartition (ConsumedTick F))
      → Keyed last
      → IsUnique last
      → Keyed (last_by_partition batch last) × IsUnique (last_by_partition batch last)
  unfolding last_by_partition
  last_by_partition-Keyed [] last own u = (own, u)
  last_by_partition-Keyed (t ∷ batch) last own u =
      let entry = lookup (place t).key last in
      let (own', u') = note_last-Keyed entry t last own u in
      last_by_partition-Keyed batch (note_last entry t last) own' u'

  -- For a batch in any order, each partition is committed once, at its largest offset, if it has a
  -- tick in the batch, and not at all if it has none.
  pub commit_batch-greatest :
      (batch : List (ConsumedTick F)) (key : TopicPartition)
      → offsets_of key (commit_batch batch) ≡ to_list (greatest (offsets_of key (map place batch)))
  unfolding commit_batch offset_for larger lookup
  commit_batch-greatest batch key =
      let (own, u) = last_by_partition-Keyed batch [] tt tt in
      offsets_of-offset_for key (last_by_partition batch []) own u
      ∙ ap to_list (offset_for-last_by_partition key batch [])
