-- ===== src/Storage/TickWriter/Commits.antt =====
-- `_commit_batch` and `_flush` of src/storage/tick_writer.py.
use realtime_market_data_pla.Common.{
  ℕ, ◌≡◌, refl, inl, inr, true, false, Option, none, some, List, [], ◌∷◌, ◌++◌, map, take, All, ltb,
  nat_Key, string_Key, pair_Key, Bool-cases,
}
use realtime_market_data_pla.Storage.TickWriter.{
  Attempt, fails, inserts, note_last, Place, commit_batch, Flushed, flushed, crashed, stopped,
  waiting, flush,
}
use realtime_market_data_pla.Storage.TickWriter.{
  ConsumedTick, last_by_partition, TickWriter, inserts, place,
}
use realtime_market_data_pla.Common.Dict.{Dict, All-insert, lookup, values}
use realtime_market_data_pla.Engine.Bridge.{TopicPartition}

module _ {F : Type 0} where
  note_last-All :
      (P : ConsumedTick F → Type 0) (o : Option (ConsumedTick F)) (t : ConsumedTick F)
      (last : Dict TopicPartition (ConsumedTick F))
      → P t
      → All (λ e. P e.1) last
      → All (λ e. P e.1) (note_last o t last)
  unfolding note_last
  note_last-All P none t last p l = All-insert (λ e. P e.1) (place t).key t last p l
  note_last-All P (some previous) t last p l = elim (Bool-cases (ltb previous.offset t.offset)) [
    | inl later ↦ rw later (All-insert (λ e. P e.1) (place t).key t last p l)
    | inr earlier ↦ rw earlier l
  ]

  last_by_partition-All :
      (P : ConsumedTick F → Type 0) (batch : List (ConsumedTick F))
      (last : Dict TopicPartition (ConsumedTick F))
      → All P batch
      → All (λ e. P e.1) last
      → All (λ e. P e.1) (last_by_partition batch last)
  unfolding last_by_partition
  last_by_partition-All P [] last h l = l
  last_by_partition-All P (t ∷ batch) last h l =
      last_by_partition-All P batch (note_last (lookup (place t).key last) t last) h.1
        (note_last-All P (lookup (place t).key last) t last h.0 l)

  All-places :
      (P : Place → Type 0) (last : Dict TopicPartition (ConsumedTick F))
      → All (λ e. P (place e.1)) last
      → All P (map place (values last))
  All-places P [] h = tt
  All-places P (e ∷ last) h = (h.0, All-places P last h.1)

  -- What holds of the place of every tick of a batch holds of all that is committed for it.
  pub commit_batch-All :
      (P : Place → Type 0) (batch : List (ConsumedTick F))
      → All (λ t. P (place t)) batch
      → All P (commit_batch batch)
  unfolding commit_batch
  commit_batch-All P batch h =
      All-places P (last_by_partition batch [])
        (last_by_partition-All (λ t. P (place t)) batch [] h tt)

  -- What a flush leaves, by its result.
  abbrev pub FlushLeaves : List (ConsumedTick F) → TickWriter F → TickWriter F → Flushed → Type 0
  FlushLeaves batch w w' flushed =
      (w'.inserted ≡ w.inserted ++ map (λ t. t.event) batch)
      × (w'.commits ≡ w.commits ++ commit_batch batch)
      × (w'.stop ≡ false)
      × (w'.batch ≡ w.batch)
      × (w'.running ≡ w.running)
  FlushLeaves batch w w' crashed =
      (w'.inserted ≡ w.inserted ++ map (λ t. t.event) batch)
      × ((n : ℕ) × (w'.commits ≡ w.commits ++ take n (commit_batch batch)))
  FlushLeaves batch w w' stopped =
      (w'.inserted ≡ w.inserted) × (w'.commits ≡ w.commits) × (w'.stop ≡ true)
  FlushLeaves batch w w' waiting = (w'.inserted ≡ w.inserted) × (w'.commits ≡ w.commits)

  pub flush-FlushLeaves :
      (attempts : List Attempt) (batch : List (ConsumedTick F)) (w : TickWriter F)
      → FlushLeaves batch w (flush attempts batch w).0 (flush attempts batch w).1
  unfolding flush
  flush-FlushLeaves [] batch w = elim (Bool-cases w.stop) [
    | inl on ↦ rw on (refl, refl, refl)
    | inr off ↦ rw off (refl, refl)
  ]
  flush-FlushLeaves (fails stops ∷ attempts) batch w =
      let later = flush-FlushLeaves attempts batch (record w { stop = stops }) in
      elim (Bool-cases w.stop) [ inl on ↦ rw on (refl, refl, refl) | inr off ↦ rw off later ]
  flush-FlushLeaves (inserts rows none ∷ attempts) batch w = elim (Bool-cases w.stop) [
    | inl on ↦ rw on (refl, refl, refl)
    | inr off ↦ rw off (refl, refl, refl, refl, refl)
  ]
  flush-FlushLeaves (inserts rows (some n) ∷ attempts) batch w = elim (Bool-cases w.stop) [
    | inl on ↦ rw on (refl, refl, refl)
    | inr off ↦ rw off (refl, (n, refl))
  ]
