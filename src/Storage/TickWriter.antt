-- ===== src/Storage/TickWriter.antt =====
-- src/storage/tick_writer.py: batches of ticks from Kafka into the database, and the commits.
pub mod Commits
pub mod Highest
pub mod Persisted
pub mod Invalid
pub mod Rounds
use realtime_market_data_pla.Common.{
  ℕ, zero, suc, ◌+◌, ◌-◌, ◌*◌, ◌/◌, ◌%◌, ◌≤◌, ◌<◌, min, max, String, ◌≡◌, refl, sym, ap, ap₂, subst,
  ◌∙◌, ◌≢◌, ◌↔◌, ◌⊎◌, inl, inr, Bool, true, false, not, ◌&&◌, ◌||◌, Option, none, some, List, [],
  ◌∷◌, ◌++◌, map, append-nil, append_assoc, arith, dec_lt, length, drop, take, last_n,
  length-append, All, All-append, All-map, contains, ltb, leb, if◌then◌else◌, Key, ◌==◌, nat_Key,
  string_Key, pair_Key, beq_refl, Bool-cases, Option-cases,
}
use realtime_market_data_pla.Engine.Bridge.{TopicPartition}
use realtime_market_data_pla.Models.{MarketEvent}
use realtime_market_data_pla.Common.Dict.{Dict, values, lookup, insert}

pub record ConsumedTick (F : Type 0) : Type 0 where
  pub event : MarketEvent F
  pub topic : String
  pub partition : ℕ
  pub offset : ℕ

-- What `consumer.commit(message=...)` is called with: the place of a message.
pub record Place : Type 0 where
  pub key : TopicPartition
  pub offset : ℕ

-- How one attempt to insert a batch goes: it raises, and the writer may be stopped while it sleeps;
-- or it returns a row count, and then the commits succeed or one of them, after some others, raises.
pub data Attempt : Type 0 where
  fails : Bool → Attempt
  inserts : ℕ → Option ℕ → Attempt

-- What became of a flush; `waiting` where the attempts end before it does.
pub data Flushed : Type 0 where
  flushed stopped crashed waiting : Flushed

pub record TickWriter (F : Type 0) : Type 0 where
  pub batch_max_size : ℕ
  pub inserted_ticks : ℕ
  pub stop : Bool
  pub batch : List (ConsumedTick F)
  pub running : Bool
  pub inserted : List (MarketEvent F)
  pub commits : List Place

-- What `poll` returns: nothing, an error, or a message, with its event if it parses.
pub data Poll (F : Type 0) : Type 0 where
  nothing : Poll F
  error : Poll F
  message : Option (MarketEvent F) → TopicPartition → ℕ → Poll F

module _ {F : Type 0} where
  abbrev pub place : ConsumedTick F → Place
  place t = record { key = (t.topic, t.partition); offset = t.offset }

  -- the body of the first loop of `_commit_batch`
  unfoldable pub note_last :
      Option (ConsumedTick F)
      → ConsumedTick F
      → Dict TopicPartition (ConsumedTick F)
      → Dict TopicPartition (ConsumedTick F)
  note_last none t last = insert (place t).key t last
  note_last (some previous) t last =
      if ltb previous.offset t.offset then insert (place t).key t last else last

  unfoldable pub last_by_partition :
      List (ConsumedTick F)
      → Dict TopicPartition (ConsumedTick F)
      → Dict TopicPartition (ConsumedTick F)
  last_by_partition [] last = last
  last_by_partition (t ∷ batch) last =
      last_by_partition batch (note_last (lookup (place t).key last) t last)

  -- `_commit_batch`: the places that it commits, in order
  unfoldable pub commit_batch : List (ConsumedTick F) → List Place
  unfolding last_by_partition
  commit_batch batch = map place (values (last_by_partition batch []))

  -- `_flush`: the inserted events and the commits of the attempt that succeeds
  unfoldable pub flush :
      List Attempt → List (ConsumedTick F) → TickWriter F → TickWriter F × Flushed
  flush [] batch w = (w, if w.stop then stopped else waiting)
  flush (fails stops ∷ attempts) batch w =
      let rest = flush attempts batch (record w { stop = stops }) in
      if w.stop then (w, stopped) else rest
  flush (inserts rows crash ∷ attempts) batch w =
      if w.stop
      then (w, stopped)
      else (let w' = record w {
        inserted = w.inserted ++ map (λ t. t.event) batch;
        inserted_ticks = w.inserted_ticks + rows;
      } in
          elim crash [
            | none ↦ (record w' { commits = w.commits ++ commit_batch batch }, flushed)
            | some n ↦ (record w' { commits = w.commits ++ take n (commit_batch batch) }, crashed)
          ])

  -- `await self._flush(...)` followed by `batch = []`, in the loop of `run`. An exception ends the
  -- loop.
  unfoldable pub flush_batch : List Attempt → TickWriter F → TickWriter F
  flush_batch attempts w =
      let (w', result) = flush attempts w.batch w in
      elim result [
        | flushed ↦ record w' { batch = [] }
        | stopped ↦ record w' { batch = [] }
        | crashed ↦ record w' { running = false }
        | waiting ↦ record w' { running = false }
      ]

  -- `consumer.commit(message=message)`, which Kafka takes or which raises and ends the loop, and
  -- `batch = []`
  unfoldable pub commit_invalid : Bool → Place → TickWriter F → TickWriter F
  commit_invalid true p w = record w { commits = w.commits ++ p ∷ []; batch = [] }
  commit_invalid false p w = record w { running = false }

  -- `_handle_invalid_message`, and what `run` does with its result
  unfoldable pub handle_invalid_message : List Attempt → Bool → Place → TickWriter F → TickWriter F
  handle_invalid_message attempts takes p w = elim w.batch [
    | [] ↦ commit_invalid takes p w
    | _ ∷ _ ↦
        let (w', result) = flush attempts w.batch w in
        elim result [
          | flushed ↦ commit_invalid takes p w'
          | stopped ↦ record w' { running = false }
          | crashed ↦ record w' { running = false }
          | waiting ↦ record w' { running = false }
        ]
  ]

  -- `batch.append(ConsumedTick(...))`
  unfoldable pub append_tick : MarketEvent F → TopicPartition → ℕ → TickWriter F → TickWriter F
  append_tick event (topic, partition) offset w = record w {
    batch =
        w.batch
        ++ record { event = event; topic = topic; partition = partition; offset = offset } ∷ [];
  }

  -- `_should_flush`, with whether the batch has expired
  unfoldable pub should_flush : Bool → TickWriter F → Bool
  should_flush expired w = leb w.batch_max_size (length w.batch) || expired

  -- One round of the loop of `run`, while it runs: what `poll` returned, whether the batch has
  -- expired by then, how the attempts to insert go if there is a flush, and whether Kafka takes the
  -- commit for a message that does not parse.
  unfoldable pub round : Poll F → Bool → List Attempt → Bool → TickWriter F → TickWriter F
  round nothing expired attempts takes w = elim w.batch [
    | [] ↦ w
    | _ ∷ _ ↦ if expired then flush_batch attempts w else w
  ]
  round error expired attempts takes w = w
  round (message none key offset) expired attempts takes w =
      handle_invalid_message attempts takes (record { key = key; offset = offset }) w
  round (message (some event) key offset) expired attempts takes w =
      let w' = append_tick event key offset w in
      if should_flush expired w' then flush_batch attempts w' else w'

  -- `while not self._stop`, one round of it
  unfoldable pub step : Poll F → Bool → List Attempt → Bool → TickWriter F → TickWriter F
  step poll expired attempts takes w =
      if w.running && not w.stop then round poll expired attempts takes w else w
