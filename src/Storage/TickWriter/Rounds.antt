-- ===== src/Storage/TickWriter/Rounds.antt =====
-- The rounds of the tick writer (`run` of src/storage/tick_writer.py) never commit past a tick that
-- is only in memory.
use realtime_market_data_pla.Common.{
  ℕ, ◌<◌, ◌≡◌, refl, sym, ap, ◌⊎◌, inl, inr, Bool, true, false, not, ◌&&◌, none, some, List, [],
  ◌∷◌, ◌++◌, append_assoc, arith, All, All-append, All-map, if◌then◌else◌, nat_Key, string_Key,
  pair_Key, Bool-cases,
}
use realtime_market_data_pla.Storage.TickWriter.{
  Place, Attempt, round, handle_invalid_message, ConsumedTick, append_tick, Poll, message,
  TickWriter, nothing, place, should_flush, error, flush_batch,
}
use realtime_market_data_pla.Models.{MarketEvent}
use realtime_market_data_pla.Storage.TickWriter.Persisted.{
  Trace, IsSafe, IsNew, Member, Member-append_left, Member-append_last, Behind, flush_batch-IsSafe,
  All-Member,
}
use realtime_market_data_pla.Engine.Bridge.{TopicPartition}
use realtime_market_data_pla.Storage.TickWriter.Invalid.{invalid-IsSafe}

-- One round of the loop: what `poll` returned, whether the batch has expired, and the attempts of a
-- flush, and whether Kafka takes the commit for a message that does not parse.
pub record Turn (F : Type 0) : Type 0 where
  pub poll : Poll F
  pub expired : Bool
  pub attempts : List Attempt
  pub takes : Bool

module _ {F : Type 0} where
  unfoldable pub see : Poll F → List Place → List Place
  see nothing seen = seen
  see error seen = seen
  see (message event key offset) seen = seen ++ record { key = key; offset = offset } ∷ []

  abbrev pub tick : MarketEvent F → TopicPartition → ℕ → ConsumedTick F
  tick event key offset = record {
    event = event;
    topic = key.0;
    partition = key.1;
    offset = offset;
  }

  unfoldable pub consume : Poll F → List (ConsumedTick F) → List (ConsumedTick F)
  consume nothing consumed = consumed
  consume error consumed = consumed
  consume (message none key offset) consumed = consumed
  consume (message (some event) key offset) consumed = consumed ++ tick event key offset ∷ []

  unfoldable pub polled : Trace F → Turn F → Trace F
  polled t turn = record {
    writer = round turn.poll turn.expired turn.attempts turn.takes t.writer;
    consumed = consume turn.poll t.consumed;
    seen = see turn.poll t.seen;
  }

  -- A writer that has ended polls nothing.
  unfoldable pub next : Trace F → Turn F → Trace F
  next t turn = if t.writer.running && not t.writer.stop then polled t turn else t

  unfoldable pub run : Trace F → List (Turn F) → Trace F
  run t [] = t
  run t (turn ∷ turns) = run (next t turn) turns

  abbrev pub NewIn : List Place → Poll F → Type 0
  NewIn seen nothing = Unit
  NewIn seen error = Unit
  NewIn seen (message event key offset) = IsNew seen (record { key = key; offset = offset })

  -- Every message that is polled lies behind those of its partition polled before.
  abbrev pub InOrder : Trace F → List (Turn F) → Type 0
  InOrder t [] = Unit
  InOrder t (turn ∷ turns) = NewIn t.seen turn.poll × InOrder (next t turn) turns

  see_one : (p : Place) (t : Trace F) → IsSafe t → IsSafe (record t { seen = t.seen ++ p ∷ [] })
  see_one p t v = record {
    persisted = v.persisted;
    unflushed = v.unflushed;
    split = v.split;
    stored = v.stored;
    live = v.live;
    commits_seen =
        All-map (λ c m. Member-append_left c t.seen (p ∷ []) m) t.writer.commits v.commits_seen;
    ticks_seen =
        All-map (λ u m. Member-append_left (place u) t.seen (p ∷ []) m) v.unflushed v.ticks_seen;
    behind = v.behind;
  }

  append-Behind :
      (u : ConsumedTick F) (seen cs : List Place) (us : List (ConsumedTick F))
      → IsNew seen (place u)
      → All (λ c. Member c seen) cs
      → All (Behind us) cs
      → All (Behind (us ++ u ∷ [])) cs
  append-Behind u seen [] us new members behind = tt
  append-Behind u seen (c ∷ cs) us new members behind = (
    All-append (λ x. (place x).key ≡ c.key → c.offset < x.offset) us (u ∷ []) behind.0
        (
          (λ e.
              All-Member (λ q. q.key ≡ (place u).key → q.offset < u.offset) c seen members.0 new
                (sym e)),
          tt,
        ),
    append-Behind u seen cs us new members.1 behind.1,
  )

  append-IsSafe :
      (event : MarketEvent F) (key : TopicPartition) (offset : ℕ) (t : Trace F)
      → IsNew t.seen (record { key = key; offset = offset })
      → t.writer.running ≡ true
      → t.writer.stop ≡ false
      → IsSafe t
      → IsSafe (record {
        writer = append_tick event key offset t.writer;
        consumed = t.consumed ++ tick event key offset ∷ [];
        seen = t.seen ++ record { key = key; offset = offset } ∷ [];
      })
  unfolding append_tick
  append-IsSafe event key offset t new on go v =
      let u = tick event key offset in
      let w = see_one (place u) t v in
      record {
        persisted = v.persisted;
        unflushed = v.unflushed ++ u ∷ [];
        split = rw v.split (append_assoc v.persisted v.unflushed (u ∷ []));
        stored = v.stored;
        live = λ on' go'. ap (λ us. us ++ u ∷ []) (v.live on go);
        commits_seen =
            All-map (λ c m. Member-append_left c t.seen (place u ∷ []) m) t.writer.commits
              v.commits_seen;
        ticks_seen =
            All-append (λ x. Member (place x) (t.seen ++ place u ∷ [])) v.unflushed (u ∷ [])
              (All-map (λ x m. Member-append_left (place x) t.seen (place u ∷ []) m) v.unflushed
                v.ticks_seen)
              (Member-append_last (place u) t.seen, tt);
        behind = append-Behind u t.seen t.writer.commits v.unflushed new v.commits_seen v.behind;
      }

  round_error :
      (expired : Bool) (attempts : List Attempt) (takes : Bool) (w : TickWriter F)
      → round error expired attempts takes w ≡ w
  unfolding round
  round_error expired attempts takes w = refl

  round_invalid :
      (expired : Bool) (attempts : List Attempt) (takes : Bool) (key : TopicPartition) (offset : ℕ)
      (w : TickWriter F)
      → round (message none key offset) expired attempts takes w
        ≡ handle_invalid_message attempts takes (record { key = key; offset = offset }) w
  unfolding round
  round_invalid expired attempts takes key offset w = refl

  round_nothing :
      (expired : Bool) (attempts : List Attempt) (takes : Bool) (w : TickWriter F)
      → (round nothing expired attempts takes w ≡ w)
        ⊎ (round nothing expired attempts takes w ≡ flush_batch attempts w)
  unfolding round
  round_nothing expired attempts takes w = ground arith

  nothing-IsSafe :
      (expired : Bool) (attempts : List Attempt) (takes : Bool) (t : Trace F) (v : IsSafe t)
      → t.writer.batch ≡ v.unflushed
      → IsSafe (record t { writer = round nothing expired attempts takes t.writer })
  nothing-IsSafe expired attempts takes t v same =
      elim (round_nothing expired attempts takes t.writer) [
        | inl e ↦ rw e v
        | inr e ↦ rw e (flush_batch-IsSafe attempts t v same)
      ]

  event-IsSafe :
      (expired : Bool) (attempts : List Attempt) (takes : Bool) (event : MarketEvent F)
      (key : TopicPartition) (offset : ℕ) (t : Trace F)
      → IsNew t.seen (record { key = key; offset = offset })
      → t.writer.running ≡ true
      → t.writer.stop ≡ false
      → IsSafe t
      → IsSafe (record {
        writer = round (message (some event) key offset) expired attempts takes t.writer;
        consumed = t.consumed ++ tick event key offset ∷ [];
        seen = t.seen ++ record { key = key; offset = offset } ∷ [];
      })
  unfolding round append_tick
  event-IsSafe expired attempts takes event key offset t new on go v =
      let w = append_tick event key offset t.writer in
      let v' = append-IsSafe event key offset t new on go v in
      elim (Bool-cases (should_flush expired w)) [
        | inr more ↦ rw more v'
        | inl full ↦ rw full (
            flush_batch-IsSafe attempts
              (record {
                writer = w;
                consumed = t.consumed ++ tick event key offset ∷ [];
                seen = t.seen ++ record { key = key; offset = offset } ∷ [];
              })
              v' (v'.live on go))
      ]

  polled-IsSafe :
      (turn : Turn F) (t : Trace F)
      → NewIn t.seen turn.poll
      → t.writer.running ≡ true
      → t.writer.stop ≡ false
      → IsSafe t
      → IsSafe (polled t turn)
  unfolding polled see consume
  polled-IsSafe turn t new on go v = from_poll turn.poll new
    where
      from_poll :
          (poll : Poll F) → NewIn t.seen poll → IsSafe (polled t (record turn { poll = poll }))
      from_poll nothing new =
          nothing-IsSafe turn.expired turn.attempts turn.takes t v (v.live on go)
      from_poll error new = rw (round_error turn.expired turn.attempts turn.takes t.writer) v
      from_poll (message none key offset) new =
          let p : Place = record { key = key; offset = offset } in
          let v' = see_one p t v in
          rw (round_invalid turn.expired turn.attempts turn.takes key offset t.writer) (
            invalid-IsSafe turn.attempts turn.takes p (record t { seen = t.seen ++ p ∷ [] }) v'
              (v'.live on go) (Member-append_last p t.seen))
      from_poll (message (some event) key offset) new =
          event-IsSafe turn.expired turn.attempts turn.takes event key offset t new on go v

  next-IsSafe :
      (turn : Turn F) (t : Trace F) → NewIn t.seen turn.poll → IsSafe t → IsSafe (next t turn)
  unfolding next
  next-IsSafe turn t new v = elim (Bool-cases (t.writer.running && not t.writer.stop)) [
    | inr ended ↦ rw ended v
    | inl runs ↦ rw runs (polled-IsSafe turn t new (ground arith) (ground arith) v)
  ]

  -- If Kafka hands out the messages of a partition in the order of their offsets, then from a safe
  -- writer every sequence of rounds, with failing inserts, failing commits, messages that do not
  -- parse and a stop at any time, leads to a safe one: the valid ticks polled are those in the
  -- database followed by those that are not, and each of the latter lies behind every commit of its
  -- partition.
  pub run-Persisted :
      (turns : List (Turn F)) (t : Trace F) → InOrder t turns → IsSafe t → IsSafe (run t turns)
  unfolding run
  run-Persisted [] t order v = v
  run-Persisted (turn ∷ turns) t order v =
      run-Persisted turns (next t turn) order.1 (next-IsSafe turn t order.0 v)
