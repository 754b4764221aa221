-- ===== src/Engine/Bridge/Trace.antt =====
-- No offset is committed past one that was not acknowledged (`KafkaConsumerBridge` of
-- src/engine/engine.py), whatever the order of consumption, acknowledgements and drains.
use realtime_market_data_pla.Common.{
  ℕ, ◌≤◌, ◌<◌, ◌≡◌, sym, subst, inl, inr, Bool, true, none, some, List, [], ◌∷◌, ◌++◌, arith, All,
  All-append, contains, Key, ◌==◌, nat_Key, string_Key, pair_Key, beq_refl, Bool-cases,
  Option-cases, All-map,
}
use realtime_market_data_pla.Engine.Bridge.{
  acknowledge, KafkaConsumerBridge, ConsumedEvent, TopicPartition, track_consumed, has_offset,
  Advance, key_of, drain_acknowledgements,
}
use realtime_market_data_pla.Common.Dict.{Dict, lookup, insert, lookup-insert}

-- What the consumer thread and the processor do with the bridge.
pub data Call (F : Type 0) : Type 0 where
  consumes : ConsumedEvent F → Call F
  acknowledges : ConsumedEvent F → Call F
  drains : Bool → Call F

-- A bridge with its history: the first offset consumed of each partition, what was acknowledged,
-- and what was committed.
pub record Trace (F : Type 0) : Type 0 where
  pub bridge : KafkaConsumerBridge F
  pub first : Dict TopicPartition ℕ
  pub acked : List (TopicPartition × ℕ)
  pub committed : List Advance

module _ {F : Type 0} where
  unfoldable pub note_first : ConsumedEvent F → Dict TopicPartition ℕ → Dict TopicPartition ℕ
  note_first c first = elim (lookup (key_of c) first) [
    | none ↦ insert (key_of c) c.offset first
    | some _ ↦ first
  ]

  unfoldable pub step : Trace F → Call F → Trace F
  step t (consumes c) = record t {
    bridge = track_consumed c t.bridge;
    first = note_first c t.first;
  }
  step t (acknowledges c) = record t {
    bridge = acknowledge c t.bridge;
    acked = (key_of c, c.offset) ∷ t.acked;
  }
  step t (drains commit_ok) = record t {
    bridge = (drain_acknowledgements commit_ok t.bridge).0;
    committed = t.committed ++ (drain_acknowledgements commit_ok t.bridge).1;
  }

  unfoldable pub run : Trace F → List (Call F) → Trace F
  run t [] = t
  run t (call ∷ calls) = run (step t call) calls

abbrev pub WasAcked : List (TopicPartition × ℕ) → TopicPartition → ℕ → Type 0
WasAcked acked key o = contains (key, o) acked ≡ true

WasAcked-here :
    (acked : List (TopicPartition × ℕ)) (key : TopicPartition) (o : ℕ)
    → WasAcked ((key, o) ∷ acked) key o
unfolding contains
WasAcked-here acked key o = rw (beq_refl {A = TopicPartition × ℕ} (key, o))

WasAcked-cons :
    (acked : List (TopicPartition × ℕ)) (key : TopicPartition) (o : ℕ) (x : TopicPartition × ℕ)
    → WasAcked acked key o
    → WasAcked (x ∷ acked) key o
unfolding contains
WasAcked-cons acked key o x h = ground arith

-- Every offset from the first consumed one of the partition up to `n` was acknowledged.
abbrev pub Done : Dict TopicPartition ℕ → List (TopicPartition × ℕ) → TopicPartition → ℕ → Type 0
Done first acked key n =
    (start : ℕ) × (lookup key first ≡ some start)
    × ((o : ℕ) → start ≤ o → o < n → WasAcked acked key o)

module _ {F : Type 0} where
  abbrev pub PendingAcked :
      List (TopicPartition × ℕ) → TopicPartition × Dict ℕ (ConsumedEvent F) → Type 0
  PendingAcked acked p = (o : ℕ) → has_offset o p.1 ≡ true → WasAcked acked p.0 o

  pub record IsSafe (t : Trace F) : Type 0 where
    pub next_done :
        (key : TopicPartition) (n : ℕ)
        → lookup key t.bridge.next_commit_offsets ≡ some n
        → Done t.first t.acked key n
    pub fresh :
        (key : TopicPartition)
        → lookup key t.bridge.next_commit_offsets ≡ none
        → lookup key t.first ≡ none
    pub pending_acked : All (PendingAcked t.acked) t.bridge.pending_acknowledgements
    pub queue_acked : All (λ c. WasAcked t.acked (key_of c) c.offset) t.bridge.acknowledgements
    pub committed_done : All (λ a. Done t.first t.acked a.key a.cursor) t.committed

  track_known :
      (c : ConsumedEvent F) (b : KafkaConsumerBridge F) (n : ℕ)
      → lookup (key_of c) b.next_commit_offsets ≡ some n
      → track_consumed c b ≡ b
  unfolding track_consumed
  track_known c b n e = ground arith

  track_new :
      (c : ConsumedEvent F) (b : KafkaConsumerBridge F)
      → lookup (key_of c) b.next_commit_offsets ≡ none
      → track_consumed c b
        ≡ record b { next_commit_offsets = insert (key_of c) c.offset b.next_commit_offsets }
  unfolding track_consumed
  track_new c b e = ground arith

  note_known :
      (c : ConsumedEvent F) (first : Dict TopicPartition ℕ) (n : ℕ)
      → lookup (key_of c) first ≡ some n
      → note_first c first ≡ first
  unfolding note_first
  note_known c first n e = ground arith

  note_new :
      (c : ConsumedEvent F) (first : Dict TopicPartition ℕ)
      → lookup (key_of c) first ≡ none
      → note_first c first ≡ insert (key_of c) c.offset first
  unfolding note_first
  note_new c first e = ground arith

-- A partition that is seen for the first time changes nothing for the others.
Done-insert :
    (first : Dict TopicPartition ℕ) (acked : List (TopicPartition × ℕ)) (k key : TopicPartition)
    (o n : ℕ)
    → lookup k first ≡ none
    → Done first acked key n
    → Done (insert k o first) acked key n
Done-insert first acked k key o n unseen (start, at, covers) = (
  start,
  rw (lookup-insert k key o first) (elim (Bool-cases (k == key)) [
    | inl same ↦
        let here : lookup k first ≡ some start =
          subst (λ j. lookup j first ≡ some start) (sym ((eq.same_iff k key).0 same)) at in
        absurd (ground arith)
    | inr other ↦ rw other at
  ]),
  covers,
)
  where
    eq : Key TopicPartition
    eq = pair_Key

Done-acked :
    (first : Dict TopicPartition ℕ) (acked : List (TopicPartition × ℕ)) (key : TopicPartition)
    (n : ℕ) (x : TopicPartition × ℕ)
    → Done first acked key n
    → Done first (x ∷ acked) key n
Done-acked first acked key n x (start, at, covers) =
    (start, at, λ o lo hi. WasAcked-cons acked key o x (covers o lo hi))

new_next :
    (first : Dict TopicPartition ℕ) (acked : List (TopicPartition × ℕ))
    (nexts : Dict TopicPartition ℕ) (k key : TopicPartition) (o n : ℕ)
    → lookup k first ≡ none
    → ((j : TopicPartition) (m : ℕ) → lookup j nexts ≡ some m → Done first acked j m)
    → lookup key (insert k o nexts) ≡ some n
    → Done (insert k o first) acked key n
new_next first acked nexts k key o n unseen done e = elim (Bool-cases (k == key)) [
  | inl same ↦
      let at : n ≡ o = ground (arith, lookup-insert k key o nexts) in
      (o, ground (arith, lookup-insert k key o first), λ o' lo hi. absurd (omega arith))
  | inr other ↦
      Done-insert first acked k key o n unseen
        (done key n (ground (arith, lookup-insert k key o nexts)))
]

new_fresh :
    (first nexts : Dict TopicPartition ℕ) (k key : TopicPartition) (o : ℕ)
    → (lookup key nexts ≡ none → lookup key first ≡ none)
    → lookup key (insert k o nexts) ≡ none
    → lookup key (insert k o first) ≡ none
new_fresh first nexts k key o fresh e =
    ground (arith, lookup-insert k key o nexts, lookup-insert k key o first)

module _ {F : Type 0} where
  pub acknowledge-IsSafe :
      (c : ConsumedEvent F) (t : Trace F) → IsSafe t → IsSafe (step t (acknowledges c))
  unfolding step acknowledge
  acknowledge-IsSafe c t v = record {
    next_done = λ key n e. Done-acked t.first t.acked key n x (v.next_done key n e);
    fresh = v.fresh;
    pending_acked =
        All-map (λ p h o e. WasAcked-cons t.acked p.0 o x (h o e)) t.bridge.pending_acknowledgements
          v.pending_acked;
    queue_acked =
        All-append (λ d. WasAcked (x ∷ t.acked) (key_of d) d.offset) t.bridge.acknowledgements
          (c ∷ [])
          (All-map (λ d h. WasAcked-cons t.acked (key_of d) d.offset x h) t.bridge.acknowledgements
            v.queue_acked)
          (WasAcked-here t.acked (key_of c) c.offset, tt);
    committed_done =
        All-map (λ a h. Done-acked t.first t.acked a.key a.cursor x h) t.committed v.committed_done;
  }
    where
      x : TopicPartition × ℕ
      x = (key_of c, c.offset)

  pub track-IsSafe : (c : ConsumedEvent F) (t : Trace F) → IsSafe t → IsSafe (step t (consumes c))
  unfolding step
  track-IsSafe c t v = elim (Option-cases (lookup (key_of c) t.bridge.next_commit_offsets)) [
    | inl unseen ↦
        rw (track_new c t.bridge unseen, note_new c t.first (v.fresh (key_of c) unseen))
          (record {
            next_done = λ key n e.
                new_next t.first t.acked t.bridge.next_commit_offsets (key_of c) key c.offset n
                  (v.fresh (key_of c) unseen) v.next_done e;
            fresh = λ key e.
                new_fresh t.first t.bridge.next_commit_offsets (key_of c) key c.offset (v.fresh key)
                  e;
            pending_acked = v.pending_acked;
            queue_acked = v.queue_acked;
            committed_done =
                All-map
                  (λ a h.
                    Done-insert t.first t.acked (key_of c) a.key c.offset a.cursor
                      (v.fresh (key_of c) unseen) h)
                  t.committed v.committed_done;
          })
    | inr (n, seen) ↦
        let (start, at, covers) = v.next_done (key_of c) n seen in
        rw (track_known c t.bridge n seen, note_known c t.first start at) v
  ]
