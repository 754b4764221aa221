-- ===== src/Engine/Consumer/Matches.antt =====
-- The engine with its consumer thread (src/engine/engine.py) beside a history of its bridge: each
-- step of the one is a step of the other.
use realtime_market_data_pla.Common.{
  contains-append_one, ℕ, ◌≡◌, ap, ap₂, subst, ◌∙◌, Bool, true, false, none, some, List, [], ◌∷◌,
  ◌++◌, arith, All, All-append, All-map, contains, if◌then◌else◌, Key, ◌==◌, nat_Key, string_Key,
  pair_Key, beq_refl,
}
use realtime_market_data_pla.Engine.Bridge.Trace.{
  step, Trace, drains, consumes, acknowledges, note_first,
}
use realtime_market_data_pla.Engine.Bridge.{
  drain_acknowledgements, track_consumed, acknowledge, ConsumedEvent, TopicPartition, key_of,
}
use realtime_market_data_pla.Engine.Consumer.{System, drain, track, put}
use realtime_market_data_pla.Common.Dict.{lookup, Dict, or_else, lookup-insert}
use realtime_market_data_pla.Engine.Processing.{DistributionEngine}

lookup-append_one :
    (key k : TopicPartition) (o : ℕ) (xs : Dict TopicPartition ℕ)
    → lookup key (xs ++ (k, o) ∷ []) ≡ or_else (lookup key xs) (if k == key then some o else none)
unfolding lookup
lookup-append_one key k o [] = ground arith
lookup-append_one key k o ((j, p) ∷ xs) = ground (arith, lookup-append_one key k o xs)

module _ {F : Type 0} where
  -- The system has the bridge of the history, and its commits; the history starts where the system
  -- does, and acknowledges what it consumed.
  pub record Matches (s : System F) (t : Trace F) : Type 0 where
    pub bridge : s.engine.bridge ≡ t.bridge
    pub committed : s.committed ≡ t.committed
    pub first : (key : TopicPartition) → lookup key t.first ≡ lookup key s.consumed
    pub acked : (x : TopicPartition × ℕ) → contains x t.acked ≡ true → contains x s.consumed ≡ true
    pub queued : All (λ c. contains (key_of c, c.offset) s.consumed ≡ true) s.queue

  pub drain-Matches :
      (ok : Bool) (s : System F) (t : Trace F)
      → Matches s t
      → Matches (drain ok s) (step t (drains ok))
  unfolding drain step
  drain-Matches ok s t m = record {
    bridge = ap (λ b. (drain_acknowledgements ok b).0) m.bridge;
    committed = ap₂ (λ b done. done ++ (drain_acknowledgements ok b).1) m.bridge m.committed;
    first = m.first;
    acked = m.acked;
    queued = m.queued;
  }

  track-Matches :
      (c : ConsumedEvent F) (s : System F) (t : Trace F)
      → Matches s t
      → Matches (track c s) (step t (consumes c))
  unfolding track step note_first
  track-Matches c s t m = record {
    bridge = ap (track_consumed c) m.bridge;
    committed = m.committed;
    first = λ key. ground (
      arith,
      m.first key,
      m.first (key_of c),
      lookup-insert (key_of c) key c.offset t.first,
      lookup-append_one key (key_of c) c.offset s.consumed,
      key_eq.same_iff (key_of c) key,
    );
    acked =
        λ x e. ground (arith, m.acked x e, contains-append_one x (key_of c, c.offset) s.consumed);
    queued =
        All-map
          (λ d h.
            ground
              (arith, contains-append_one (key_of d, d.offset) (key_of c, c.offset) s.consumed))
          s.queue m.queued;
  }
    where
      key_eq : Key TopicPartition
      key_eq = pair_Key

  pub put-track-Matches :
      (queued : Bool) (c : ConsumedEvent F) (s : System F) (t : Trace F)
      → Matches s t
      → Matches (put queued c (track c s)) (step t (consumes c))
  unfolding put track
  put-track-Matches false c s t m = track-Matches c s t m
  put-track-Matches true c s t m =
      let m' = track-Matches c s t m in
      record {
        bridge = m'.bridge;
        committed = m'.committed;
        first = m'.first;
        acked = m'.acked;
        queued =
            All-append
              (λ d. contains (key_of d, d.offset) (s.consumed ++ (key_of c, c.offset) ∷ []) ≡ true)
              s.queue (c ∷ []) m'.queued
              (
                ground (
                  arith,
                  contains-append_one (key_of c, c.offset) (key_of c, c.offset) s.consumed,
                  beq_refl {A = TopicPartition × ℕ} (key_of c, c.offset),
                ),
                tt,
              );
      }

  -- The engine is done with the head of the queue: its bridge has the acknowledgement ...
  pub done-Matches :
      (c : ConsumedEvent F) (rest : List (ConsumedEvent F)) (e : DistributionEngine F)
      (on off : Bool) (s : System F) (t : Trace F)
      → s.queue ≡ c ∷ rest
      → e.bridge ≡ acknowledge c s.engine.bridge
      → Matches s t
      → Matches
          (record s { engine = e; queue = rest; working = on; stop = off })
          (step t (acknowledges c))
  unfolding step contains
  done-Matches c rest e on off s t head answered m =
      let queue : All (λ d. contains (key_of d, d.offset) s.consumed ≡ true) (c ∷ rest) =
        subst (All (λ d. contains (key_of d, d.offset) s.consumed ≡ true)) head m.queued in
      record {
        bridge = answered ∙ ap (acknowledge c) m.bridge;
        committed = m.committed;
        first = m.first;
        acked = λ x h. ground (arith, m.acked x, queue.0, pair_eq.same_iff x (key_of c, c.offset));
        queued = queue.1;
      }
    where
      pair_eq : Key (TopicPartition × ℕ)
      pair_eq = pair_Key

  -- ... or it has not been acknowledged.
  pub left-Matches :
      (c : ConsumedEvent F) (rest : List (ConsumedEvent F)) (e : DistributionEngine F)
      (on off : Bool) (s : System F) (t : Trace F)
      → s.queue ≡ c ∷ rest
      → e.bridge ≡ s.engine.bridge
      → Matches s t
      → Matches (record s { engine = e; queue = rest; working = on; stop = off }) t
  left-Matches c rest e on off s t head same m = record {
    bridge = same ∙ m.bridge;
    committed = m.committed;
    first = m.first;
    acked = m.acked;
    queued = (subst (All (λ d. contains (key_of d, d.offset) s.consumed ≡ true)) head m.queued).1;
  }
