-- ===== src/Engine/Bridge/Safety.antt =====
-- No offset is committed past one that was not acknowledged (`KafkaConsumerBridge` of
-- src/engine/engine.py), whatever the order of consumption, acknowledgements and drains.
use realtime_market_data_pla.Common.{
  ℕ, ◌≡◌, Bool, true, false, some, List, [], ◌∷◌, ◌++◌, append-nil, arith, All, All-append, All-map,
  nat_Key, string_Key, pair_Key, dec_lt, ◌≤◌, contains, subst, refl,
}
use realtime_market_data_pla.Engine.Bridge.Trace.{
  Trace, step, run, IsSafe, Call, consumes, Done, drains, track-IsSafe, acknowledges,
  acknowledge-IsSafe, WasAcked,
}
use realtime_market_data_pla.Engine.Bridge.{
  init, planned, drained, Advance, drain_acknowledgements, TopicPartition, apply_all, plan,
}
use realtime_market_data_pla.Engine.Bridge.Drain.{
  collect-acked, apply_all-next, plan-Sound, apply_all-fresh, Sound, apply_all-acked,
  apply_all-queue,
}
use realtime_market_data_pla.Common.Dict.{lookup}

module _ {F : Type 0} where
  -- Before the commit, with the acknowledgements drained.
  drained-IsSafe : (t : Trace F) → IsSafe t → IsSafe (record t { bridge = drained t.bridge })
  unfolding drained
  drained-IsSafe t v = record {
    next_done = v.next_done;
    fresh = v.fresh;
    pending_acked =
        collect-acked t.acked t.bridge.acknowledgements t.bridge.pending_acknowledgements
          v.queue_acked v.pending_acked;
    queue_acked = tt;
    committed_done = v.committed_done;
  }

  -- What a partition had done, and what an advance adds to it.
  Sound-Done :
      (t : Trace F) (a : Advance)
      → ((key : TopicPartition) (n : ℕ)
          → lookup key t.bridge.next_commit_offsets ≡ some n
          → Done t.first t.acked key n)
      → Sound t.acked t.bridge.next_commit_offsets a
      → Done t.first t.acked a.key a.cursor
  Sound-Done t a done (at, covers) =
      let (start, first, before) = done a.key a.start at in
      (
        start,
        first,
        λ o lo hi. elim (dec_lt o a.start) [
          | yes early ↦ before o lo early
          | no late ↦ covers o (omega arith) hi
        ],
      )

  planned-Done :
      (t : Trace F) → IsSafe t → All (λ a. Done t.first t.acked a.key a.cursor) (planned t.bridge)
  unfolding planned
  planned-Done t v =
      All-map (λ a. Sound-Done t a v.next_done)
        (plan t.bridge.pending_acknowledgements t.bridge.next_commit_offsets)
        (plan-Sound t.acked t.bridge.pending_acknowledgements t.bridge.next_commit_offsets
          v.pending_acked)

  applied-IsSafe :
      (t : Trace F)
      → IsSafe t
      → IsSafe (record t {
        bridge = apply_all (planned t.bridge) t.bridge;
        committed = t.committed ++ planned t.bridge;
      })
  applied-IsSafe t v =
      let advances = planned t.bridge in
      let dones = planned-Done t v in
      record {
        next_done = apply_all-next (Done t.first t.acked) advances t.bridge dones v.next_done;
        fresh = λ key e. v.fresh key (apply_all-fresh advances t.bridge key e);
        pending_acked = apply_all-acked t.acked advances t.bridge v.pending_acked;
        queue_acked = rw (apply_all-queue advances t.bridge) v.queue_acked;
        committed_done =
            All-append (λ a. Done t.first t.acked a.key a.cursor) t.committed advances
              v.committed_done dones;
      }

  pub drain-IsSafe : (ok : Bool) (t : Trace F) → IsSafe t → IsSafe (step t (drains ok))
  unfolding step drain_acknowledgements
  drain-IsSafe true t v =
      applied-IsSafe (record t { bridge = drained t.bridge }) (drained-IsSafe t v)
  drain-IsSafe false t v = rw (append-nil t.committed) (drained-IsSafe t v)

  -- Whatever the order of consumption, acknowledgements, drains and failing commits: every commit
  -- that is made, and every offset that the bridge would commit next, lies behind acknowledged
  -- offsets only, from the first one consumed of the partition on.
  pub run-IsSafe : (t : Trace F) (calls : List (Call F)) → IsSafe t → IsSafe (run t calls)
  unfolding run
  run-IsSafe t [] v = v
  run-IsSafe t (consumes c ∷ calls) v = run-IsSafe (step t (consumes c)) calls (track-IsSafe c t v)
  run-IsSafe t (acknowledges c ∷ calls) v =
      run-IsSafe (step t (acknowledges c)) calls (acknowledge-IsSafe c t v)
  run-IsSafe t (drains ok ∷ calls) v = run-IsSafe (step t (drains ok)) calls (drain-IsSafe ok t v)

  -- A bridge that has seen nothing.
  abbrev pub fresh_trace : Trace F
  fresh_trace = record { bridge = init; first = []; acked = []; committed = [] }

  pub fresh_trace-IsSafe : IsSafe fresh_trace
  unfolding init lookup
  fresh_trace-IsSafe = record {
    next_done = λ key n e. absurd (ground arith);
    fresh = λ key e. refl;
    pending_acked = tt;
    queue_acked = tt;
    committed_done = tt;
  }

  -- An offset that is never acknowledged, as that of a message which does not parse, holds back
  -- every commit of its partition, in any run from the start: none ever gets past it.
  pub unacknowledged_blocks :
      (calls : List (Call F)) (key : TopicPartition) (lowest o : ℕ)
      → lookup key (run fresh_trace calls).first ≡ some lowest
      → lowest ≤ o
      → contains (key, o) (run fresh_trace calls).acked ≡ false
      → All (λ a. a.key ≡ key → a.cursor ≤ o) (run fresh_trace calls).committed
  unacknowledged_blocks calls key lowest o at le missing =
      All-map (λ a h same. held_back a.cursor (subst (λ k. Done t.first t.acked k a.cursor) same h))
        t.committed (run-IsSafe fresh_trace calls fresh_trace-IsSafe).committed_done
    where
      t : Trace F
      t = run fresh_trace calls

      held_back : (n : ℕ) → Done t.first t.acked key n → n ≤ o
      held_back n (first, at', covers) = elim (dec_lt o n) [
        | yes past ↦
            let same : lowest ≡ first = ground arith in
            let acked : WasAcked t.acked key o = covers o (omega arith) past in
            absurd (ground arith)
        | no fine ↦ omega arith
      ]
