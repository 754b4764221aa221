-- ===== src/Gateway/Dispatch/Order.antt =====
-- The order of what `client_dispatch_loop` (src/gateway/gateway.py) hands to a client.
use realtime_market_data_pla.Common.{
  String, ◌≡◌, refl, sym, subst, ◌⊎◌, inl, inr, Bool, Option, some, List, [], ◌∷◌, ◌++◌, arith, All,
  ◌==◌, nat_Key, string_Key, pair_Key, Bool-cases,
}
use realtime_market_data_pla.Gateway.Dispatch.Effects.{
  seqs, KeepsSeq, TurnKeepsSeq, seqs-append, recover-effect, deliver-effect,
}
use realtime_market_data_pla.Common.Int.{ℤ}
use realtime_market_data_pla.Gateway.Dispatch.{
  on_gap, dispatch_loop, Delivery, dispatch, Fetch, Turn, act, fetched, recover, other, arrives,
  failed, deliver,
}
use realtime_market_data_pla.Models.{Numbers, MarketEvent, SnapshotData}
use realtime_market_data_pla.Common.Dict.{Dict, lookup, insert, lookup-insert}
use realtime_market_data_pla.Gateway.Dispatch.Rising.{
  Rising, Above, Rising-weaken, Above-weaken, is_newer-Above, Decides-Above,
}
use realtime_market_data_pla.Session.{
  ClientSession, classify_sequence, next, SequenceDecision, gap, stale,
}
use realtime_market_data_pla.Session.Sequence.{
  Advances, classify_sequence-Advances, Decides, classify_sequence-Decides,
  last_seq-classify_sequence,
}
use realtime_market_data_pla.Aggregator.{is_raw}

module _ {F : Type 0} where
  -- For one symbol, with the number accepted before and after: nothing is delivered and the number
  -- does not fall, or one number above the old one is delivered and is the new one.
  abbrev StepFor : String → Option ℤ → Option ℤ → List (Delivery F) → Type 0
  StepFor j before after ds =
      ((seqs j ds ≡ []) × Advances before after)
      ⊎ ((q : ℤ) × (seqs j ds ≡ q ∷ []) × Above before q × (after ≡ some q))

  -- One delivery that leaves its number accepted, as seen by any symbol.
  one-StepFor :
      (j : String) (before middle : Dict String ℤ) (d : Delivery F)
      → ((k : String) → Advances (lookup k before) (lookup k middle))
      → Above (lookup d.symbol before) d.seq
      → StepFor j (lookup j before) (lookup j (insert d.symbol d.seq middle)) (d ∷ [])
  unfolding seqs
  one-StepFor j before middle d advances above = elim (Bool-cases (d.symbol == j)) [
    | inl same ↦ inr (
      d.seq,
      ground arith,
      subst (λ k. Above (lookup k before) d.seq) ((string_Key.same_iff d.symbol j).0 same) above,
      ground (arith, lookup-insert d.symbol j d.seq middle),
    )
    | inr different ↦
        inl (ground arith, rw (lookup-insert d.symbol j d.seq middle, different) (advances j))
  ]

  recover-StepFor :
      (j symbol : String) (before : Dict String ℤ) (snapshot : Option (SnapshotData F))
      (s : ClientSession F)
      → ((k : String) → Advances (lookup k before) (lookup k s.last_seq))
      → StepFor j
          (lookup j before)
          (lookup j (recover symbol snapshot s).session.last_seq)
          (recover symbol snapshot s).delivered
  unfolding seqs
  recover-StepFor j symbol before snapshot s advances = elim (recover-effect symbol snapshot s) [
    | inl (same, none_sent) ↦ rw (same, none_sent) (inl (refl, advances j))
    | inr (d, sent, its, newer, seeded) ↦
        rw (sent, seeded, sym its)
          (one-StepFor j before s.last_seq d advances (
            Above-weaken (lookup d.symbol before) (lookup d.symbol s.last_seq) d.seq
              (advances d.symbol)
              (is_newer-Above d.seq (lookup d.symbol s.last_seq) (rw its newer))))
  ]

  on_gap-StepFor :
      (j : String) (before : Dict String ℤ) (fetch : Fetch F) (event : MarketEvent F)
      (s : ClientSession F)
      → ((k : String) → Advances (lookup k before) (lookup k s.last_seq))
      → StepFor j
          (lookup j before)
          (lookup j (on_gap fetch event s).session.last_seq)
          (on_gap fetch event s).delivered
  unfolding on_gap seqs
  on_gap-StepFor j before (fetched snapshot) event s advances =
      recover-StepFor j event.symbol before snapshot s advances
  on_gap-StepFor j before failed event s advances = inl (refl, advances j)

module _ {F : Type 0} ⦃n : Numbers F⦄ where
  -- An event that is next was above its symbol's number, and is now that number.
  next-StepFor :
      (j : String) (event : MarketEvent F) (detect_gap : Bool) (s : ClientSession F)
      → (classify_sequence event.symbol event.seq detect_gap s).0 ≡ next
      → let s' = (classify_sequence event.symbol event.seq detect_gap s).1 in
        StepFor j
          (lookup j s.last_seq)
          (lookup j (deliver event s').session.last_seq)
          (deliver event s').delivered
  unfolding seqs
  next-StepFor j event detect_gap s e =
      let c = classify_sequence event.symbol event.seq detect_gap s in
      let advances = classify_sequence-Advances event.symbol j event.seq detect_gap s in
      elim (deliver-effect event c.1) [
        | inl (same, none_sent) ↦ rw (same, none_sent) (inl (refl, advances))
        | inr (d, sent, its, at, same) ↦
            rw (sent, same)
              (elim (Bool-cases (event.symbol == j)) [
                | inl here ↦ inr (
                  event.seq,
                  ground arith,
                  subst (λ k. Above (lookup k s.last_seq) event.seq)
                      ((string_Key.same_iff event.symbol j).0 here)
                      (Decides-Above detect_gap event.seq (lookup event.symbol s.last_seq) (
                        subst (Decides detect_gap event.seq (lookup event.symbol s.last_seq)) e
                          (classify_sequence-Decides event.symbol event.seq detect_gap s))),
                  rw (last_seq-classify_sequence event.symbol j event.seq detect_gap s, here, e)
                      refl,
                )
                | inr elsewhere ↦ inl (ground arith, advances)
              ])
      ]

  dispatch-StepFor :
      (j : String) (fetch : Fetch F) (meanwhile : ClientSession F → ClientSession F)
      (event : MarketEvent F) (s : ClientSession F)
      → KeepsSeq meanwhile
      → StepFor j
          (lookup j s.last_seq)
          (lookup j (dispatch fetch meanwhile event s).session.last_seq)
          (dispatch fetch meanwhile event s).delivered
  unfolding dispatch act seqs
  dispatch-StepFor j fetch meanwhile event s keeps = by_decision c.0 refl
    where
      detect_gap : Bool
      detect_gap = is_raw s.aggregator.mode

      c : SequenceDecision × ClientSession F
      c = classify_sequence event.symbol event.seq detect_gap s

      advances : (k : String) → Advances (lookup k s.last_seq) (lookup k c.1.last_seq)
      advances k = classify_sequence-Advances event.symbol k event.seq detect_gap s

      by_decision :
          (d : SequenceDecision)
          → c.0 ≡ d
          → StepFor j
              (lookup j s.last_seq)
              (lookup j (dispatch fetch meanwhile event s).session.last_seq)
              (dispatch fetch meanwhile event s).delivered
      by_decision next e = rw (e, act) (next-StepFor j event detect_gap s e)
      by_decision gap e =
          rw (e, act)
            (on_gap-StepFor j s.last_seq fetch event (meanwhile c.1)
              (λ k. rw (keeps c.1) (advances k)))
      by_decision stale e = rw (e, act) (inl (refl, advances j))

  StepFor-Rising :
      (j : String) (before after : Option ℤ) (ds es : List (Delivery F))
      → StepFor j before after ds
      → Rising after (seqs j es)
      → Rising before (seqs j (ds ++ es))
  StepFor-Rising j before after ds es (inl (none_sent, advances)) rest =
      rw (seqs-append j ds es, none_sent) (Rising-weaken before after (seqs j es) advances rest)
  StepFor-Rising j before after ds es (inr (q, one, above, e)) rest =
      rw (seqs-append j ds es, one) (above, subst (λ o. Rising o (seqs j es)) e rest)

  StepFor-alone :
      (j : String) (before after : Option ℤ) (ds : List (Delivery F))
      → StepFor j before after ds
      → Rising before (seqs j ds)
  StepFor-alone j before after ds (inl (none_sent, advances)) = rw none_sent tt
  StepFor-alone j before after ds (inr (q, one, above, e)) = rw one (above, tt)

  -- Whatever events arrive, in whatever order and however often, whatever the store answers and
  -- whether or not it fails, in either mode: while the other tasks leave the accepted numbers alone,
  -- the sequence numbers of the updates and snapshots that the queue takes for a symbol strictly
  -- rise, from above the number that was accepted at the start.
  pub dispatch_loop-Rising :
      (j : String) (turns : List (Turn F)) (s : ClientSession F)
      → All TurnKeepsSeq turns
      → Rising (lookup j s.last_seq) (seqs j (dispatch_loop turns s).delivered)
  unfolding dispatch_loop seqs
  dispatch_loop-Rising j [] s keeps = tt
  dispatch_loop-Rising j (other task ∷ turns) s keeps =
      subst (λ d. Rising (lookup j d) (seqs j (dispatch_loop turns (task s)).delivered)) (keeps.0 s)
        (dispatch_loop-Rising j turns (task s) keeps.1)
  dispatch_loop-Rising j (arrives fetch meanwhile event ∷ turns) s keeps =
      let first = dispatch fetch meanwhile event s in
      let step = dispatch-StepFor j fetch meanwhile event s keeps.0 in
      let before = lookup j s.last_seq in
      let after = lookup j first.session.last_seq in
      elim (Bool-cases first.running) [
        | inl on ↦ rw on (
            StepFor-Rising j before after first.delivered
              (dispatch_loop turns first.session).delivered step
              (dispatch_loop-Rising j turns first.session keeps.1))
        | inr ended ↦ rw ended (StepFor-alone j before after first.delivered step)
      ]
