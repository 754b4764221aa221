-- ===== src/Gateway/Dispatch/Effects.antt =====
-- What one round of `client_dispatch_loop` (src/gateway/gateway.py) delivers and accepts.
use realtime_market_data_pla.Common.{
  String, ◌≡◌, refl, ◌⊎◌, inl, inr, true, Option, none, some, List, [], ◌∷◌, ◌++◌, arith,
  if◌then◌else◌, ◌==◌, nat_Key, string_Key, pair_Key, Bool-cases,
}
use realtime_market_data_pla.Gateway.Dispatch.{
  Delivery, Turn, recover, arrives, deliver, seed_snapshot, Outcome, other, is_newer,
  snapshot_message,
}
use realtime_market_data_pla.Models.{Numbers, SnapshotData, MarketEvent, Message, event_dict}
use realtime_market_data_pla.Session.{
  ClientSession, enqueue, replace_oldest, signal_slow, mark_delivered, should_deliver,
}
use realtime_market_data_pla.Common.Dict.{Dict, lookup, insert}
use realtime_market_data_pla.Common.Int.{ℤ}

module _ {F : Type 0} where
  -- The sequence numbers delivered for a symbol.
  unfoldable pub seqs : String → List (Delivery F) → List ℤ
  seqs symbol [] = []
  seqs symbol (d ∷ ds) = if d.symbol == symbol then d.seq ∷ seqs symbol ds else seqs symbol ds

  pub seqs-append :
      (j : String) (ds es : List (Delivery F)) → seqs j (ds ++ es) ≡ seqs j ds ++ seqs j es
  unfolding seqs
  seqs-append j [] es = refl
  seqs-append j (d ∷ ds) es = ground (arith, seqs-append j ds es)

  -- Another task leaves the accepted numbers alone: the writer, or `subscribe` for another symbol.
  abbrev pub KeepsSeq : (ClientSession F → ClientSession F) → Type 0
  KeepsSeq task = (s : ClientSession F) → (task s).last_seq ≡ s.last_seq

  abbrev pub TurnKeepsSeq : Turn F → Type 0
  TurnKeepsSeq (arrives fetch meanwhile event) = KeepsSeq meanwhile
  TurnKeepsSeq (other task) = KeepsSeq task

  -- The queue never touches the accepted numbers.
  pub enqueue-last_seq :
      (m : Message F) (s : ClientSession F) → (enqueue m s).0.last_seq ≡ s.last_seq
  unfolding enqueue replace_oldest signal_slow
  enqueue-last_seq m s = ground arith

  -- What one call may do for its symbol: nothing, or one delivery, whose number it leaves accepted.
  abbrev pub Quiet : Dict String ℤ → Outcome F → Type 0
  Quiet before o = (o.session.last_seq ≡ before) × (o.delivered ≡ [])

  pub recover-effect :
      (symbol : String) (snapshot : Option (SnapshotData F)) (s : ClientSession F)
      → Quiet s.last_seq (recover symbol snapshot s)
        ⊎ ((d : Delivery F) × ((recover symbol snapshot s).delivered ≡ d ∷ [])
            × (d.symbol ≡ symbol)
            × (is_newer d.seq (lookup symbol s.last_seq) ≡ true)
            × ((recover symbol snapshot s).session.last_seq ≡ insert symbol d.seq s.last_seq))
  unfolding recover seed_snapshot
  recover-effect symbol none s = inl (refl, refl)
  recover-effect symbol (some d) s = elim (Bool-cases (is_newer d.seq (lookup symbol s.last_seq))) [
    | inl newer ↦ elim (Bool-cases (enqueue (snapshot_message d) s).1) [
      | inl taken ↦ inr (
        record { symbol = symbol; seq = d.seq; message = snapshot_message d },
        ground arith,
        refl,
        newer,
        ground (arith, enqueue-last_seq (snapshot_message d) s),
      )
      | inr refused ↦ inl (ground (arith, enqueue-last_seq (snapshot_message d) s), ground arith)
    ]
    | inr older ↦ inl (ground arith, ground arith)
  ]

module _ {F : Type 0} ⦃n : Numbers F⦄ where
  pub deliver-effect :
      (event : MarketEvent F) (s : ClientSession F)
      → Quiet s.last_seq (deliver event s)
        ⊎ ((d : Delivery F) × ((deliver event s).delivered ≡ d ∷ [])
            × (d.symbol ≡ event.symbol)
            × (d.seq ≡ event.seq)
            × ((deliver event s).session.last_seq ≡ s.last_seq))
  unfolding deliver mark_delivered
  deliver-effect event s = elim (Bool-cases (should_deliver event s)) [
    | inl wanted ↦ elim (Bool-cases (enqueue (event_dict event) s).1) [
      | inl taken ↦ inr (
        record { symbol = event.symbol; seq = event.seq; message = event_dict event },
        ground arith,
        refl,
        refl,
        ground (arith, enqueue-last_seq (event_dict event) s),
      )
      | inr refused ↦ inl (ground (arith, enqueue-last_seq (event_dict event) s), ground arith)
    ]
    | inr filtered ↦ inl (ground arith, ground arith)
  ]
