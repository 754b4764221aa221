-- ===== src/Aggregator/Raw.antt =====
-- The bounded output of an `AggregationBuffer` (src/gateway/aggregator.py), against the history of
-- what was put into it.
use realtime_market_data_pla.Common.{
  List, length, last_n, ◌≡◌, ◌∷◌, ◌≤◌, ◌++◌, ◌<◌, [], arith, inl, ap, ◌⊎◌, sym, append-nil, ◌∙◌,
  append_assoc, length-append, inr,
}
use realtime_market_data_pla.Aggregator.{
  put_all, push, put_latest, drop_oldest, AggregationBuffer, output_max_size, raw,
}
use realtime_market_data_pla.Models.{MarketEvent}
use realtime_market_data_pla.Common.Queue.{
  put_nowait_room, last_n_of_length-le, put_nowait_full, length-last_n, last_n-append_one,
}

module _ {F : Type 0} where
  full_or_not :
      (q : List (MarketEvent F))
      → length q ≤ output_max_size
      → (length q < output_max_size) ⊎ (length q ≡ output_max_size)
  full_or_not q h = ground arith

  -- Put into the newest thousand of a history, an event makes the newest thousand of the longer one.
  pub put_latest-last_n :
      (h : List (MarketEvent F)) (event : MarketEvent F)
      → put_latest event (last_n output_max_size h) ≡ last_n output_max_size (h ++ event ∷ [])
  unfolding put_latest drop_oldest
  put_latest-last_n h event =
      bounded (last_n output_max_size h) (length-last_n output_max_size h)
      ∙ last_n-append_one output_max_size h event
    where
      bounded :
          (q : List (MarketEvent F))
          → length q ≤ output_max_size
          → put_latest event q ≡ last_n output_max_size (q ++ event ∷ [])
      bounded q b = elim (full_or_not q b) [
        | inl room ↦ ground (
          arith,
          put_nowait_room output_max_size event q,
          last_n_of_length-le output_max_size (q ++ event ∷ []),
          length-append q (event ∷ []),
        )
        | inr fits ↦ ground (arith, put_nowait_full 999 event q)
      ]

  pub put_all-last_n :
      (h events : List (MarketEvent F))
      → put_all events (last_n output_max_size h) ≡ last_n output_max_size (h ++ events)
  unfolding put_all
  put_all-last_n h [] = ap (last_n output_max_size) (sym (append-nil h))
  put_all-last_n h (event ∷ events) = rw (put_latest-last_n h event) (
      put_all-last_n (h ++ event ∷ []) events
      ∙ ap (last_n output_max_size) (append_assoc h (event ∷ []) events))

  -- `push` of each event in turn
  unfoldable pub push_all : List (MarketEvent F) → AggregationBuffer F → AggregationBuffer F
  push_all [] a = a
  push_all (event ∷ events) a = push_all events (push event a)

  push_raw :
      (event : MarketEvent F) (a : AggregationBuffer F)
      → a.mode ≡ raw
      → push event a ≡ record a { output = put_latest event a.output }
  unfolding push
  push_raw event a e = ground arith

  -- In RAW mode every pushed event goes to the output, in order and at once: the output is the
  -- newest thousand of all events pushed, and nothing else of the buffer changes.
  pub push_all_raw :
      (h events : List (MarketEvent F)) (a : AggregationBuffer F)
      → a.mode ≡ raw
      → a.output ≡ last_n output_max_size h
      → push_all events a ≡ record a { output = last_n output_max_size (h ++ events) }
  unfolding push_all
  push_all_raw h [] a mode e = ground (arith, append-nil h)
  push_all_raw h (event ∷ events) a mode e = rw (push_raw event a mode) (
      push_all_raw (h ++ event ∷ []) events (record a { output = put_latest event a.output }) mode
        (rw e (put_latest-last_n h event))
      ∙ ap (λ (xs : List (MarketEvent F)). record a { output = last_n output_max_size xs })
          (append_assoc h (event ∷ []) events))
