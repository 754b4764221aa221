-- ===== src/Session/Latency.antt =====
-- The rolling window of `LatencyTracker` (src/gateway/session.py).
use realtime_market_data_pla.Common.{
  none, some, last_n, List, Option, ◌≡◌, some, length, ◌++◌, ◌≤◌, ◌∷◌, [], arith, length-append,
  ◌-◌, append-nil, Option-cases, inl, inr, ◌∙◌, ap, append_assoc,
}
use realtime_market_data_pla.Models.{Numbers}
use realtime_market_data_pla.Session.{record_latency, max_samples}
use realtime_market_data_pla.Common.Int.{ℤ}
use realtime_market_data_pla.Common.Queue.{drop_congr, length-last_n, last_n-append_one}

module _ {F : Type 0} ⦃n : Numbers F⦄ where
  -- Below the bound or at it, recording keeps the newest samples.
  pub record_latency-last_n :
      (now : F) (ts : ℤ) (samples : List F) (t : F)
      → n.of_int ts ≡ some t
      → length samples ≤ max_samples
      → record_latency now ts samples ≡ some (last_n max_samples (samples ++ n.sub now t ∷ []))
  unfolding record_latency last_n
  record_latency-last_n now ts samples t conv h = ground (
    arith,
    conv,
    length-append samples (n.sub now t ∷ []),
    drop_congr {m = length (samples ++ n.sub now t ∷ []) - max_samples} {n = 1}
        (samples ++ n.sub now t ∷ []),
    drop_congr {m = length (samples ++ n.sub now t ∷ []) - max_samples} {n = 0}
        (samples ++ n.sub now t ∷ []),
  )

  -- A run of the tracker over (time, event_ts) pairs; an `OverflowError` ends it.
  unfoldable pub record_all : List (F × ℤ) → List F → Option (List F)
  record_all [] samples = some samples
  record_all ((now, ts) ∷ rest) samples = elim (record_latency now ts samples) [
    | none ↦ none
    | some samples' ↦ record_all rest samples'
  ]

  abbrev prepend : F → Option (List F) → Option (List F)
  prepend x none = none
  prepend x (some xs) = some (x ∷ xs)

  -- The latency of each pair, `none` if one has no float.
  unfoldable pub latencies : List (F × ℤ) → Option (List F)
  latencies [] = some []
  latencies ((now, ts) ∷ rest) = elim (n.of_int ts) [
    | none ↦ none
    | some t ↦ prepend (n.sub now t) (latencies rest)
  ]

  latencies_cons :
      (now : F) (ts : ℤ) (rest : List (F × ℤ)) (all : List F)
      → latencies ((now, ts) ∷ rest) ≡ some all
      → (t : F) × (ls : List F) × (n.of_int ts ≡ some t)
        × (latencies rest ≡ some ls)
        × (all ≡ n.sub now t ∷ ls)
  unfolding latencies
  latencies_cons now ts rest all h = elim (Option-cases (n.of_int ts)) [
    | inl e ↦ absurd (ground arith)
    | inr (t, e) ↦ elim (Option-cases (latencies rest)) [
      | inl e' ↦ absurd (ground arith)
      | inr (ls, e') ↦ (t, ls, e, e', ground arith)
    ]
  ]

  -- If every timestamp has a float, a tracker with the newest thousand of a history ends with the
  -- newest thousand of the history and of all latencies recorded since, oldest first.
  pub record_all-last_n :
      (pairs : List (F × ℤ)) (before all : List F)
      → latencies pairs ≡ some all
      → record_all pairs (last_n max_samples before) ≡ some (last_n max_samples (before ++ all))
  unfolding record_all latencies
  record_all-last_n [] before all h = let e : all ≡ [] = ground arith in rw (e, append-nil before)
  record_all-last_n ((now, ts) ∷ rest) before all h =
      let (t, ls, conv, more, e) = latencies_cons now ts rest all h in
      rw
        (
          record_latency-last_n now ts (last_n max_samples before) t conv
              (length-last_n max_samples before),
          record_all,
          last_n-append_one max_samples before (n.sub now t),
          e,
        )
        (record_all-last_n rest (before ++ n.sub now t ∷ []) ls more
          ∙ ap (λ xs. some (last_n max_samples xs)) (append_assoc before (n.sub now t ∷ []) ls))
