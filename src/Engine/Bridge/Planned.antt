-- ===== src/Engine/Bridge/Planned.antt =====
-- What the plan of `_drain_acknowledgements` (src/engine/engine.py), once applied, makes of each
-- partition.
use realtime_market_data_pla.Common.{
  ℕ, zero, ◌-◌, ◌≡◌, refl, sym, subst, ◌∙◌, inl, inr, false, Option, none, some, [], ◌∷◌, arith,
  length, ltb, if◌then◌else◌, Key, ◌==◌, nat_Key, string_Key, pair_Key, beq_refl, Bool-cases,
  Option-cases,
}
use realtime_market_data_pla.Engine.Bridge.{
  TopicPartition, apply_advance, plan, apply_all, ConsumedEvent, pop_offsets, pop_range, advance,
  Advance, KafkaConsumerBridge,
}
use realtime_market_data_pla.Common.Dict.{Dict, lookup, IsUnique, lookup-insert}
use realtime_market_data_pla.Engine.Bridge.Cursor.{advance-le}

module _ {F : Type 0} where
  -- Where the cursor of a partition stops, and what is left pending of it.
  unfoldable pub cursor_of : Option (Dict ℕ (ConsumedEvent F)) → Option ℕ → Option ℕ
  cursor_of none next = next
  cursor_of (some d) none = none
  cursor_of (some d) (some start) = some (advance (length d) start d)

  unfoldable pub left_of :
      Option (Dict ℕ (ConsumedEvent F)) → Option ℕ → Option (Dict ℕ (ConsumedEvent F))
  left_of none next = none
  left_of (some d) none = some d
  left_of (some d) (some start) = some (pop_range (advance (length d) start d - start) start d)

  -- The partition stands in the bridge as it is told.
  abbrev pub Stands :
      TopicPartition → Option (Dict ℕ (ConsumedEvent F)) → Option ℕ → KafkaConsumerBridge F → Type 0
  Stands key d next b =
      (lookup key b.pending_acknowledgements ≡ d) × (lookup key b.next_commit_offsets ≡ next)

  apply_other :
      (a : Advance) (key : TopicPartition) (b : KafkaConsumerBridge F)
      (d : Option (Dict ℕ (ConsumedEvent F))) (next : Option ℕ)
      → (a.key == key) ≡ false
      → Stands key d next b
      → Stands key d next (apply_advance a b)
  unfolding apply_advance pop_offsets
  apply_other a key b d next other h = (
    from_old (lookup a.key b.pending_acknowledgements) ∙ h.0,
    ground (arith, lookup-insert a.key key a.cursor b.next_commit_offsets, h.1),
  )
    where
      from_old :
          (old : Option (Dict ℕ (ConsumedEvent F)))
          → lookup key (pop_offsets old a b.pending_acknowledgements)
            ≡ lookup key b.pending_acknowledgements
      from_old none = refl
      from_old (some e) = ground (
        arith,
        lookup-insert a.key key (pop_range (a.cursor - a.start) a.start e)
            b.pending_acknowledgements,
      )

  apply_here :
      (key : TopicPartition) (start cursor : ℕ) (b : KafkaConsumerBridge F)
      (d : Dict ℕ (ConsumedEvent F))
      → Stands key (some d) (some start) b
      → Stands key
          (some (pop_range (cursor - start) start d))
          (some cursor)
          (apply_advance (record { key = key; start = start; cursor = cursor }) b)
  unfolding apply_advance pop_offsets
  apply_here key start cursor b d h = (
    rw (h.0, pop_offsets)
        (lookup-insert key key (pop_range (cursor - start) start d) b.pending_acknowledgements
          ∙ rw (beq_refl {A = TopicPartition} key) refl),
    lookup-insert key key cursor b.next_commit_offsets
        ∙ rw (beq_refl {A = TopicPartition} key) refl,
  )

  plan_unseen :
      (k : TopicPartition) (e : Dict ℕ (ConsumedEvent F))
      (rest : Dict TopicPartition (Dict ℕ (ConsumedEvent F))) (nexts : Dict TopicPartition ℕ)
      → lookup k nexts ≡ none
      → plan ((k, e) ∷ rest) nexts ≡ plan rest nexts
  unfolding plan
  plan_unseen k e rest nexts h = ground arith

  plan_seen :
      (k : TopicPartition) (e : Dict ℕ (ConsumedEvent F))
      (rest : Dict TopicPartition (Dict ℕ (ConsumedEvent F))) (nexts : Dict TopicPartition ℕ)
      (start : ℕ)
      → lookup k nexts ≡ some start
      → plan ((k, e) ∷ rest) nexts ≡ (
          if ltb start (advance (length e) start e)
          then record { key = k; start = start; cursor = advance (length e) start e }
            ∷ plan rest nexts
          else plan rest nexts)
  unfolding plan
  plan_seen k e rest nexts start h = rw (h, plan) refl

  -- A partition that the plan does not read stays.
  pub plan_absent :
      (key : TopicPartition) (rest : Dict TopicPartition (Dict ℕ (ConsumedEvent F)))
      (nexts : Dict TopicPartition ℕ) (b : KafkaConsumerBridge F)
      (d : Option (Dict ℕ (ConsumedEvent F))) (next : Option ℕ)
      → lookup key rest ≡ none
      → Stands key d next b
      → Stands key d next (apply_all (plan rest nexts) b)
  unfolding plan apply_all lookup
  plan_absent key [] nexts b d next absent h = h
  plan_absent key ((k, e) ∷ rest) nexts b d next absent h = elim (Option-cases (lookup k nexts)) [
    | inl unseen ↦
        rw (plan_unseen k e rest nexts unseen)
          (plan_absent key rest nexts b d next (ground arith) h)
    | inr (start, at) ↦
        rw (plan_seen k e rest nexts start at)
          (elim (Bool-cases (ltb start (advance (length e) start e))) [
            | inr stays ↦ rw stays (plan_absent key rest nexts b d next (ground arith) h)
            | inl moves ↦
                let a : Advance = record {
                  key = k;
                  start = start;
                  cursor = advance (length e) start e;
                } in
                rw moves (
                  plan_absent key rest nexts (apply_advance a b) d next (ground arith)
                    (apply_other a key b d next (ground arith) h))
          ])
  ]

  plan_head :
      (key : TopicPartition) (rest : Dict TopicPartition (Dict ℕ (ConsumedEvent F)))
      (nexts : Dict TopicPartition ℕ) (b : KafkaConsumerBridge F) (d : Dict ℕ (ConsumedEvent F))
      (next : Option ℕ)
      → lookup key rest ≡ none
      → lookup key nexts ≡ next
      → Stands key (some d) next b
      → Stands key
          (left_of (some d) next)
          (cursor_of (some d) next)
          (apply_all (plan ((key, d) ∷ rest) nexts) b)
  unfolding apply_all cursor_of left_of pop_range
  plan_head key rest nexts b d none absent at h =
      rw (plan_unseen key d rest nexts at) (plan_absent key rest nexts b (some d) none absent h)
  plan_head key rest nexts b d (some start) absent at h =
      let cursor = advance (length d) start d in
      rw (plan_seen key d rest nexts start at) (elim (Bool-cases (ltb start cursor)) [
        | inr stays ↦
            let same : cursor ≡ start = ground (arith, advance-le (length d) start d) in
            let nothing : start - start ≡ zero = omega arith in
            rw (stays, same, nothing) (plan_absent key rest nexts b (some d) (some start) absent h)
        | inl moves ↦ rw moves (
            plan_absent key rest nexts
              (apply_advance (record { key = key; start = start; cursor = cursor }) b)
              (some (pop_range (cursor - start) start d)) (some cursor) absent
              (apply_here key start cursor b d h))
      ])

  -- One that it reads moves to where its cursor stops.
  pub plan_present :
      (key : TopicPartition) (rest : Dict TopicPartition (Dict ℕ (ConsumedEvent F)))
      (nexts : Dict TopicPartition ℕ) (b : KafkaConsumerBridge F) (d : Dict ℕ (ConsumedEvent F))
      → IsUnique rest
      → lookup key rest ≡ some d
      → Stands key (some d) (lookup key nexts) b
      → Stands key
          (left_of (some d) (lookup key nexts))
          (cursor_of (some d) (lookup key nexts))
          (apply_all (plan rest nexts) b)
  unfolding apply_all lookup
  plan_present key [] nexts b d u found h = absurd (ground arith)
  plan_present key ((k, e) ∷ rest) nexts b d u found h = elim (Bool-cases (k == key)) [
    | inl same ↦
        let here : k ≡ key = (pair_eq.same_iff k key).0 same in
        let value : e ≡ d = ground arith in
        subst
          (λ x.
            Stands key (left_of (some d) (lookup key nexts)) (cursor_of (some d) (lookup key nexts))
              (apply_all (plan ((x, e) ∷ rest) nexts) b))
          (sym here)
          (subst
            (λ x.
              Stands key (left_of (some d) (lookup key nexts))
                (cursor_of (some d) (lookup key nexts))
                (apply_all (plan ((key, x) ∷ rest) nexts) b))
            (sym value)
            (plan_head key rest nexts b d (lookup key nexts)
              (subst (λ x. lookup x rest ≡ none) here u.0) refl h))
    | inr other ↦
        let found' : lookup key rest ≡ some d = ground arith in
        elim (Option-cases (lookup k nexts)) [
          | inl unseen ↦
              rw (plan_unseen k e rest nexts unseen) (plan_present key rest nexts b d u.1 found' h)
          | inr (start, at) ↦
              rw (plan_seen k e rest nexts start at)
                (elim (Bool-cases (ltb start (advance (length e) start e))) [
                  | inr stays ↦ rw stays (plan_present key rest nexts b d u.1 found' h)
                  | inl moves ↦
                      let a : Advance = record {
                        key = k;
                        start = start;
                        cursor = advance (length e) start e;
                      } in
                      rw moves (
                        plan_present key rest nexts (apply_advance a b) d u.1 found'
                          (apply_other a key b (some d) (lookup key nexts) other h))
                ])
        ]
  ]
    where
      pair_eq : Key TopicPartition
      pair_eq = pair_Key
