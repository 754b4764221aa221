-- ===== src/Engine/Bridge/Cursor.antt =====
-- The loop `while cursor in pending` of `_drain_acknowledgements` (src/engine/engine.py).
use realtime_market_data_pla.Common.{
  ℕ, zero, suc, ◌+◌, ◌≤◌, ◌<◌, ◌≡◌, refl, sym, subst, ◌≢◌, inl, inr, true, false, [], ◌∷◌, arith,
  length, nat_Key, string_Key, pair_Key, Bool-cases, Option-cases,
}
use realtime_market_data_pla.Engine.Bridge.{advance, has_offset, ConsumedEvent}
use realtime_market_data_pla.Common.Dict.{Dict, delete, lookup-delete, lookup, length-delete-lt}

module _ {F : Type 0} where
  pub advance-le :
      (fuel cursor : ℕ) (pending : Dict ℕ (ConsumedEvent F)) → cursor ≤ advance fuel cursor pending
  unfolding advance
  advance-le zero cursor pending = omega arith
  advance-le (suc fuel) cursor pending = ground (arith, advance-le fuel (cursor + 1) pending)

  -- Every offset that the loop passes is pending.
  pub advance_passes :
      (fuel cursor o : ℕ) (pending : Dict ℕ (ConsumedEvent F))
      → cursor ≤ o
      → o < advance fuel cursor pending
      → has_offset o pending ≡ true
  unfolding advance
  advance_passes zero cursor o pending h k = absurd (omega arith)
  advance_passes (suc fuel) cursor o pending h k =
      ground (arith, advance_passes fuel (cursor + 1) o pending)

  has_offset-delete :
      (k o : ℕ) (pending : Dict ℕ (ConsumedEvent F))
      → o ≢ k
      → has_offset o (delete k pending) ≡ has_offset o pending
  unfolding has_offset
  has_offset-delete k o pending h = ground (arith, lookup-delete k o pending)

  -- The loop reads only offsets from its cursor on.
  advance-delete :
      (fuel cursor k : ℕ) (pending : Dict ℕ (ConsumedEvent F))
      → k < cursor
      → advance fuel cursor (delete k pending) ≡ advance fuel cursor pending
  unfolding advance
  advance-delete zero cursor k pending h = refl
  advance-delete (suc fuel) cursor k pending h =
      ground (arith, has_offset-delete k cursor pending, advance-delete fuel (cursor + 1) k pending)

  shorter :
      (cursor : ℕ) (pending : Dict ℕ (ConsumedEvent F))
      → has_offset cursor pending ≡ true
      → suc (length (delete cursor pending)) ≤ length pending
  unfolding has_offset
  shorter cursor pending h = elim (Option-cases (lookup cursor pending)) [
    | inl e ↦ absurd (ground arith)
    | inr (c, e) ↦ length-delete-lt cursor pending c e
  ]

  has_offset_nil :
      (o : ℕ) (pending : Dict ℕ (ConsumedEvent F))
      → length pending ≤ 0
      → has_offset o pending ≡ false
  unfolding has_offset lookup
  has_offset_nil o [] h = refl
  has_offset_nil o (x ∷ pending) h = absurd (omega arith)

  -- As much fuel as there are pending offsets is enough: the loop stops at an offset that is not
  -- pending.
  pub advance_stops :
      (fuel cursor : ℕ) (pending : Dict ℕ (ConsumedEvent F))
      → length pending ≤ fuel
      → has_offset (advance fuel cursor pending) pending ≡ false
  unfolding advance
  advance_stops zero cursor pending h = has_offset_nil cursor pending h
  advance_stops (suc fuel) cursor pending h = elim (Bool-cases (has_offset cursor pending)) [
    | inl there ↦
        let end = advance fuel (cursor + 1) pending in
        rw
          (
            there,
            sym (
                has_offset-delete cursor end pending
                  (omega (arith, advance-le fuel (cursor + 1) pending))),
          )
          (subst (λ e. has_offset e (delete cursor pending) ≡ false)
            (advance-delete fuel (cursor + 1) cursor pending (omega arith))
            (advance_stops fuel (cursor + 1) (delete cursor pending)
              (omega (arith, shorter cursor pending there))))
    | inr stop ↦ rw stop stop
  ]
