-- ===== src/Storage/TickWriter/Invalid.antt =====
-- What a message that does not parse (`_handle_invalid_message` of src/storage/tick_writer.py) makes
-- the tick writer commit.
use realtime_market_data_pla.Common.{
  ◌≡◌, refl, sym, ap, subst, ◌∙◌, ◌⊎◌, inl, inr, false, List, [], ◌∷◌, ◌++◌, append-nil,
  append_assoc, arith, take, All-append, nat_Key, string_Key, pair_Key, Bool, if◌then◌else◌, true,
  All,
}
use realtime_market_data_pla.Storage.TickWriter.{
  handle_invalid_message, commit_invalid, Attempt, Place, TickWriter, ConsumedTick, flush, flushed,
  stopped, crashed, waiting, commit_batch,
}
use realtime_market_data_pla.Storage.TickWriter.Persisted.{
  Trace, IsSafe, Member, persist, flushed_or_not, batch_seen, keep, All-take,
}
use realtime_market_data_pla.Storage.TickWriter.Commits.{FlushLeaves, flush-FlushLeaves}

-- what the commit adds
abbrev added : Bool → Place → List Place
added takes p = if takes then p ∷ [] else []

added-Member :
    (takes : Bool) (p : Place) (seen : List Place)
    → Member p seen
    → All (λ c. Member c seen) (added takes p)
added-Member true p seen m = (m, tt)
added-Member false p seen m = tt

module _ {F : Type 0} where
  invalid_empty :
      (attempts : List Attempt) (takes : Bool) (p : Place) (w : TickWriter F)
      → w.batch ≡ []
      → handle_invalid_message attempts takes p w ≡ commit_invalid takes p w
  unfolding handle_invalid_message
  invalid_empty attempts takes p w e = ground arith

  invalid_flushed :
      (attempts : List Attempt) (takes : Bool) (p : Place) (w : TickWriter F) (x : ConsumedTick F)
      (xs : List (ConsumedTick F))
      → w.batch ≡ x ∷ xs
      → (flush attempts w.batch w).1 ≡ flushed
      → handle_invalid_message attempts takes p w
        ≡ commit_invalid takes p (flush attempts w.batch w).0
  unfolding handle_invalid_message
  invalid_flushed attempts takes p w x xs e r = ground (arith)

  invalid_ends :
      (attempts : List Attempt) (takes : Bool) (p : Place) (w : TickWriter F) (x : ConsumedTick F)
      (xs : List (ConsumedTick F))
      → w.batch ≡ x ∷ xs
      → ((flush attempts w.batch w).1 ≡ stopped)
        ⊎ (((flush attempts w.batch w).1 ≡ crashed) ⊎ ((flush attempts w.batch w).1 ≡ waiting))
      → handle_invalid_message attempts takes p w
        ≡ record (flush attempts w.batch w).0 { running = false }
  unfolding handle_invalid_message
  invalid_ends attempts takes p w x xs e r = ground (arith)

  commit_invalid_adds :
      (takes : Bool) (p : Place) (w : TickWriter F)
      → ((commit_invalid takes p w).commits ≡ w.commits ++ added takes p)
        × ((commit_invalid takes p w).inserted ≡ w.inserted)
        × ((commit_invalid takes p w).running ≡ true → (commit_invalid takes p w).batch ≡ [])
  unfolding commit_invalid
  commit_invalid_adds true p w = (refl, refl, λ on. refl)
  commit_invalid_adds false p w = (sym (append-nil w.commits), refl, λ on. absurd (ground arith))

  pub invalid-IsSafe :
      (attempts : List Attempt) (takes : Bool) (p : Place) (t : Trace F) (v : IsSafe t)
      → t.writer.batch ≡ v.unflushed
      → Member p t.seen
      → IsSafe (record t { writer = handle_invalid_message attempts takes p t.writer })
  invalid-IsSafe attempts takes p t v same member = from_batch t.writer.batch refl
    where
      w' : TickWriter F
      w' = (flush attempts t.writer.batch t.writer).0

      leaves : FlushLeaves t.writer.batch t.writer w' (flush attempts t.writer.batch t.writer).1
      leaves = flush-FlushLeaves attempts t.writer.batch t.writer

      from_batch :
          (b : List (ConsumedTick F))
          → t.writer.batch ≡ b
          → IsSafe (record t { writer = handle_invalid_message attempts takes p t.writer })
      from_batch [] e =
          let (adds, puts, clears) = commit_invalid_adds takes p t.writer in
          rw (invalid_empty attempts takes p t.writer e) (
            persist t v (commit_invalid takes p t.writer) (added takes p)
              (puts ∙ (rw (sym same, e) (sym (append-nil t.writer.inserted)))) adds
              (added-Member takes p t.seen member) (λ on go. clears on))
      from_batch (x ∷ xs) e = elim (flushed_or_not (flush attempts t.writer.batch t.writer).1) [
        | inl r ↦
            let l = subst (FlushLeaves t.writer.batch t.writer w') r leaves in
            let (adds, puts, clears) = commit_invalid_adds takes p w' in
            rw (invalid_flushed attempts takes p t.writer x xs e r) (
              persist t v (commit_invalid takes p w') (commit_batch t.writer.batch ++ added takes p)
                (puts ∙ (rw (sym same) l.0))
                (adds
                  ∙ ap (λ cs. cs ++ added takes p) l.1
                  ∙ append_assoc t.writer.commits (commit_batch t.writer.batch) (added takes p))
                (All-append (λ c. Member c t.seen) (commit_batch t.writer.batch) (added takes p)
                  (batch_seen t v same) (added-Member takes p t.seen member))
                (λ on go. clears on))
        | inr (inl r) ↦
            let l = subst (FlushLeaves t.writer.batch t.writer w') r leaves in
            rw (invalid_ends attempts takes p t.writer x xs e (inl r))
              (keep t v (record w' { running = false }) l.0 l.1 (λ on go. absurd (ground arith)))
        | inr (inr (inl r)) ↦
            let l = subst (FlushLeaves t.writer.batch t.writer w') r leaves in
            let (n, adds) = l.1 in
            rw (invalid_ends attempts takes p t.writer x xs e (inr (inl r))) (
              persist t v (record w' { running = false }) (take n (commit_batch t.writer.batch))
                (rw (sym same) l.0) adds
                (All-take (λ c. Member c t.seen) n (commit_batch t.writer.batch)
                  (batch_seen t v same))
                (λ on go. absurd (ground arith)))
        | inr (inr (inr r)) ↦
            let l = subst (FlushLeaves t.writer.batch t.writer w') r leaves in
            rw (invalid_ends attempts takes p t.writer x xs e (inr (inr r)))
              (keep t v (record w' { running = false }) l.0 l.1 (λ on go. absurd (ground arith)))
      ]
