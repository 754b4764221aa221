-- ===== src/Storage/TickWriter/Persisted.antt =====
-- A commit of the tick writer (src/storage/tick_writer.py) never passes a tick that is only in
-- memory.
use realtime_market_data_pla.Common.{
  ℕ, zero, suc, ◌<◌, ◌≡◌, refl, sym, ap, subst, ◌∙◌, ◌⊎◌, inl, inr, true, false, List, [], ◌∷◌,
  ◌++◌, map, append-nil, arith, take, All, All-append, nat_Key, string_Key, pair_Key,
}
use realtime_market_data_pla.Storage.TickWriter.{
  Place, flush_batch, TickWriter, ConsumedTick, Flushed, commit_batch, place, flushed, Attempt,
  stopped, flush, crashed, waiting,
}
use realtime_market_data_pla.Storage.TickWriter.Commits.{
  commit_batch-All, flush-FlushLeaves, FlushLeaves,
}

abbrev pub Member : Place → List Place → Type 0
Member p [] = ⊥
Member p (q ∷ qs) = (p ≡ q) ⊎ Member p qs

pub Member-append_left : (p : Place) (qs rs : List Place) → Member p qs → Member p (qs ++ rs)
Member-append_left p [] rs m = elim m [ ]
Member-append_left p (q ∷ qs) rs (inl e) = inl e
Member-append_left p (q ∷ qs) rs (inr m) = inr (Member-append_left p qs rs m)

pub Member-append_last : (p : Place) (qs : List Place) → Member p (qs ++ p ∷ [])
Member-append_last p [] = inl refl
Member-append_last p (q ∷ qs) = inr (Member-append_last p qs)

pub All-Member : (P : Place → Type 0) (p : Place) (qs : List Place) → Member p qs → All P qs → P p
All-Member P p [] m h = elim m [ ]
All-Member P p (q ∷ qs) (inl e) h = subst P (sym e) h.0
All-Member P p (q ∷ qs) (inr m) h = All-Member P p qs m h.1

pub All-take {ℓ κ} :
    {A : Type ℓ} (P : A → Type κ) (n : ℕ) (xs : List A) → All P xs → All P (take n xs)
All-take P zero xs h = tt
All-take P (suc n) [] h = tt
All-take P (suc n) (x ∷ xs) h = (h.0, All-take P n xs h.1)

-- Kafka hands out the messages of a partition in the order of their offsets.
abbrev pub IsNew : List Place → Place → Type 0
IsNew seen p = All (λ q. q.key ≡ p.key → q.offset < p.offset) seen

-- A writer with the valid ticks that it has polled, and the places of all messages so far.
pub record Trace (F : Type 0) : Type 0 where
  pub writer : TickWriter F
  pub consumed : List (ConsumedTick F)
  pub seen : List Place

pub flushed_or_not :
    (b : Flushed) → (b ≡ flushed) ⊎ ((b ≡ stopped) ⊎ ((b ≡ crashed) ⊎ (b ≡ waiting)))
flushed_or_not flushed = inl refl
flushed_or_not stopped = inr (inl refl)
flushed_or_not crashed = inr (inr (inl refl))
flushed_or_not waiting = inr (inr (inr refl))

module _ {F : Type 0} where
  -- The tick lies behind no commit of its partition.
  abbrev pub Behind : List (ConsumedTick F) → Place → Type 0
  Behind unflushed c = All (λ u. (place u).key ≡ c.key → c.offset < u.offset) unflushed

  -- The ticks are those in the database and those that are not, in the order of their consumption;
  -- the latter all lie behind every commit of their partition.
  pub record IsSafe (t : Trace F) : Type 0 where
    pub persisted : List (ConsumedTick F)
    pub unflushed : List (ConsumedTick F)
    pub split : t.consumed ≡ persisted ++ unflushed
    pub stored : t.writer.inserted ≡ map (λ u. u.event) persisted
    pub live : t.writer.running ≡ true → t.writer.stop ≡ false → t.writer.batch ≡ unflushed
    pub commits_seen : All (λ c. Member c t.seen) t.writer.commits
    pub ticks_seen : All (λ u. Member (place u) t.seen) unflushed
    pub behind : All (Behind unflushed) t.writer.commits

  map-append :
      (xs ys : List (ConsumedTick F))
      → map (λ u. u.event) (xs ++ ys) ≡ map (λ u. u.event) xs ++ map (λ u. u.event) ys
  map-append [] ys = refl
  map-append (x ∷ xs) ys = ap (◌∷◌ x.event) (map-append xs ys)

Behind-none : (F : Type 0) (cs : List Place) → All (λ c. Behind {F = F} [] c) cs
Behind-none F [] = tt
Behind-none F (c ∷ cs) = (tt, Behind-none F cs)

module _ {F : Type 0} where
  -- The whole batch is in the database, and commits of seen places were added.
  pub persist :
      (t : Trace F) (v : IsSafe t) (w : TickWriter F) (more : List Place)
      → w.inserted ≡ t.writer.inserted ++ map (λ u. u.event) v.unflushed
      → w.commits ≡ t.writer.commits ++ more
      → All (λ c. Member c t.seen) more
      → (w.running ≡ true → w.stop ≡ false → w.batch ≡ [])
      → IsSafe (record t { writer = w })
  persist t v w more puts adds seen live = record {
    persisted = v.persisted ++ v.unflushed;
    unflushed = [];
    split = v.split ∙ sym (append-nil (v.persisted ++ v.unflushed));
    stored = rw (puts, v.stored, map-append v.persisted v.unflushed) refl;
    live = live;
    commits_seen =
        rw adds (All-append (λ c. Member c t.seen) t.writer.commits more v.commits_seen seen);
    ticks_seen = tt;
    behind = Behind-none F w.commits;
  }

  -- Nothing reaches the database, nothing is committed, and the loop ends.
  pub keep :
      (t : Trace F) (v : IsSafe t) (w : TickWriter F)
      → w.inserted ≡ t.writer.inserted
      → w.commits ≡ t.writer.commits
      → (w.running ≡ true → w.stop ≡ false → w.batch ≡ v.unflushed)
      → IsSafe (record t { writer = w })
  keep t v w puts adds live = record {
    persisted = v.persisted;
    unflushed = v.unflushed;
    split = v.split;
    stored = puts ∙ v.stored;
    live = live;
    commits_seen = rw adds v.commits_seen;
    ticks_seen = v.ticks_seen;
    behind = rw adds v.behind;
  }

  pub batch_seen :
      (t : Trace F) (v : IsSafe t)
      → t.writer.batch ≡ v.unflushed
      → All (λ c. Member c t.seen) (commit_batch t.writer.batch)
  batch_seen t v e = commit_batch-All (λ c. Member c t.seen) t.writer.batch (rw e v.ticks_seen)

  pub flush_batch-IsSafe :
      (attempts : List Attempt) (t : Trace F) (v : IsSafe t)
      → t.writer.batch ≡ v.unflushed
      → IsSafe (record t { writer = flush_batch attempts t.writer })
  unfolding flush_batch
  flush_batch-IsSafe attempts t v same =
      let w' = (flush attempts t.writer.batch t.writer).0 in
      let leaves = flush-FlushLeaves attempts t.writer.batch t.writer in
      elim (flushed_or_not (flush attempts t.writer.batch t.writer).1) [
        | inl e ↦
            let l = subst (FlushLeaves t.writer.batch t.writer w') e leaves in
            rw (e, flush_batch)
              (persist t v (record w' { batch = [] }) (commit_batch t.writer.batch)
                (rw (sym same) l.0) l.1 (batch_seen t v same) (λ on go. refl))
        | inr (inl e) ↦
            let l = subst (FlushLeaves t.writer.batch t.writer w') e leaves in
            rw (e, flush_batch)
              (keep t v (record w' { batch = [] }) l.0 l.1 (λ on go. absurd (ground arith)))
        | inr (inr (inl e)) ↦
            let l = subst (FlushLeaves t.writer.batch t.writer w') e leaves in
            let (n, adds) = l.1 in
            rw (e, flush_batch)
              (persist t v (record w' { running = false }) (take n (commit_batch t.writer.batch))
                (rw (sym same) l.0) adds
                (All-take (λ c. Member c t.seen) n (commit_batch t.writer.batch)
                  (batch_seen t v same))
                (λ on go. absurd (ground arith)))
        | inr (inr (inr e)) ↦
            let l = subst (FlushLeaves t.writer.batch t.writer w') e leaves in
            rw (e, flush_batch)
              (keep t v (record w' { running = false }) l.0 l.1 (λ on go. absurd (ground arith)))
      ]
