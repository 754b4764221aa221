-- ===== src/Session/Outbound.antt =====
-- The bounded outbound queue of a client (`enqueue` of src/gateway/session.py) against a history of
-- what was offered to it.
use realtime_market_data_pla.Common.{
  string_Key, ℕ, ◌+◌, ◌≤◌, ◌<◌, ◌≡◌, refl, ◌⊎◌, inl, inr, ◌↔◌, true, false, [], ◌∷◌, ◌++◌, arith,
  length, length-append, last_n,
}
use realtime_market_data_pla.Common.Queue.{
  put_nowait_full, length-last_n, put_nowait_room, put_nowait-none,
}
use realtime_market_data_pla.Models.{Message}
use realtime_market_data_pla.Session.{
  ClientSession, SlowConsumerPolicy, enqueue, replace_oldest, signal_slow, count_drop,
  queue_max_size, slow_client_drop_limit,
}

split_le : {a b : ℕ} → a ≤ b → (a < b) ⊎ (a ≡ b)
split_le h = ground arith

policy_cases :
    (p : SlowConsumerPolicy)
    → (p ≡ SlowConsumerPolicy.drop_oldest) ⊎ (p ≡ SlowConsumerPolicy.disconnect)
policy_cases SlowConsumerPolicy.drop_oldest = inl refl
policy_cases SlowConsumerPolicy.disconnect = inr refl

module _ {F : Type 0} (m : Message F) (s : ClientSession F) where
  -- With room in the queue every policy appends the message, and counts nothing.
  pub enqueue_room :
      length s.queue < queue_max_size → enqueue m s ≡ (record s { queue = s.queue ++ m ∷ [] }, true)
  unfolding enqueue
  enqueue_room h = ground (arith, put_nowait_room queue_max_size m s.queue)

  -- On a full queue DROP_OLDEST counts a drop, and keeps the newest messages with the new one last.
  pub enqueue-drop_oldest :
      s.policy ≡ SlowConsumerPolicy.drop_oldest
      → length s.queue ≡ queue_max_size
      → enqueue m s
        ≡ (record (count_drop s) { queue = last_n queue_max_size (s.queue ++ m ∷ []) }, true)
  unfolding enqueue replace_oldest
  enqueue-drop_oldest policy fits = ground (arith, put_nowait_full 499 m s.queue)

  -- On a full queue DISCONNECT loses the new message, and disconnects from the hundredth drop on.
  pub enqueue-disconnect :
      s.policy ≡ SlowConsumerPolicy.disconnect
      → length s.queue ≡ queue_max_size
      → let s' = (enqueue m s).0 in
        ((enqueue m s).1 ≡ false)
        × (s'.queue ≡ s.queue)
        × (s'.stats.dropped ≡ s.stats.dropped + 1)
        × ((s'.disconnected ≡ true)
            ↔ ((s.disconnected ≡ true) ⊎ (slow_client_drop_limit ≤ s.stats.dropped + 1)))
  unfolding enqueue signal_slow
  enqueue-disconnect policy fits = ground (arith, put_nowait-none queue_max_size m s.queue)

  -- Whatever the policy, a queue within its bound stays within it.
  pub enqueue_bound :
      length s.queue ≤ queue_max_size → length (enqueue m s).0.queue ≤ queue_max_size
  unfolding enqueue replace_oldest signal_slow
  enqueue_bound h = elim (split_le h) [
    | inl room ↦ rw (enqueue_room room) (omega (arith, length-append s.queue (m ∷ [])))
    | inr fits ↦ elim (policy_cases s.policy) [
      | inl oldest ↦
          rw (enqueue-drop_oldest oldest fits) (length-last_n queue_max_size (s.queue ++ m ∷ []))
      | inr disconnecting ↦ rw (enqueue-disconnect disconnecting fits).1 h
    ]
  ]
