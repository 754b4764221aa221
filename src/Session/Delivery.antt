-- ===== src/Session/Delivery.antt =====
-- The outbound queue of a client with its writer (`enqueue` and `_writer_loop` of
-- src/gateway/session.py), under any interleaving of the two tasks.
use mathlib.Core.List.{Sublist, sublist-append_left}
use mathlib.Core.List.Sublist
use realtime_market_data_pla.Common.{
  string_Key, ℕ, suc, ◌+◌, ◌≤◌, ◌<◌, ◌≡◌, refl, ◌⊎◌, inl, inr, ◌∙◌, Bool-cases, Bool, true, false,
  List, [], ◌∷◌, ◌++◌, if◌then◌else◌, arith, length, length-append, append_assoc, append-nil, ap,
}
use realtime_market_data_pla.Common.Queue.{get_nowait, last_n_cons}
use realtime_market_data_pla.Models.{Message, Numbers}
use realtime_market_data_pla.Session.{
  ClientSession, SlowConsumerPolicy, enqueue, queue_max_size, writer_round, after_send,
}
use realtime_market_data_pla.Session.Outbound.{enqueue_room, enqueue-drop_oldest}

-- What the two tasks do: a message is offered to the queue, or the writer makes a round, with the
-- WebSocket taking the message or not, at a time.
pub data Action (F : Type 0) : Type 0 where
  offer : Message F → Action F
  round : Bool → F → Action F

-- A session with the messages offered to it and those sent, oldest first.
pub record Trace (F : Type 0) : Type 0 where
  pub session : ClientSession F
  pub offered : List (Message F)
  pub sent : List (Message F)

-- Every offered message is waiting, or is gone: sent, dropped, or lost with the send that failed.
-- The waiting ones are the newest, and the sent ones are in the order of the offers.
pub record Accounts {F : Type 0} (t : Trace F) : Type 0 where
  pub policy : t.session.policy ≡ SlowConsumerPolicy.drop_oldest
  pub bound : length t.session.queue ≤ queue_max_size
  pub gone : List (Message F)
  pub split : t.offered ≡ gone ++ t.session.queue
  pub order : Sublist t.sent gone
  pub counted : length t.sent ≡ t.session.stats.sent
  pub failed : ℕ
  pub total : length gone ≡ t.session.stats.sent + t.session.stats.dropped + failed
  pub failed_once : failed ≤ 1
  pub failed_stops : t.session.disconnected ≡ false → failed ≡ 0

fills : (n : ℕ) → suc n ≤ queue_max_size → (suc n < queue_max_size) ⊎ (n ≡ 499)
fills n h = ground arith

module _ {F : Type 0} ⦃n : Numbers F⦄ where
  unfoldable pub step : Trace F → Action F → Trace F
  step t (offer m) = record t { session = (enqueue m t.session).0; offered = t.offered ++ m ∷ [] }
  step t (round ok now) = record t {
    session = (writer_round ok now t.session).0;
    sent = t.sent ++ (writer_round ok now t.session).1;
  }

  unfoldable pub run : Trace F → List (Action F) → Trace F
  run t [] = t
  run t (a ∷ actions) = run (step t a) actions

  offer_room :
      (m : Message F) (t : Trace F)
      → length t.session.queue < queue_max_size
      → Accounts t
      → Accounts (step t (offer m))
  unfolding step
  offer_room m t room c = rw (enqueue_room m t.session room) (record {
    policy = c.policy;
    bound = omega (arith, length-append t.session.queue (m ∷ []));
    gone = c.gone;
    split = rw c.split (append_assoc c.gone t.session.queue (m ∷ []));
    order = c.order;
    counted = c.counted;
    failed = c.failed;
    total = c.total;
    failed_once = c.failed_once;
    failed_stops = c.failed_stops;
  })

  offer_full :
      (m y : Message F) (rest : List (Message F)) (t : Trace F)
      → t.session.queue ≡ y ∷ rest
      → length rest ≡ 499
      → Accounts t
      → Accounts (step t (offer m))
  unfolding step
  offer_full m y rest t q fits c =
      rw
        (
          enqueue-drop_oldest m t.session c.policy (rw q (omega arith)),
          q,
          last_n_cons 499 m y rest fits,
        )
        (record {
          policy = c.policy;
          bound = omega (arith, length-append rest (m ∷ []));
          gone = c.gone ++ y ∷ [];
          split = rw (c.split, q) (simp append_assoc);
          order = Sublist.trans c.order (sublist-append_left c.gone (y ∷ []));
          counted = c.counted;
          failed = c.failed;
          total = omega (arith, c.total, length-append c.gone (y ∷ []));
          failed_once = c.failed_once;
          failed_stops = c.failed_stops;
        })

  step-offer-Accounts : (m : Message F) (t : Trace F) → Accounts t → Accounts (step t (offer m))
  step-offer-Accounts m t c = from_queue t.session.queue refl
    where
      from_queue : (q : List (Message F)) → t.session.queue ≡ q → Accounts (step t (offer m))
      from_queue [] e = offer_room m t (rw e (omega arith)) c
      from_queue (y ∷ rest) e = elim (fills (length rest) (rw e at c.bound)) [
        | inl room ↦ offer_room m t (rw e room) c
        | inr fits ↦ offer_full m y rest t e fits c
      ]

  -- What the writer does with the message at the head of the queue.
  writer_round_cons :
      (ok : Bool) (now : F) (s : ClientSession F) (m : Message F) (rest : List (Message F))
      → s.disconnected ≡ false
      → s.queue ≡ m ∷ rest
      → writer_round ok now s ≡ (
          if ok
          then (after_send now m (record s { queue = rest }), m ∷ [])
          else (record s { queue = rest; disconnected = true }, []))
  unfolding writer_round get_nowait
  writer_round_cons ok now s m rest on q = ground arith

  writer_round_idle :
      (ok : Bool) (now : F) (s : ClientSession F)
      → (s.disconnected ≡ true) ⊎ (s.queue ≡ [])
      → writer_round ok now s ≡ (s, [])
  unfolding writer_round get_nowait
  writer_round_idle ok now s h = ground arith

  -- A sent message is counted, whatever becomes of its latency sample.
  after_send_lem :
      (now : F) (m : Message F) (s : ClientSession F)
      → ((after_send now m s).queue ≡ s.queue)
        × ((after_send now m s).policy ≡ s.policy)
        × ((after_send now m s).stats.sent ≡ s.stats.sent + 1)
        × ((after_send now m s).stats.dropped ≡ s.stats.dropped)
        × (((after_send now m s).disconnected ≡ false) → s.disconnected ≡ false)
  unfolding after_send
  after_send_lem now m s = ground arith

  round_idle :
      (ok : Bool) (now : F) (t : Trace F)
      → (t.session.disconnected ≡ true) ⊎ (t.session.queue ≡ [])
      → Accounts t
      → Accounts (step t (round ok now))
  unfolding step
  round_idle ok now t h c = rw (writer_round_idle ok now t.session h, append-nil t.sent) c

  round_sends :
      (now : F) (t : Trace F) (m : Message F) (rest : List (Message F))
      → t.session.disconnected ≡ false
      → t.session.queue ≡ m ∷ rest
      → Accounts t
      → Accounts (step t (round true now))
  unfolding step
  round_sends now t m rest on q c =
      let (queue, policy, sent, dropped, alive) =
        after_send_lem now m (record t.session { queue = rest }) in
      rw (writer_round_cons true now t.session m rest on q) (record {
        policy = policy ∙ c.policy;
        bound = rw queue (omega (arith, ap length q));
        gone = c.gone ++ m ∷ [];
        split = rw (queue, c.split, q) (simp append_assoc);
        order = Sublist.append c.order (Sublist.refl (m ∷ []));
        counted = omega (arith, length-append t.sent (m ∷ []));
        failed = c.failed;
        total = omega (arith, length-append c.gone (m ∷ []));
        failed_once = c.failed_once;
        failed_stops = λ e. c.failed_stops on;
      })

  round_fails :
      (now : F) (t : Trace F) (m : Message F) (rest : List (Message F))
      → t.session.disconnected ≡ false
      → t.session.queue ≡ m ∷ rest
      → Accounts t
      → Accounts (step t (round false now))
  unfolding step
  round_fails now t m rest on q c =
      rw (writer_round_cons false now t.session m rest on q, append-nil t.sent)
        (record {
          policy = c.policy;
          bound = omega (arith, ap length q);
          gone = c.gone ++ m ∷ [];
          split = rw (c.split, q) (simp append_assoc);
          order = Sublist.trans c.order (sublist-append_left c.gone (m ∷ []));
          counted = c.counted;
          failed = 1;
          total = omega (arith, length-append c.gone (m ∷ []), c.failed_stops on);
          failed_once = omega arith;
          failed_stops = λ e. absurd (ground arith);
        })

  step-round-Accounts :
      (ok : Bool) (now : F) (t : Trace F) → Accounts t → Accounts (step t (round ok now))
  step-round-Accounts ok now t c = elim (Bool-cases t.session.disconnected) [
    | inl off ↦ round_idle ok now t (inl off) c
    | inr on ↦ from_queue ok t.session.queue on refl
  ]
    where
      from_queue :
          (ok : Bool) (q : List (Message F))
          → t.session.disconnected ≡ false
          → t.session.queue ≡ q
          → Accounts (step t (round ok now))
      from_queue ok [] on e = round_idle ok now t (inr e) c
      from_queue true (m ∷ rest) on e = round_sends now t m rest on e c
      from_queue false (m ∷ rest) on e = round_fails now t m rest on e c

  -- From a session whose messages are accounted for, any interleaving of offers and writer rounds
  -- leads to one whose messages are: the queue keeps its bound, what waits is the newest part of
  -- what was offered, what was sent is a subsequence of the rest, each offered message is sent,
  -- dropped or waiting, but for at most one that a failing send took, and then the session is
  -- disconnected.
  pub run-Accounts :
      (t : Trace F) (actions : List (Action F)) → Accounts t → Accounts (run t actions)
  unfolding run
  run-Accounts t [] c = c
  run-Accounts t (offer m ∷ actions) c =
      run-Accounts (step t (offer m)) actions (step-offer-Accounts m t c)
  run-Accounts t (round ok now ∷ actions) c =
      run-Accounts (step t (round ok now)) actions (step-round-Accounts ok now t c)
