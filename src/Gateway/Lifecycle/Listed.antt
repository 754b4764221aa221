-- ===== src/Gateway/Lifecycle/Listed.antt =====
-- A session knows every symbol that it is registered for (src/gateway/gateway.py), so that its
-- cleanup takes it out everywhere.
use realtime_market_data_pla.Common.{
  contains-append_one, ◌+◌, String, ◌≡◌, refl, ◌∙◌, inl, inr, Bool, true, false, ◌||◌, Option, none,
  some, List, [], ◌∷◌, arith, contains, if◌then◌else◌, ◌==◌, nat_Key, string_Key, pair_Key,
  Bool-cases, Option-cases,
}
use realtime_market_data_pla.Gateway.PubSub.Channels.{contains-discard}
use realtime_market_data_pla.Gateway.Registry.{
  unsubscribe, cleanup, forget, update_session, push_each, Handle, Registry,
}
use realtime_market_data_pla.Gateway.Registry.Cleanup.{
  is_subscriber, is_subscriber-leave, is_subscriber-leave_all,
}
use realtime_market_data_pla.Session.{
  ClientSession, close, enqueue, replace_oldest, signal_slow, SubscriptionFilter,
}
use realtime_market_data_pla.Gateway.Lifecycle.{join, answer_subscribe, fresh_gateway}
use realtime_market_data_pla.Gateway.Subscribing.{
  add_symbol, finish_subscribe, refuse, SubscriptionInitialization, failure_text, send_snapshot,
  register, Subscribed,
}
use realtime_market_data_pla.Models.{Message, field, str, end, SnapshotData, MarketEvent}
use realtime_market_data_pla.Common.Dict.{Dict, lookup, get_or, lookup-insert, insert}
use realtime_market_data_pla.Gateway.Dispatch.{
  Fetch, fetched, failed, seed_snapshot, snapshot_message,
}
use realtime_market_data_pla.Aggregator.{push}
use realtime_market_data_pla.Gateway.Lifecycle.Joined.{is_subscriber-join}

contains-add_symbol :
    (j symbol : String) (xs : List String)
    → contains j (add_symbol symbol xs) ≡ (contains j xs || (j == symbol))
unfolding add_symbol
contains-add_symbol j symbol xs =
    ground (arith, contains-append_one j symbol xs, string_Key.same_iff j symbol)

module _ {F : Type 0} where
  -- The session has the symbol in its own set.
  abbrev pub lists : Handle → String → Dict Handle (ClientSession F) → Bool
  lists h j sessions = elim (lookup h sessions) [
    | none ↦ false
    | some s ↦ contains j s.subscriptions
  ]

  -- Every session that is registered for a symbol has it in its own set.
  abbrev pub IsListed : Registry F → Type 0
  IsListed r =
      (h : Handle) (j : String)
      → is_subscriber h j r.subscriptions ≡ true
      → lists h j r.sessions ≡ true

  lists-update_session :
      (g h : Handle) (j : String) (change : ClientSession F → ClientSession F)
      (sessions : Dict Handle (ClientSession F))
      → ((s : ClientSession F)
          → contains j s.subscriptions ≡ true
          → (h == g) ≡ true
          → contains j (change s).subscriptions ≡ true)
      → lists g j sessions ≡ true
      → lists g j (update_session h change sessions) ≡ true
  unfolding update_session
  lists-update_session g h j change sessions keeps listed = from_entry (lookup h sessions) refl
    where
      from_entry :
          (entry : Option (ClientSession F))
          → lookup h sessions ≡ entry
          → lists g j (elim entry [ none ↦ sessions | some s ↦ insert h (change s) sessions ])
            ≡ true
      from_entry none e = listed
      from_entry (some s) e =
          ground (arith, lookup-insert h g (change s) sessions, nat_Key.same_iff h g, keeps s)

  enqueue-subscriptions :
      (m : Message F) (s : ClientSession F) → (enqueue m s).0.subscriptions ≡ s.subscriptions
  unfolding enqueue replace_oldest signal_slow
  enqueue-subscriptions m s = ground arith

  send-subscriptions :
      (symbol : String) (f : Option (SubscriptionFilter F)) (snapshot : Option (SnapshotData F))
      (i : SubscriptionInitialization F) (s : ClientSession F)
      → (send_snapshot symbol f snapshot i s).session.subscriptions ≡ (
          if (send_snapshot symbol f snapshot i s).registered
          then add_symbol symbol s.subscriptions
          else s.subscriptions)
  unfolding send_snapshot refuse register seed_snapshot
  send-subscriptions symbol f none i s = refl
  send-subscriptions symbol f (some d) i s =
      let s' = (enqueue (snapshot_message d) s).0 in
      elim (Bool-cases (enqueue (snapshot_message d) s).1) [
        | inl taken ↦ rw (taken, enqueue-subscriptions (snapshot_message d) s) refl
        | inr full ↦ rw full (
            enqueue-subscriptions (field "error" (str (failure_text symbol)) end) s'
            ∙ enqueue-subscriptions (snapshot_message d) s)
      ]

  finish-subscriptions :
      (symbol : String) (f : Option (SubscriptionFilter F)) (fetch : Fetch F)
      (i : Option (SubscriptionInitialization F)) (s : ClientSession F)
      → (finish_subscribe symbol f fetch i s).session.subscriptions ≡ (
          if (finish_subscribe symbol f fetch i s).registered
          then add_symbol symbol s.subscriptions
          else s.subscriptions)
  unfolding finish_subscribe refuse
  finish-subscriptions symbol f failed i s =
      enqueue-subscriptions (field "error" (str (failure_text symbol)) end) s
  finish-subscriptions symbol f (fetched snapshot) none s =
      enqueue-subscriptions (field "error" (str (failure_text symbol)) end) s
  finish-subscriptions symbol f (fetched snapshot) (some i) s = elim (Bool-cases i.overflowed) [
    | inl over ↦ rw over (enqueue-subscriptions (field "error" (str (failure_text symbol)) end) s)
    | inr fits ↦ ground (arith, send-subscriptions symbol f snapshot i s)
  ]

  pub answer-IsListed :
      (h : Handle) (symbol : String) (f : Option (SubscriptionFilter F)) (fetch : Fetch F)
      (s : ClientSession F) (r : Registry F)
      → lookup h r.sessions ≡ some s
      → IsListed r
      → IsListed (answer_subscribe h symbol f fetch s r)
  unfolding answer_subscribe
  answer-IsListed h symbol f fetch s r here v g j =
      from_done
        (finish_subscribe symbol f fetch (lookup h (get_or (lookup symbol r.initializing) [])) s)
        (finish-subscriptions symbol f fetch (lookup h (get_or (lookup symbol r.initializing) []))
          s)
    where
      from_done :
          (done : Subscribed F)
          → done.session.subscriptions
            ≡ (if done.registered then add_symbol symbol s.subscriptions else s.subscriptions)
          → is_subscriber g j
              (if done.registered then join h symbol r.subscriptions else r.subscriptions)
            ≡ true
          → lists g j (insert h done.session r.sessions) ≡ true
      from_done done e registered = ground (
        arith,
        v g j,
        lookup-insert h g done.session r.sessions,
        is_subscriber-join g h j symbol r.subscriptions,
        contains-add_symbol j symbol s.subscriptions,
        nat_Key.same_iff h g,
        nat_Key.same_iff g h,
        string_Key.same_iff symbol j,
        string_Key.same_iff j symbol,
      )

  pub unsubscribe-IsListed :
      (h : Handle) (symbol : String) (r : Registry F)
      → IsListed r
      → IsListed (unsubscribe h symbol r).0
  unfolding unsubscribe forget
  unsubscribe-IsListed h symbol r v g j registered =
      lists-update_session g h j (forget symbol) r.sessions
        (λ s has same. ground (
          arith,
          registered,
          is_subscriber-leave g h j symbol r.subscriptions,
          contains-discard j symbol s.subscriptions,
          string_Key.same_iff symbol j,
          string_Key.same_iff j symbol,
        ))
        (ground (arith, v g j, registered, is_subscriber-leave g h j symbol r.subscriptions))

  pub cleanup-IsListed : (h : Handle) (r : Registry F) → IsListed r → IsListed (cleanup h r)
  unfolding cleanup close
  cleanup-IsListed h r v = elim (Option-cases (lookup h r.sessions)) [
    | inl unknown ↦ rw (unknown, cleanup) v
    | inr (s, here) ↦
        rw (here, cleanup)
          (λ g j registered. ground (
            arith,
            v g j,
            registered,
            is_subscriber-leave_all g h j s.subscriptions r.subscriptions,
            lookup-insert h g (close s) r.sessions,
            nat_Key.same_iff h g,
          ))
  ]

  pub push_each-IsListed :
      (event : MarketEvent F) (hs : List Handle) (r : Registry F)
      → IsListed r
      → IsListed (push_each event hs r)
  unfolding push_each
  push_each-IsListed event [] r v = v
  push_each-IsListed event (h ∷ hs) r v =
      push_each-IsListed event hs
        (record r {
          sessions =
              update_session h (λ s. record s { aggregator = push event s.aggregator }) r.sessions;
          dispatched = r.dispatched + 1;
        })
        (λ g j registered.
          lists-update_session g h j (λ s. record s { aggregator = push event s.aggregator })
            r.sessions (λ s has same. has) (v g j registered))

  pub open-IsListed :
      (h : Handle) (s : ClientSession F) (r : Registry F)
      → lookup h r.sessions ≡ none
      → IsListed r
      → IsListed (record r { sessions = insert h s r.sessions })
  open-IsListed h s r new v g j registered =
      ground (arith, v g j registered, lookup-insert h g s r.sessions, nat_Key.same_iff h g)

  pub reply-IsListed :
      (h : Handle) (message : Message F) (r : Registry F)
      → IsListed r
      → IsListed (record r { sessions = update_session h (λ s. (enqueue message s).0) r.sessions })
  reply-IsListed h message r v g j registered =
      lists-update_session g h j (λ s. (enqueue message s).0) r.sessions
        (λ s has same. rw (enqueue-subscriptions message s) has) (v g j registered)

pub fresh-IsListed : (F : Type 0) → IsListed (fresh_gateway {F = F}).registry
unfolding fresh_gateway contains lookup
fresh-IsListed F h j registered = absurd (ground arith)
