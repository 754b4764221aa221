-- ===== src/Gateway/Lifecycle/Covered/Dropped.antt =====
-- The symbols that `_cleanup` (src/gateway/gateway.py) gives up have no session left.
use realtime_market_data_pla.Common.{
  String, ◌≡◌, refl, inl, inr, none, some, List, [], ◌∷◌, arith, All, All-append, discard,
  if◌then◌else◌, nat_Key, string_Key, pair_Key, Bool-cases, Option-cases,
}
use realtime_market_data_pla.Gateway.Registry.{
  leave, leave_all, is_unused, Handle, cleanup, Registry,
}
use realtime_market_data_pla.Gateway.Registry.Cleanup.{leave_missing, leave_last, leave-some}
use realtime_market_data_pla.Gateway.Lifecycle.{dropped_leaving, dropped_waiting, dropped}
use realtime_market_data_pla.Common.Dict.{Dict, lookup, lookup-delete, lookup-insert, delete}
use realtime_market_data_pla.Gateway.PubSub.{PubSub}
use realtime_market_data_pla.Session.{ClientSession}
use realtime_market_data_pla.Gateway.Lifecycle.Covered.Waits.{Waiting}
use realtime_market_data_pla.Gateway.Lifecycle.Covered.Channel.{IsCovered}
use realtime_market_data_pla.Gateway.Subscribing.{SubscriptionInitialization}
use realtime_market_data_pla.Gateway.Lifecycle.Covered.Members.{leave-IsCovered, unused-none}

-- Nobody joins a symbol when a session leaves one.
leave-none :
    (h : Handle) (j symbol : String) (subs : Dict String (List Handle))
    → lookup j subs ≡ none
    → lookup j (leave h symbol subs) ≡ none
leave-none h j symbol subs absent = elim (Option-cases (lookup symbol subs)) [
  | inl missing ↦ rw (leave_missing h symbol subs missing) absent
  | inr (members, there) ↦ from_left members (discard h members) there refl
]
  where
    from_left :
        (members left : List Handle)
        → lookup symbol subs ≡ some members
        → discard h members ≡ left
        → lookup j (leave h symbol subs) ≡ none
    from_left members [] there e =
        rw (leave_last h symbol subs members there e) (ground (arith, lookup-delete symbol j subs))
    from_left members (x ∷ rest) there e =
        rw (leave-some h symbol subs members x rest there e)
          (ground (arith, lookup-insert symbol j (x ∷ rest) subs, string_Key.same_iff symbol j))

leave_all-none :
    (h : Handle) (j : String) (symbols : List String) (subs : Dict String (List Handle))
    → lookup j subs ≡ none
    → lookup j (leave_all h symbols subs) ≡ none
unfolding leave_all
leave_all-none h j [] subs absent = absent
leave_all-none h j (symbol ∷ symbols) subs absent =
    leave_all-none h j symbols (leave h symbol subs) (leave-none h j symbol subs absent)

-- The symbol has no session.
abbrev pub IsLeft : Dict String (List Handle) → String → Type 0
IsLeft subs j = lookup j subs ≡ none

module _ (prefix : String) where
  dropped_leaving-IsLeft :
      (h : Handle) (symbols : List String) (p : PubSub) (subs : Dict String (List Handle))
      → All (IsCovered prefix p) subs
      → All (IsLeft (leave_all h symbols subs)) (dropped_leaving h symbols subs)
  unfolding dropped_leaving leave_all
  dropped_leaving-IsLeft h [] p subs c = tt
  dropped_leaving-IsLeft h (symbol ∷ symbols) p subs c =
      let left = leave h symbol subs in
      let c' = leave-IsCovered prefix h symbol p subs c in
      let others = dropped_leaving-IsLeft h symbols p left c' in
      elim (Bool-cases (is_unused (lookup symbol left))) [
        | inr used ↦ rw used others
        | inl unused ↦ rw unused (
          leave_all-none h symbol symbols left (unused-none prefix symbol p left c' unused),
          others,
        )
      ]

module _ {F : Type 0} (prefix : String) where
  dropped_waiting-IsLeft :
      (h : Handle) (symbols : List String) (p : PubSub) (subs : Dict String (List Handle))
      (initializing : Waiting F)
      → All (IsCovered prefix p) subs
      → All (IsLeft (leave_all h symbols subs)) (dropped_waiting h subs initializing)
  unfolding dropped_waiting
  dropped_waiting-IsLeft h symbols p subs [] c = tt
  dropped_waiting-IsLeft h symbols p subs ((symbol, waiting) ∷ rest) c =
      from_left (delete h waiting) (dropped_waiting-IsLeft h symbols p subs rest c)
    where
      from_left :
          (left : Dict Handle (SubscriptionInitialization F))
          → All (IsLeft (leave_all h symbols subs)) (dropped_waiting h subs rest)
          → All (IsLeft (leave_all h symbols subs)) (elim left [
            | [] ↦
                if is_unused (lookup symbol subs)
                then symbol ∷ dropped_waiting h subs rest
                else dropped_waiting h subs rest
            | w ∷ ws ↦ dropped_waiting h subs rest
          ])
      from_left (w ∷ ws) others = others
      from_left [] others = elim (Bool-cases (is_unused (lookup symbol subs))) [
        | inr used ↦ rw used others
        | inl unused ↦ rw unused (
          leave_all-none h symbol symbols subs (unused-none prefix symbol p subs c unused),
          others,
        )
      ]

  -- What `_cleanup` gives up has no session behind it.
  pub dropped-IsLeft :
      (h : Handle) (s : ClientSession F) (p : PubSub) (r : Registry F)
      → lookup h r.sessions ≡ some s
      → All (IsCovered prefix p) r.subscriptions
      → All (IsLeft (cleanup h r).subscriptions) (dropped h r)
  unfolding dropped cleanup
  dropped-IsLeft h s p r here c =
      rw (here, cleanup, dropped)
        (All-append (IsLeft (leave_all h s.subscriptions r.subscriptions))
          (dropped_waiting h r.subscriptions r.initializing)
          (dropped_leaving h s.subscriptions r.subscriptions)
          (dropped_waiting-IsLeft h s.subscriptions p r.subscriptions r.initializing c)
          (dropped_leaving-IsLeft prefix h s.subscriptions p r.subscriptions c))
