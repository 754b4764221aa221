-- ===== src/Gateway/Lifecycle/Covered/Members.antt =====
-- `subscriptions` (src/gateway/gateway.py) keeps symbols that have a session and a wanted channel.
use realtime_market_data_pla.Common.{
  String, ◌≡◌, refl, inl, inr, true, Option, none, some, List, [], ◌∷◌, ◌++◌, arith, All, contains,
  discard, if◌then◌else◌, nat_Key, string_Key, pair_Key, Bool-cases, Option-cases,
}
use realtime_market_data_pla.Gateway.Registry.Cleanup.{leave_missing, leave_last, leave-some}
use realtime_market_data_pla.Gateway.Registry.{leave, leave_all, is_unused, Handle}
use realtime_market_data_pla.Common.Dict.{Dict, get_or, lookup, All-delete, All-insert}
use realtime_market_data_pla.Gateway.Lifecycle.{join}
use realtime_market_data_pla.Gateway.PubSub.{PubSub}
use realtime_market_data_pla.Gateway.Lifecycle.Covered.Channel.{
  HasSome, is_wanted, IsCovered, found-IsCovered,
}

module _ (prefix : String) where
  pub leave-IsCovered :
      (h : Handle) (symbol : String) (p : PubSub) (subs : Dict String (List Handle))
      → All (IsCovered prefix p) subs
      → All (IsCovered prefix p) (leave h symbol subs)
  leave-IsCovered h symbol p subs c = elim (Option-cases (lookup symbol subs)) [
    | inl missing ↦ rw (leave_missing h symbol subs missing) c
    | inr (members, there) ↦ from_left members (discard h members) there refl
  ]
    where
      from_left :
          (members left : List Handle)
          → lookup symbol subs ≡ some members
          → discard h members ≡ left
          → All (IsCovered prefix p) (leave h symbol subs)
      from_left members [] there e =
          rw (leave_last h symbol subs members there e)
            (All-delete (IsCovered prefix p) symbol subs c)
      from_left members (x ∷ rest) there e = rw (leave-some h symbol subs members x rest there e) (
          All-insert (IsCovered prefix p) symbol (x ∷ rest) subs
            (tt, (found-IsCovered prefix symbol p subs members c there).1) c)

  pub leave_all-IsCovered :
      (h : Handle) (symbols : List String) (p : PubSub) (subs : Dict String (List Handle))
      → All (IsCovered prefix p) subs
      → All (IsCovered prefix p) (leave_all h symbols subs)
  unfolding leave_all
  leave_all-IsCovered h [] p subs c = c
  leave_all-IsCovered h (symbol ∷ symbols) p subs c =
      leave_all-IsCovered h symbols p (leave h symbol subs) (leave-IsCovered h symbol p subs c)

  HasSome-append_one : (hs : List Handle) (h : Handle) → HasSome (hs ++ h ∷ [])
  HasSome-append_one [] h = tt
  HasSome-append_one (x ∷ hs) h = tt

  HasSome-add :
      (hs : List Handle) (h : Handle) → HasSome (if contains h hs then hs else hs ++ h ∷ [])
  unfolding contains
  HasSome-add [] h = tt
  HasSome-add (x ∷ hs) h = elim (Bool-cases (contains h (x ∷ hs))) [
    | inl known ↦ rw known tt
    | inr new ↦ rw new tt
  ]

  pub join-IsCovered :
      (h : Handle) (symbol : String) (p : PubSub) (subs : Dict String (List Handle))
      → is_wanted prefix symbol p ≡ true
      → All (IsCovered prefix p) subs
      → All (IsCovered prefix p) (join h symbol subs)
  unfolding join
  join-IsCovered h symbol p subs wanted c =
      let members = get_or (lookup symbol subs) [] in
      All-insert (IsCovered prefix p) symbol
        (if contains h members then members else members ++ h ∷ []) subs
        (HasSome-add members h, wanted) c

  -- A symbol that no session has any more is gone.
  pub unused-none :
      (symbol : String) (p : PubSub) (subs : Dict String (List Handle))
      → All (IsCovered prefix p) subs
      → is_unused (lookup symbol subs) ≡ true
      → lookup symbol subs ≡ none
  unfolding is_unused
  unused-none symbol p subs c h = from_entry (lookup symbol subs) refl
    where
      from_entry :
          (entry : Option (List Handle)) → lookup symbol subs ≡ entry → lookup symbol subs ≡ none
      from_entry none e = e
      from_entry (some []) e = absurd (found-IsCovered prefix symbol p subs [] c e).0
      from_entry (some (x ∷ xs)) e = absurd (ground arith)
