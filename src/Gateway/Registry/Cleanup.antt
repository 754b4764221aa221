-- ===== src/Gateway/Registry/Cleanup.antt =====
-- What `_cleanup` (src/gateway/gateway.py) leaves of a session in the registry.
use realtime_market_data_pla.Common.{
  String, ◌≡◌, refl, subst, inl, inr, Bool, true, false, not, ◌&&◌, none, some, List, [], ◌∷◌,
  arith, All, contains, discard, ◌==◌, nat_Key, string_Key, pair_Key, beq_refl, Option-cases,
}
use realtime_market_data_pla.Gateway.Registry.{
  leave_all, leave, cleanup, Handle, stop_initializing, Registry,
}
use realtime_market_data_pla.Session.{ClientSession}
use realtime_market_data_pla.Common.Dict.{
  Dict, lookup, get_or, lookup-delete, delete, insert, lookup-insert,
}
use realtime_market_data_pla.Gateway.Subscribing.{SubscriptionInitialization}

-- `contains` on the subscribers of a symbol.
abbrev pub is_subscriber : Handle → String → Dict String (List Handle) → Bool
is_subscriber g symbol subscriptions = contains g (get_or (lookup symbol subscriptions) [])

discard-contains :
    (g h : Handle) (hs : List Handle) → contains g (discard h hs) ≡ (not (h == g) && contains g hs)
unfolding discard contains
discard-contains g h [] = ground arith
discard-contains g h (x ∷ xs) = ground (
  arith,
  discard-contains g h xs,
  nat_Key.same_iff h g,
  nat_Key.same_iff h x,
  nat_Key.same_iff g x,
)

pub leave_missing :
    (h : Handle) (symbol : String) (subs : Dict String (List Handle))
    → lookup symbol subs ≡ none
    → leave h symbol subs ≡ subs
unfolding leave
leave_missing h symbol subs e = ground arith

pub leave_last :
    (h : Handle) (symbol : String) (subs : Dict String (List Handle)) (members : List Handle)
    → lookup symbol subs ≡ some members
    → discard h members ≡ []
    → leave h symbol subs ≡ delete symbol subs
unfolding leave
leave_last h symbol subs members e e' = rw (e, e', leave) refl

pub leave-some :
    (h : Handle) (symbol : String) (subs : Dict String (List Handle)) (members : List Handle)
    (x : Handle) (rest : List Handle)
    → lookup symbol subs ≡ some members
    → discard h members ≡ x ∷ rest
    → leave h symbol subs ≡ insert symbol (x ∷ rest) subs
unfolding leave
leave-some h symbol subs members x rest e e' = rw (e, e', leave) refl

-- A session that leaves a symbol is the only one that does, and leaves no other.
pub is_subscriber-leave :
    (g h : Handle) (j symbol : String) (subs : Dict String (List Handle))
    → is_subscriber g j (leave h symbol subs)
      ≡ (not (symbol == j && h == g) && is_subscriber g j subs)
unfolding contains
is_subscriber-leave g h j symbol subs = elim (Option-cases (lookup symbol subs)) [
  | inl missing ↦
      rw (leave_missing h symbol subs missing) (ground (arith, string_Key.same_iff symbol j))
  | inr (members, there) ↦ from_members members (discard h members) there refl
]
  where
    from_members :
        (members left : List Handle)
        → lookup symbol subs ≡ some members
        → discard h members ≡ left
        → is_subscriber g j (leave h symbol subs)
          ≡ (not (symbol == j && h == g) && is_subscriber g j subs)
    from_members members [] there e = rw (leave_last h symbol subs members there e) (
        ground (
          arith,
          lookup-delete symbol j subs,
          string_Key.same_iff symbol j,
          discard-contains g h members,
        ))
    from_members members (x ∷ rest) there e = rw (leave-some h symbol subs members x rest there e) (
        ground (
          arith,
          lookup-insert symbol j (x ∷ rest) subs,
          string_Key.same_iff symbol j,
          discard-contains g h members,
        ))

pub is_subscriber-leave_all :
    (g h : Handle) (j : String) (symbols : List String) (subs : Dict String (List Handle))
    → is_subscriber g j (leave_all h symbols subs)
      ≡ (not (contains j symbols && h == g) && is_subscriber g j subs)
unfolding leave_all contains
is_subscriber-leave_all g h j [] subs = refl
is_subscriber-leave_all g h j (symbol ∷ symbols) subs = ground (
  arith,
  is_subscriber-leave_all g h j symbols (leave h symbol subs),
  is_subscriber-leave g h j symbol subs,
  string_Key.same_iff symbol j,
  string_Key.same_iff j symbol,
)

module _ {F : Type 0} where
  -- The session waits in no initialization.
  abbrev pub WaitsNowhere :
      Handle → Dict String (Dict Handle (SubscriptionInitialization F)) → Type 0
  WaitsNowhere h = All (λ e. lookup h e.1 ≡ none)

  stop_initializing-WaitsNowhere :
      (h : Handle) (initializing : Dict String (Dict Handle (SubscriptionInitialization F)))
      → WaitsNowhere h (stop_initializing h initializing)
  unfolding stop_initializing
  stop_initializing-WaitsNowhere h [] = tt
  stop_initializing-WaitsNowhere h ((symbol, waiting) ∷ rest) =
      from_left (delete h waiting) refl (stop_initializing-WaitsNowhere h rest)
    where
      gone : lookup h (delete h waiting) ≡ none
      gone = ground (arith, lookup-delete h h waiting, beq_refl {A = Handle} h)

      from_left :
          (left : Dict Handle (SubscriptionInitialization F))
          → delete h waiting ≡ left
          → WaitsNowhere h (stop_initializing h rest)
          → WaitsNowhere h (elim left [
            | [] ↦ stop_initializing h rest
            | w ∷ ws ↦ (symbol, w ∷ ws) ∷ stop_initializing h rest
          ])
      from_left [] e others = others
      from_left (w ∷ ws) e others = (subst (λ d. lookup h d ≡ none) e gone, others)

  -- If a session's own set has every symbol that it is a subscriber of, then after its cleanup it
  -- subscribes to no symbol and waits in no initialization, and every other session subscribes to
  -- what it did before.
  pub cleanup-Gone :
      (h : Handle) (s : ClientSession F) (r : Registry F)
      → lookup h r.sessions ≡ some s
      → ((j : String)
          → is_subscriber h j r.subscriptions ≡ true
          → contains j s.subscriptions ≡ true)
      → ((j : String) → is_subscriber h j (cleanup h r).subscriptions ≡ false)
        × WaitsNowhere h (cleanup h r).initializing
        × ((g : Handle) (j : String)
            → (h == g) ≡ false
            → is_subscriber g j (cleanup h r).subscriptions ≡ is_subscriber g j r.subscriptions)
  unfolding cleanup
  cleanup-Gone h s r here listed =
      rw (here, cleanup)
        (
          λ j. ground (
            arith,
            is_subscriber-leave_all h h j s.subscriptions r.subscriptions,
            beq_refl {A = Handle} h,
            listed j,
          ),
          stop_initializing-WaitsNowhere h r.initializing,
          λ g j other.
              ground (arith, is_subscriber-leave_all g h j s.subscriptions r.subscriptions),
        )
