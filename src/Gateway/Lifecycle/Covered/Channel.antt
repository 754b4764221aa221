-- ===== src/Gateway/Lifecycle/Covered/Channel.antt =====
-- Which channels are wanted (src/gateway/gateway.py), and dictionaries of symbols that have theirs.
use realtime_market_data_pla.Common.{
  String, ◌≡◌, ap, inl, inr, Bool, true, not, ◌&&◌, none, some, List, [], ◌∷◌, arith, All, All-map,
  contains, ◌==◌, nat_Key, string_Key, pair_Key, beq_refl, Bool-cases,
}
use realtime_market_data_pla.Gateway.PubSub.{
  subscribe_pubsub_symbol, PubSub, event_channel, unsubscribe_pubsub_symbol,
}
use realtime_market_data_pla.Gateway.PubSub.Channels.{contains-add, contains-discard}
use Prim.Native.String.{◌++◌ as concat}
use text.Mathlib.TextLemmas.{append_cancel_left}
use realtime_market_data_pla.Common.Dict.{lookup, Dict, All-lookup}

event_channel_injective :
    (prefix a b : String) → event_channel prefix a ≡ event_channel prefix b → a ≡ b
unfolding event_channel
event_channel_injective prefix a b h = append_cancel_left (concat prefix "events:") a b h

-- The channel of the symbol is wanted.
abbrev pub is_wanted : String → String → PubSub → Bool
is_wanted prefix symbol p = contains (event_channel prefix symbol) p.active

pub is_wanted-subscribe :
    (prefix k j : String) (ok : Bool) (p : PubSub)
    → is_wanted prefix k p ≡ true
    → is_wanted prefix k (subscribe_pubsub_symbol ok (event_channel prefix j) p).0 ≡ true
unfolding subscribe_pubsub_symbol
is_wanted-subscribe prefix k j ok p h =
    ground (arith, contains-add (event_channel prefix k) (event_channel prefix j) p.active)

pub is_wanted-subscribed :
    (prefix j : String) (ok : Bool) (p : PubSub)
    → is_wanted prefix j (subscribe_pubsub_symbol ok (event_channel prefix j) p).0 ≡ true
unfolding subscribe_pubsub_symbol
is_wanted-subscribed prefix j ok p = ground (
  arith,
  contains-add (event_channel prefix j) (event_channel prefix j) p.active,
  beq_refl {A = String} (event_channel prefix j),
)

pub is_wanted-unsubscribe :
    (prefix k j : String) (ok : Bool) (p : PubSub)
    → is_wanted prefix k (unsubscribe_pubsub_symbol ok (event_channel prefix j) p)
      ≡ (is_wanted prefix k p && not (k == j))
unfolding unsubscribe_pubsub_symbol
is_wanted-unsubscribe prefix k j ok p = elim (Bool-cases (k == j)) [
  | inl same ↦ ground (
    arith,
    contains-discard (event_channel prefix k) (event_channel prefix j) p.active,
    ap (event_channel prefix) ((string_Key.same_iff k j).0 same),
    beq_refl {A = String} (event_channel prefix j),
  )
  | inr other ↦ ground (
    arith,
    contains-discard (event_channel prefix k) (event_channel prefix j) p.active,
    string_Key.same_iff (event_channel prefix k) (event_channel prefix j),
    string_Key.same_iff k j,
    event_channel_injective prefix k j,
  )
]

-- Each symbol of the dictionary has someone, and its channel is wanted.
abbrev pub HasSome : {A : Type 0} → List A → Type 0
HasSome [] = ⊥
HasSome (x ∷ xs) = Unit

module _ {A : Type 0} (prefix : String) where
  abbrev pub IsCovered : PubSub → String × List A → Type 0
  IsCovered p (symbol, members) = HasSome members × (is_wanted prefix symbol p ≡ true)

  pub subscribe-IsCovered :
      (j : String) (ok : Bool) (p : PubSub) (d : Dict String (List A))
      → All (IsCovered p) d
      → All (IsCovered (subscribe_pubsub_symbol ok (event_channel prefix j) p).0) d
  subscribe-IsCovered j ok p d h =
      All-map (λ e c. (c.0, is_wanted-subscribe prefix e.0 j ok p c.1)) d h

  -- The channel of a symbol that is not in the dictionary may go.
  pub unsubscribe-IsCovered :
      (j : String) (ok : Bool) (p : PubSub) (d : Dict String (List A))
      → lookup j d ≡ none
      → All (IsCovered p) d
      → All (IsCovered (unsubscribe_pubsub_symbol ok (event_channel prefix j) p)) d
  unfolding lookup
  unsubscribe-IsCovered j ok p [] absent h = tt
  unsubscribe-IsCovered j ok p ((k, v) ∷ d) absent h = (
    (h.0.0, ground (arith, is_wanted-unsubscribe prefix k j ok p, h.0.1)),
    unsubscribe-IsCovered j ok p d (ground arith) h.1,
  )

  pub found-IsCovered :
      (j : String) (p : PubSub) (d : Dict String (List A)) (members : List A)
      → All (IsCovered p) d
      → lookup j d ≡ some members
      → HasSome members × (is_wanted prefix j p ≡ true)
  found-IsCovered j p d members h at = All-lookup (IsCovered p) j members d h at
