-- ===== src/Gateway/PubSub/Channels.antt =====
-- What the channel sets of src/gateway/gateway.py keep, whatever the order of subscriptions and
-- connections.
use realtime_market_data_pla.Common.{
  contains-append_one, discard, ℕ, zero, suc, String, ◌≡◌, refl, sym, ◌⊎◌, inl, inr, Bool, true,
  false, not, ◌&&◌, ◌||◌, List, [], ◌∷◌, arith, contains, if◌then◌else◌, ◌==◌, nat_Key, string_Key,
  pair_Key, beq_refl, Bool-cases,
}
use realtime_market_data_pla.Gateway.PubSub.{
  PubSub, is_filled, add, subscribe_pubsub_symbol, demand_channel, unsubscribe_pubsub_symbol,
  connect, disconnect, subscribe_desired_channels, ensure_attempts, ensure_pubsub_subscription,
}

pub contains-add :
    (d c : String) (xs : List String) → contains d (add c xs) ≡ (contains d xs || (d == c))
unfolding add
contains-add d c xs = ground (arith, contains-append_one d c xs, string_Key.same_iff d c)

pub contains-discard :
    (d c : String) (xs : List String) → contains d (discard c xs) ≡ (not (d == c) && contains d xs)
unfolding discard contains
contains-discard d c [] = ground arith
contains-discard d c (x ∷ xs) = ground (
  arith,
  contains-discard d c xs,
  string_Key.same_iff d c,
  string_Key.same_iff c x,
  string_Key.same_iff d x,
)

-- Every channel of the first set is in the second.
abbrev pub Within : List String → List String → Type 0
Within xs ys = (c : String) → contains c xs ≡ true → contains c ys ≡ true

-- The channels wanted are known by `channel_demand`; a confirmed channel is wanted, and Redis sends
-- it; and nothing is confirmed without a connection.
pub record IsConsistent (p : PubSub) : Type 0 where
  pub demanded : p.demand ≡ is_filled p.active
  pub wanted : Within p.confirmed p.active
  pub sent : Within p.confirmed p.subscribed
  pub offline : p.connected ≡ false → p.confirmed ≡ []

-- The blocks that run under `pubsub_lock`.
pub data Block : Type 0 where
  subscribes : Bool → String → Block
  unsubscribes : Bool → String → Block
  connects : Bool → Block
  disconnects : Block

unfoldable pub block : Block → PubSub → PubSub
block (subscribes ok c) p = (subscribe_pubsub_symbol ok c p).0
block (unsubscribes ok c) p = unsubscribe_pubsub_symbol ok c p
block (connects ok) p = connect ok p
block disconnects p = disconnect p

unfoldable pub blocks : List Block → PubSub → PubSub
blocks [] p = p
blocks (b ∷ bs) p = blocks bs (block b p)

is_filled-add : (c : String) (xs : List String) → is_filled (add c xs) ≡ true
unfolding is_filled add
is_filled-add c [] = ground arith
is_filled-add c (x ∷ xs) = ground arith

demand-IsConsistent : (c : String) (p : PubSub) → IsConsistent p → IsConsistent (demand_channel c p)
demand-IsConsistent c p v = record {
  demanded = sym (is_filled-add c p.active);
  wanted = λ d h. ground (arith, contains-add d c p.active, v.wanted d h);
  sent = v.sent;
  offline = v.offline;
}

confirm-IsConsistent :
    (c : String) (p : PubSub)
    → p.connected ≡ true
    → IsConsistent p
    → IsConsistent (record (demand_channel c p) {
      confirmed = add c p.confirmed;
      subscribed = add c p.subscribed;
    })
confirm-IsConsistent c p on v = record {
  demanded = sym (is_filled-add c p.active);
  wanted =
      λ d h. ground (arith, contains-add d c p.active, contains-add d c p.confirmed, v.wanted d);
  sent =
      λ d h. ground (arith, contains-add d c p.subscribed, contains-add d c p.confirmed, v.sent d);
  offline = λ off. absurd (ground arith);
}

subscribe_unconfirmed :
    (ok : Bool) (c : String) (p : PubSub)
    → (contains c p.confirmed ≡ true) ⊎ (p.connected && ok ≡ false)
    → (subscribe_pubsub_symbol ok c p).0 ≡ demand_channel c p
unfolding subscribe_pubsub_symbol
subscribe_unconfirmed ok c p h = ground arith

subscribe_confirmed :
    (c : String) (p : PubSub)
    → contains c p.confirmed ≡ false
    → p.connected ≡ true
    → (subscribe_pubsub_symbol true c p).0 ≡ record (demand_channel c p) {
      confirmed = add c p.confirmed;
      subscribed = add c p.subscribed;
    }
unfolding subscribe_pubsub_symbol
subscribe_confirmed c p new on = ground arith

subscribe-IsConsistent :
    (ok : Bool) (c : String) (p : PubSub)
    → IsConsistent p
    → IsConsistent (subscribe_pubsub_symbol ok c p).0
subscribe-IsConsistent false c p v =
    rw (subscribe_unconfirmed false c p (inr (ground arith))) (demand-IsConsistent c p v)
subscribe-IsConsistent true c p v = elim (Bool-cases (contains c p.confirmed)) [
  | inl known ↦ rw (subscribe_unconfirmed true c p (inl known)) (demand-IsConsistent c p v)
  | inr new ↦ elim (Bool-cases p.connected) [
    | inr off ↦ rw (subscribe_unconfirmed true c p (inr (ground arith))) (demand-IsConsistent c p v)
    | inl on ↦ rw (subscribe_confirmed c p new on) (confirm-IsConsistent c p on v)
  ]
]

Within-discard :
    (c : String) (xs ys : List String) → Within xs ys → Within (discard c xs) (discard c ys)
Within-discard c xs ys h d e = ground (arith, contains-discard d c xs, contains-discard d c ys, h d)

Within-discard_left : (c : String) (xs ys : List String) → Within xs ys → Within (discard c xs) ys
Within-discard_left c xs ys h d e = ground (arith, contains-discard d c xs, h d)

discard_empty : (c : String) (xs : List String) → xs ≡ [] → discard c xs ≡ []
unfolding discard
discard_empty c [] h = refl
discard_empty c (x ∷ xs) h = absurd (ground arith)

unsubscribe_absent :
    (ok : Bool) (c : String) (p : PubSub)
    → contains c p.active ≡ false
    → unsubscribe_pubsub_symbol ok c p ≡ p
unfolding unsubscribe_pubsub_symbol
unsubscribe_absent ok c p h = ground arith

unsubscribe_present :
    (ok : Bool) (c : String) (p : PubSub)
    → contains c p.active ≡ true
    → unsubscribe_pubsub_symbol ok c p ≡ record p {
      active = discard c p.active;
      confirmed = discard c p.confirmed;
      demand = p.demand && is_filled (discard c p.active);
      subscribed = if p.connected && ok then discard c p.subscribed else p.subscribed;
    }
unfolding unsubscribe_pubsub_symbol
unsubscribe_present ok c p h = ground arith

contains-is_filled : (c : String) (xs : List String) → contains c xs ≡ true → is_filled xs ≡ true
unfolding contains is_filled
contains-is_filled c [] h = h
contains-is_filled c (x ∷ xs) h = refl

Within-if :
    (b : Bool) (xs ys zs : List String)
    → Within xs ys
    → Within xs zs
    → Within xs (if b then ys else zs)
Within-if true xs ys zs h k = h
Within-if false xs ys zs h k = k

unsubscribe-IsConsistent :
    (ok : Bool) (c : String) (p : PubSub)
    → IsConsistent p
    → IsConsistent (unsubscribe_pubsub_symbol ok c p)
unsubscribe-IsConsistent ok c p v = elim (Bool-cases (contains c p.active)) [
  | inr absent ↦ rw (unsubscribe_absent ok c p absent) v
  | inl present ↦ rw (unsubscribe_present ok c p present) (record {
    demanded = rw (v.demanded, contains-is_filled c p.active present) refl;
    wanted = Within-discard c p.confirmed p.active v.wanted;
    sent =
        Within-if (p.connected && ok) (discard c p.confirmed) (discard c p.subscribed) p.subscribed
          (Within-discard c p.confirmed p.subscribed v.sent)
          (Within-discard_left c p.confirmed p.subscribed v.sent);
    offline = λ off. discard_empty c p.confirmed (v.offline off);
  })
]

connect-IsConsistent : (ok : Bool) (p : PubSub) → IsConsistent p → IsConsistent (connect ok p)
unfolding connect subscribe_desired_channels contains
connect-IsConsistent true p v = record {
  demanded = v.demanded;
  wanted = λ c h. h;
  sent = λ c h. h;
  offline = λ off. absurd (ground arith);
}
connect-IsConsistent false p v = record {
  demanded = v.demanded;
  wanted = λ c h. absurd (ground arith);
  sent = λ c h. absurd (ground arith);
  offline = λ off. refl;
}

disconnect-IsConsistent : (p : PubSub) → IsConsistent p → IsConsistent (disconnect p)
unfolding disconnect contains
disconnect-IsConsistent p v = record {
  demanded = v.demanded;
  wanted = λ c h. absurd (ground arith);
  sent = λ c h. absurd (ground arith);
  offline = λ off. refl;
}

-- From consistent channel sets, any sequence of subscriptions, unsubscriptions, new connections
-- and lost ones, whatever Redis answers, leads to consistent ones: the demand flag says whether a
-- channel is wanted, every confirmed channel is wanted and sent by Redis, and without a connection
-- none is confirmed.
pub blocks-IsConsistent :
    (bs : List Block) (p : PubSub) → IsConsistent p → IsConsistent (blocks bs p)
unfolding blocks block
blocks-IsConsistent [] p v = v
blocks-IsConsistent (subscribes ok c ∷ bs) p v =
    blocks-IsConsistent bs (block (subscribes ok c) p) (subscribe-IsConsistent ok c p v)
blocks-IsConsistent (unsubscribes ok c ∷ bs) p v =
    blocks-IsConsistent bs (block (unsubscribes ok c) p) (unsubscribe-IsConsistent ok c p v)
blocks-IsConsistent (connects ok ∷ bs) p v =
    blocks-IsConsistent bs (block (connects ok) p) (connect-IsConsistent ok p v)
blocks-IsConsistent (disconnects ∷ bs) p v =
    blocks-IsConsistent bs (block disconnects p) (disconnect-IsConsistent p v)

subscribe-Confirmed :
    (ok : Bool) (c : String) (p : PubSub)
    → (subscribe_pubsub_symbol ok c p).1 ≡ true
    → contains c (subscribe_pubsub_symbol ok c p).0.confirmed ≡ true
unfolding subscribe_pubsub_symbol
subscribe-Confirmed ok c p h = ground (arith, contains-add c c p.confirmed, beq_refl {A = String} c)

ensure_attempts-Confirmed :
    (k : ℕ) (ok : ℕ → Bool) (meanwhile : ℕ → PubSub → PubSub) (c : String) (p : PubSub)
    → (ensure_attempts k ok meanwhile c p).1 ≡ true
    → contains c (ensure_attempts k ok meanwhile c p).0.confirmed ≡ true
unfolding ensure_attempts
ensure_attempts-Confirmed zero ok meanwhile c p h = absurd (ground arith)
ensure_attempts-Confirmed (suc k) ok meanwhile c p h =
    elim (Bool-cases (subscribe_pubsub_symbol (ok k) c p).1) [
      | inl taken ↦ rw taken (subscribe-Confirmed (ok k) c p taken)
      | inr failed ↦ rw failed (
          ensure_attempts-Confirmed k ok meanwhile c
            (meanwhile k (subscribe_pubsub_symbol (ok k) c p).0) (rw failed at h))
    ]

-- If `_ensure_pubsub_subscription` returns true, the channel is confirmed at that moment, whatever
-- Redis answered and other tasks did in its pauses.
pub ensure_pubsub_subscription-Confirmed :
    (ok : ℕ → Bool) (meanwhile : ℕ → PubSub → PubSub) (c : String) (p : PubSub)
    → (ensure_pubsub_subscription ok meanwhile c p).1 ≡ true
    → contains c (ensure_pubsub_subscription ok meanwhile c p).0.confirmed ≡ true
unfolding ensure_pubsub_subscription
ensure_pubsub_subscription-Confirmed ok meanwhile c p h =
    ensure_attempts-Confirmed 5 ok meanwhile c p h
