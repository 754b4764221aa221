-- ===== src/Gateway/PubSub.antt =====
-- The Redis Pub/Sub channels of the gateway (src/gateway/gateway.py): `active_channels`,
-- `confirmed_channels`, `channel_demand` and `redis_pubsub`, all under `pubsub_lock`.
pub mod Channels
use realtime_market_data_pla.Common.{
  discard, ℕ, zero, suc, ◌+◌, ◌-◌, ◌*◌, ◌/◌, ◌%◌, ◌≤◌, ◌<◌, min, max, String, ◌≡◌, refl, sym, ap,
  ap₂, subst, ◌∙◌, ◌≢◌, ◌↔◌, ◌⊎◌, inl, inr, Bool, true, false, not, ◌&&◌, ◌||◌, Option, none, some,
  List, [], ◌∷◌, ◌++◌, map, append-nil, append_assoc, arith, dec_lt, length, drop, take, last_n,
  length-append, All, All-append, All-map, contains, ltb, leb, if◌then◌else◌, Key, ◌==◌, nat_Key,
  string_Key, pair_Key, beq_refl, Bool-cases, Option-cases,
}
use Prim.Native.String.{◌++◌ as concat}

-- `subscribed` is what Redis sends to this connection.
pub record PubSub : Type 0 where
  pub active : List String
  pub confirmed : List String
  pub demand : Bool
  pub connected : Bool
  pub subscribed : List String

unfoldable pub init : PubSub
init = record { active = []; confirmed = []; demand = false; connected = false; subscribed = [] }

-- `SnapshotStore.event_channel`
unfoldable pub event_channel : String → String → String
event_channel prefix symbol = concat (concat prefix "events:") symbol

-- `channels.add(c)`
unfoldable pub add : String → List String → List String
unfolding contains
add c channels = if contains c channels then channels else channels ++ c ∷ []

-- `bool(channels)`
unfoldable pub is_filled : List String → Bool
is_filled [] = false
is_filled (c ∷ channels) = true

-- `active_channels.add(channel)`, `channel_demand.set()`
abbrev pub demand_channel : String → PubSub → PubSub
demand_channel c p = record p { active = add c p.active; demand = true }

-- `_subscribe_pubsub_symbol`, with whether Redis takes the subscription, if it is asked
unfoldable pub subscribe_pubsub_symbol : Bool → String → PubSub → PubSub × Bool
unfolding contains add
subscribe_pubsub_symbol ok c p =
    if contains c p.confirmed
    then (demand_channel c p, true)
    else if not p.connected
    then (demand_channel c p, false)
    else if ok
    then (
      record (demand_channel c p) {
        confirmed = add c p.confirmed;
        subscribed = add c p.subscribed;
      },
      true,
    )
    else (demand_channel c p, false)

-- `_ensure_pubsub_subscription` with `k` attempts left: what Redis answers in each, and what other
-- tasks do in the pause behind it.
unfoldable pub ensure_attempts :
    ℕ → (ℕ → Bool) → (ℕ → PubSub → PubSub) → String → PubSub → PubSub × Bool
unfolding subscribe_pubsub_symbol
ensure_attempts zero ok meanwhile c p = (p, false)
ensure_attempts (suc k) ok meanwhile c p =
    let (p', taken) = subscribe_pubsub_symbol (ok k) c p in
    let later = ensure_attempts k ok meanwhile c (meanwhile k p') in
    if taken then (p', true) else later

unfoldable pub ensure_pubsub_subscription :
    (ℕ → Bool) → (ℕ → PubSub → PubSub) → String → PubSub → PubSub × Bool
unfolding ensure_attempts
ensure_pubsub_subscription ok meanwhile c p = ensure_attempts 5 ok meanwhile c p

-- `_unsubscribe_pubsub_symbol`, with whether Redis takes it: its exception is only logged.
unfoldable pub unsubscribe_pubsub_symbol : Bool → String → PubSub → PubSub
unfolding contains discard is_filled
unsubscribe_pubsub_symbol ok c p =
    if contains c p.active
    then (let active = discard c p.active in
        record p {
          active = active;
          confirmed = discard c p.confirmed;
          demand = p.demand && is_filled active;
          subscribed = if p.connected && ok then discard c p.subscribed else p.subscribed;
        })
    else p

-- `_subscribe_desired_channels` on a new connection; an exception leaves nothing confirmed.
unfoldable pub subscribe_desired_channels : Bool → PubSub → PubSub
subscribe_desired_channels ok p =
    if ok
    then record p { confirmed = p.active; subscribed = p.active }
    else record p { confirmed = []; subscribed = [] }

-- `fanout_loop`: the locked block that makes `redis_pubsub` the new connection ...
unfoldable pub connect : Bool → PubSub → PubSub
unfolding subscribe_desired_channels
connect ok p = subscribe_desired_channels ok (record p { connected = true })

-- ... and the `finally` that drops it.
unfoldable pub disconnect : PubSub → PubSub
disconnect p = record p { connected = false; confirmed = []; subscribed = [] }
