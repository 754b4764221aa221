-- ===== src/Engine/Snapshots.antt =====
-- src/engine/snapshot_store.py: the snapshots in Redis. The hashes of Redis are a
-- dictionary of texts here: `HSET` writes the fields that it names and keeps the others, `HGETALL`
-- of a key that is missing is empty. Expiry is left out.
pub mod RoundTrip
use realtime_market_data_pla.Common.{
  ℕ, zero, suc, ◌+◌, ◌-◌, ◌*◌, ◌/◌, ◌%◌, ◌≤◌, ◌<◌, min, max, String, ◌≡◌, refl, sym, ap, ap₂, subst,
  ◌∙◌, ◌≢◌, ◌↔◌, ◌⊎◌, inl, inr, Bool, true, false, not, ◌&&◌, ◌||◌, Option, none, some, List, [],
  ◌∷◌, ◌++◌, map, append-nil, append_assoc, arith, dec_lt, length, drop, take, last_n,
  length-append, All, All-append, All-map, contains, discard, ltb, leb, if◌then◌else◌, Key, ◌==◌,
  nat_Key, string_Key, pair_Key, beq_refl, Bool-cases, Option-cases,
}
use Prim.Native.String.{◌++◌ as concat}
use realtime_market_data_pla.Common.Dict.{insert, Dict, lookup, get_or}
use realtime_market_data_pla.Models.{Numbers, SnapshotData, MarketEvent}

abbrev pub Hash : Type 0
Hash = Dict String String

abbrev pub Redis : Type 0
Redis = Dict String Hash

-- `snapshot_key`
unfoldable pub snapshot_key : String → String → String
snapshot_key prefix symbol = concat (concat prefix "snapshot:") symbol

-- `HSET key mapping`
unfoldable pub write_fields : List (String × String) → Hash → Hash
unfolding insert
write_fields [] hash = hash
write_fields ((k, v) ∷ mapping) hash = write_fields mapping (insert k v hash)

-- What `get` returns or raises; a missing field is a `KeyError`, a text that is no number a
-- `ValueError`.
pub data Fetched (F : Type 0) : Type 0 where
  no_snapshot : Fetched F
  found : SnapshotData F → Fetched F
  raises : Fetched F

infixl 20 ◌>>=◌
abbrev ◌>>=◌ : {A B : Type 0} → Option A → (A → Option B) → Option B
none >>= f = none
some a >>= f = f a

module _ {F : Type 0} ⦃n : Numbers F⦄ where
  -- the mapping of `update`
  unfoldable pub snapshot_fields : MarketEvent F → List (String × String)
  snapshot_fields e =
      ("bid", n.text_of_float e.bid)
      ∷ ("ask", n.text_of_float e.ask)
      ∷ ("bid_size", n.text_of_int e.bid_size)
      ∷ ("ask_size", n.text_of_int e.ask_size)
      ∷ ("seq", n.text_of_int e.seq)
      ∷ ("ts", n.text_of_int e.server_ts)
      ∷ []

  unfoldable pub update : String → MarketEvent F → Redis → Redis
  unfolding snapshot_key write_fields snapshot_fields lookup
  update prefix e redis =
      let key = snapshot_key prefix e.symbol in
      insert key (write_fields (snapshot_fields e) (get_or (lookup key redis) [])) redis

  -- `SnapshotData.from_redis`
  unfoldable pub from_redis : String → Hash → Option (SnapshotData F)
  unfolding lookup
  from_redis symbol hash = do
    bid ← lookup "bid" hash >>= n.float_of_text
    ask ← lookup "ask" hash >>= n.float_of_text
    bid_size ← lookup "bid_size" hash >>= n.int_of_text
    ask_size ← lookup "ask_size" hash >>= n.int_of_text
    seq ← lookup "seq" hash >>= n.int_of_text
    ts ← lookup "ts" hash >>= n.int_of_text
    some (record {
      symbol = symbol;
      bid = bid;
      ask = ask;
      bid_size = bid_size;
      ask_size = ask_size;
      seq = seq;
      ts = ts;
    })

  -- `get` of the hash that `HGETALL` returns
  unfoldable pub read : String → Hash → Fetched F
  unfolding from_redis
  read symbol [] = no_snapshot
  read symbol (f ∷ fields) = elim (from_redis symbol (f ∷ fields)) [
    | none ↦ raises
    | some d ↦ found d
  ]

  unfoldable pub get : String → String → Redis → Fetched F
  unfolding read snapshot_key
  get prefix symbol redis = read symbol (get_or (lookup (snapshot_key prefix symbol) redis) [])
