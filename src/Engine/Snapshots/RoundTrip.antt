-- ===== src/Engine/Snapshots/RoundTrip.antt =====
-- What is written with `SnapshotStore.update` (src/engine/snapshot_store.py) and read with `get`.
use realtime_market_data_pla.Common.{
  String, ◌≡◌, refl, ap, ◌∙◌, false, some, [], ◌∷◌, arith, ◌==◌, nat_Key, string_Key, pair_Key,
  beq_refl,
}
use realtime_market_data_pla.Models.{Numbers, from_event, SnapshotData, MarketEvent, PrintsBack}
use realtime_market_data_pla.Engine.Snapshots.{
  write_fields, get, from_redis, snapshot_fields, update, Hash, Redis, found, snapshot_key, read,
}
use realtime_market_data_pla.Common.Dict.{lookup, lookup-insert, get_or, insert}

insert_here :
    (k : String) (hash : Hash) (redis : Redis) → lookup k (insert k hash redis) ≡ some hash
insert_here k hash redis = ground (arith, lookup-insert k k hash redis, beq_refl {A = String} k)

insert_elsewhere :
    (k j : String) (hash : Hash) (redis : Redis)
    → (k == j) ≡ false
    → lookup j (insert k hash redis) ≡ lookup j redis
insert_elsewhere k j hash redis other = ground (arith, lookup-insert k j hash redis)

module _ {F : Type 0} ⦃n : Numbers F⦄ where
  -- The six fields, over whatever the hash held before.
  snapshot_written :
      (e : MarketEvent F) (hash : Hash)
      → let h = write_fields (snapshot_fields e) hash in
        (lookup "bid" h ≡ some (n.text_of_float e.bid))
        × (lookup "ask" h ≡ some (n.text_of_float e.ask))
        × (lookup "bid_size" h ≡ some (n.text_of_int e.bid_size))
        × (lookup "ask_size" h ≡ some (n.text_of_int e.ask_size))
        × (lookup "seq" h ≡ some (n.text_of_int e.seq))
        × (lookup "ts" h ≡ some (n.text_of_int e.server_ts))
  unfolding write_fields snapshot_fields
  snapshot_written e hash = (
    simp lookup-insert,
    simp lookup-insert,
    simp lookup-insert,
    simp lookup-insert,
    simp lookup-insert,
    simp lookup-insert,
  )

  from_redis-update :
      (p : PrintsBack n) (e : MarketEvent F) (hash : Hash)
      → from_redis e.symbol (write_fields (snapshot_fields e) hash) ≡ some (from_event e)
  unfolding from_redis from_event
  from_redis-update p e hash =
      let (bid, ask, bid_size, ask_size, seq, ts) = snapshot_written e hash in
      rw
        (
          bid,
          ask,
          bid_size,
          ask_size,
          seq,
          ts,
          p.float-text e.bid,
          p.float-text e.ask,
          p.int-text e.bid_size,
          p.int-text e.ask_size,
          p.int-text e.seq,
          p.int-text e.server_ts,
        )
        refl

  read_found :
      (symbol : String) (d : SnapshotData F) (hash : Hash) (v : String)
      → lookup "bid" hash ≡ some v
      → from_redis symbol hash ≡ some d
      → read symbol hash ≡ found d
  unfolding lookup read
  read_found symbol d [] v e h = absurd (ground arith)
  read_found symbol d (f ∷ fields) v e h = rw (h, read) refl

  -- After an update, whatever the store held, the symbol of the event reads as the snapshot of the
  -- event, and every symbol under another key reads as before.
  pub get-update :
      (p : PrintsBack n) (prefix : String) (e : MarketEvent F) (redis : Redis)
      → (get prefix e.symbol (update prefix e redis) ≡ found (from_event e))
        × ((j : String)
            → (snapshot_key prefix e.symbol == snapshot_key prefix j) ≡ false
            → get prefix j (update prefix e redis) ≡ get {F = F} prefix j redis)
  unfolding get update
  get-update p prefix e redis =
      let key = snapshot_key prefix e.symbol in
      let old = get_or (lookup key redis) [] in
      let new = write_fields (snapshot_fields e) old in
      (
        ap (λ o. read e.symbol (get_or o [])) (insert_here key new redis)
            ∙ read_found e.symbol (from_event e) new (n.text_of_float e.bid)
                (snapshot_written e old).0 (from_redis-update p e old),
        λ j other.
            ap (λ o. read j (get_or o []))
              (insert_elsewhere key (snapshot_key prefix j) new redis other),
      )
