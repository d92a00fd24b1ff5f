-- ===== src/Redis/Commands.antt =====
-- Each command on a ready server that holds `d`: it returns the documented reply.
use mathlib.Core.List.{Permᴰ}
use chat_hub.Base.{false, ℕ, ◌+◌, ◌<◌, ◌^◌, ◌≡◌, not, some, List, map, pos}
use chat_hub.Text.{Bytes, codes}
use chat_hub.Redis.{
  Redis, hexists, hget, hset, hmset, hmget, incr, sadd, srem, sismember, smembers, status, integer,
  array, command,
}
use chat_hub.Redis.Documented.{
  Db, Documented, HashKey, SetKey, CounterKey, put_field, put_fields, with_hash, with_members,
  with_counter, contains, add_members, remove_member, bit, bulk, is_some,
}
use chat_hub.Redis.Returns.{Returns, Returns-command, bit-IsPlain, bulk-IsPlain}

module _ {r : Redis} (laws : Documented r) (d : Db) {s : r.Store} (ready : laws.Ready s)
    (e : laws.db s ≡ d) where
  module _ {k : Bytes} (hk : HashKey k) where
    pub hexists_at :
        (f : Bytes) → Returns laws (command r (hexists k f)) s (bit (is_some (d.hash k f))) d
    hexists_at f = rw e at (Returns-command laws (bit-IsPlain _) (laws.hexists_law s f hk ready))

    pub hget_at : (f : Bytes) → Returns laws (command r (hget k f)) s (bulk (d.hash k f)) d
    hget_at f = rw e at (Returns-command laws (bulk-IsPlain _) (laws.hget_law s f hk ready))

    pub hmget_at :
        (fs : List Bytes) → Returns laws (command r (hmget k fs)) s (array (map (d.hash k) fs)) d
    hmget_at fs = rw e at (Returns-command laws tt (laws.hmget_law s fs hk ready))

    pub hset_at :
        (f v : Bytes)
        → Returns laws
            (command r (hset k f v))
            s
            (bit (not (is_some (d.hash k f))))
            (with_hash d (put_field d.hash k f v))
    hset_at f v = rw e at (Returns-command laws (bit-IsPlain _) (laws.hset_law s f v hk ready))

    pub hmset_at :
        (fs : List (Bytes × Bytes))
        → Returns laws
            (command r (hmset k fs))
            s
            (status (codes "OK"))
            (with_hash d (put_fields d.hash k fs))
    hmset_at fs = rw e at (Returns-command laws tt (laws.hmset_law s fs hk ready))

  pub incr_at :
      {k : Bytes}
      → CounterKey k
      → d.counter k + 1 < 2 ^ 63
      → Returns laws
          (command r (incr k))
          s
          (integer (pos (d.counter k + 1)))
          (with_counter d k (d.counter k + 1))
  incr_at ck room = rw e at (Returns-command laws tt (laws.incr_law s ck ready (rw e room)))

  module _ {k : Bytes} (sk : SetKey k) where
    pub smembers_at : Returns laws (command r (smembers k)) s (array (map some (d.members k))) d
    smembers_at = rw e at (Returns-command laws tt (laws.smembers_law s sk ready))

    pub sismember_at :
        (v : Bytes) → Returns laws (command r (sismember k v)) s (bit (contains (d.members k) v)) d
    sismember_at v =
        rw e at (Returns-command laws (bit-IsPlain _) (laws.sismember_law s v sk ready))

    pub srem_at :
        (v : Bytes)
        → (ms : List Bytes) × Permᴰ ms (remove_member (d.members k) v)
          × (contains (d.members k) v ≡ false → ms ≡ d.members k)
          × Returns laws
              (command r (srem k v))
              s
              (bit (contains (d.members k) v))
              (with_members d k ms)
    srem_at v =
        let (ms, order, same, law) = laws.srem_law s v sk ready in
        (ms, rw e at order, rw e at same, rw e at (Returns-command laws (bit-IsPlain _) law))

    pub sadd_at :
        (vs : List Bytes)
        → (n : ℕ) × (ms : List Bytes) × Permᴰ ms (add_members (d.members k) vs)
          × Returns laws (command r (sadd k vs)) s (integer (pos n)) (with_members d k ms)
    sadd_at vs =
        let (n, ms, order, law) = laws.sadd_law s vs sk ready in
        (n, ms, rw e at order, rw e at (Returns-command laws tt law))
