-- ===== src/Redis/Memory.antt =====
-- A database in memory, which meets the documented laws.
use mathlib.Core.List.Permᴰ as Order
use chat_hub.Base.{
  ◌≡◌, false, List, ◌∷◌, Bool-cases, inl, inr, arith, ◌+◌, refl, some, [], not, map, pos,
}
use chat_hub.Text.{Bytes, codes, same_string}
use chat_hub.Redis.{
  Redis, Command, hexists, hget, hset, hmset, hmget, incr, sadd, srem, sismember, smembers, keys,
  del, Reply, status, integer, array,
}
use chat_hub.Redis.Documented.{
  Db, Documented, put_field, put_fields, with_hash, with_members, with_counter, contains,
  add_members, remove_member, bit, bulk, is_some,
}
use chat_hub.Base.{Option, none}

abbrev pub run_command : Command → Db → Option Reply × Db
run_command (hexists k f) d = (some (bit (is_some (d.hash k f))), d)
run_command (hget k f) d = (some (bulk (d.hash k f)), d)
run_command (hset k f v) d =
    (some (bit (not (is_some (d.hash k f)))), with_hash d (put_field d.hash k f v))
run_command (hmset k fs) d = (some (status (codes "OK")), with_hash d (put_fields d.hash k fs))
run_command (hmget k fs) d = (some (array (map (d.hash k) fs)), d)
run_command (incr k) d =
    (some (integer (pos (d.counter k + 1))), with_counter d k (d.counter k + 1))
run_command (sadd k vs) d =
    (some (integer (pos 0)), with_members d k (add_members (d.members k) vs))
run_command (srem k v) d =
    (some (bit (contains (d.members k) v)), with_members d k (remove_member (d.members k) v))
run_command (sismember k v) d = (some (bit (contains (d.members k) v)), d)
run_command (smembers k) d = (some (array (map some (d.members k))), d)
run_command (keys p) d = (some (array []), d)
run_command (del k) d = (some (integer (pos 0)), d)

abbrev pub memory : Redis
memory = record { Store = Db; call = run_command }

abbrev pub empty_db : Db
empty_db = record { hash = λ k f. none; members = λ k. []; counter = λ k. 0 }

pub remove_member-absent :
    (ms : List Bytes) (v : Bytes) → contains ms v ≡ false → remove_member ms v ≡ ms
unfolding remove_member contains
remove_member-absent [] v h = refl
remove_member-absent (m ∷ ms) v h = elim (Bool-cases (same_string m v)) [
  | inl p ↦ ground arith
  | inr p ↦ rw (p, remove_member-absent ms v (ground arith))
]

abbrev pub memory_laws : Documented memory
memory_laws = record {
  Ready = λ s. Unit;
  db = λ s. s;
  hexists_law = λ s f k h. record { after = _; run = refl; ready_after = tt; contents = refl };
  hget_law = λ s f k h. record { after = _; run = refl; ready_after = tt; contents = refl };
  hmget_law = λ s fs k h. record { after = _; run = refl; ready_after = tt; contents = refl };
  hset_law = λ s f v k h. record { after = _; run = refl; ready_after = tt; contents = refl };
  hmset_law = λ s fs k h. record { after = _; run = refl; ready_after = tt; contents = refl };
  incr_law = λ s k h b. record { after = _; run = refl; ready_after = tt; contents = refl };
  smembers_law = λ s k h. record { after = _; run = refl; ready_after = tt; contents = refl };
  sismember_law = λ s v k h. record { after = _; run = refl; ready_after = tt; contents = refl };
  srem_law = λ s v k h. (
    _,
    Order.refl (remove_member (s.members _) v),
    remove_member-absent (s.members _) v,
    record { after = _; run = refl; ready_after = tt; contents = refl },
  );
  sadd_law = λ s vs k h. (
    0,
    _,
    Order.refl (add_members (s.members _) vs),
    record { after = _; run = refl; ready_after = tt; contents = refl },
  );
}
