-- ===== src/Redis/Documented.antt =====
-- What the documentation of Redis says of the commands that server/dao.c sends: the contents of the
-- database as functions, and the record of laws that a server meets. The server is `Ready` where it
-- is reachable, has memory, and holds under each key a value of the type that this program keeps
-- there; the laws speak of keys of their own kind in such a state.
use mathlib.Core.List.{Permᴰ}
use chat_hub.Base.{
  ℕ, ◌+◌, ◌<◌, ◌^◌, ◌≡◌, Bool, true, false, ◌&&◌, ◌||◌, not, Option, none, some, List, [], ◌∷◌,
  ◌++◌, map, ℤ, pos, if◌then◌else◌,
}
use chat_hub.Text.{Bytes, same_string, codes}
use chat_hub.Redis.{
  Redis, Command, hexists, hget, hset, hmset, hmget, incr, sadd, srem, sismember, smembers, Reply,
  status, str, nil, integer, array,
}
use chat_hub.Dao.Keys.{
  users_key, next_user_id, next_chatroom_id, user_key, chatroom_key, message_key, next_msg_id,
}

-- Hashes by key and field; the members of a set, once each, in the order in which `SMEMBERS` lists
-- them until the set is changed; counters (0 if absent). No order is documented: a change of the
-- members may list them in another one.
pub record Db : Type 0 where
  pub hash : Bytes → Bytes → Option Bytes
  pub members : Bytes → List Bytes
  pub counter : Bytes → ℕ

-- the keys of each kind
pub data HashKey : Bytes → Type 0 where
  name_index : HashKey users_key
  user_hash : (id : ℤ) → HashKey (user_key id)
  message_hash : (room id : ℤ) → HashKey (message_key room id)

pub data SetKey : Bytes → Type 0 where
  room_set : (id : ℤ) → SetKey (chatroom_key id)

pub data CounterKey : Bytes → Type 0 where
  user_ids : CounterKey next_user_id
  chatroom_ids : CounterKey next_chatroom_id
  msg_ids : (room : ℤ) → CounterKey (next_msg_id room)

unfoldable pub put_field :
    (Bytes → Bytes → Option Bytes) → Bytes → Bytes → Bytes → Bytes → Bytes → Option Bytes
put_field h k f v k' f' = if same_string k' k && same_string f' f then some v else h k' f'

unfoldable pub put_fields :
    (Bytes → Bytes → Option Bytes) → Bytes → List (Bytes × Bytes) → Bytes → Bytes → Option Bytes
put_fields h k [] = h
put_fields h k ((f, v) ∷ fs) = put_fields (put_field h k f v) k fs

unfoldable pub contains : List Bytes → Bytes → Bool
contains [] v = false
contains (m ∷ ms) v = same_string m v || contains ms v

unfoldable pub add_member : List Bytes → Bytes → List Bytes
add_member ms v = if contains ms v then ms else ms ++ v ∷ []

unfoldable pub add_members : List Bytes → List Bytes → List Bytes
add_members ms [] = ms
add_members ms (v ∷ vs) = add_members (add_member ms v) vs

unfoldable pub remove_member : List Bytes → Bytes → List Bytes
remove_member [] v = []
remove_member (m ∷ ms) v =
    let rest = remove_member ms v in if same_string m v then rest else m ∷ rest

unfoldable pub with_hash : Db → (Bytes → Bytes → Option Bytes) → Db
with_hash d h = record d { hash = h }

unfoldable pub with_members : Db → Bytes → List Bytes → Db
with_members d k ms = record d { members = λ k'. if same_string k' k then ms else d.members k' }

unfoldable pub with_counter : Db → Bytes → ℕ → Db
with_counter d k n = record d { counter = λ k'. if same_string k' k then n else d.counter k' }

abbrev pub bit : Bool → Reply
bit true = integer (pos 1)
bit false = integer (pos 0)

abbrev pub is_some : Option Bytes → Bool
is_some none = false
is_some (some v) = true

abbrev pub bulk : Option Bytes → Reply
bulk none = nil
bulk (some v) = str v

module _ (r : Redis) where
  -- `c` answers `reply`, and leaves a ready server with contents `d`.
  pub record Answers (ready : r.Store → Type 0) (db : r.Store → Db) (s : r.Store) (c : Command)
      (reply : Reply) (d : Db) : Type 0 where
    pub after : r.Store
    pub run : r.call c s ≡ (some reply, after)
    pub ready_after : ready after
    pub contents : db after ≡ d

  pub record Documented : Type 1 where
    pub Ready : r.Store → Type 0
    pub db : r.Store → Db
    pub hexists_law :
        (s : r.Store) {k : Bytes} (f : Bytes)
        → HashKey k
        → Ready s
        → Answers Ready db s (hexists k f) (bit (is_some ((db s).hash k f))) (db s)
    pub hget_law :
        (s : r.Store) {k : Bytes} (f : Bytes)
        → HashKey k
        → Ready s
        → Answers Ready db s (hget k f) (bulk ((db s).hash k f)) (db s)
    pub hmget_law :
        (s : r.Store) {k : Bytes} (fs : List Bytes)
        → HashKey k
        → Ready s
        → Answers Ready db s (hmget k fs) (array (map ((db s).hash k) fs)) (db s)
    -- 1 for a new field, 0 for an old one
    pub hset_law :
        (s : r.Store) {k : Bytes} (f v : Bytes)
        → HashKey k
        → Ready s
        → Answers Ready db s
            (hset k f v)
            (bit (not (is_some ((db s).hash k f))))
            (with_hash (db s) (put_field (db s).hash k f v))
    pub hmset_law :
        (s : r.Store) {k : Bytes} (fs : List (Bytes × Bytes))
        → HashKey k
        → Ready s
        → Answers Ready db s
            (hmset k fs)
            (status (codes "OK"))
            (with_hash (db s) (put_fields (db s).hash k fs))
    -- counters are signed 64-bit integers
    pub incr_law :
        (s : r.Store) {k : Bytes}
        → CounterKey k
        → Ready s
        → (db s).counter k + 1 < 2 ^ 63
        → Answers Ready db s
            (incr k)
            (integer (pos ((db s).counter k + 1)))
            (with_counter (db s) k ((db s).counter k + 1))
    pub smembers_law :
        (s : r.Store) {k : Bytes}
        → SetKey k
        → Ready s
        → Answers Ready db s (smembers k) (array (map some ((db s).members k))) (db s)
    pub sismember_law :
        (s : r.Store) {k : Bytes} (v : Bytes)
        → SetKey k
        → Ready s
        → Answers Ready db s (sismember k v) (bit (contains ((db s).members k) v)) (db s)
    -- what is no member is passed over
    pub srem_law :
        (s : r.Store) {k : Bytes} (v : Bytes)
        → SetKey k
        → Ready s
        → (ms : List Bytes) × Permᴰ ms (remove_member ((db s).members k) v)
          × (contains ((db s).members k) v ≡ false → ms ≡ (db s).members k)
          × Answers Ready db s
              (srem k v)
              (bit (contains ((db s).members k) v))
              (with_members (db s) k ms)
    -- the reply counts the new members
    pub sadd_law :
        (s : r.Store) {k : Bytes} (vs : List Bytes)
        → SetKey k
        → Ready s
        → (n : ℕ) × (ms : List Bytes) × Permᴰ ms (add_members ((db s).members k) vs)
          × Answers Ready db s (sadd k vs) (integer (pos n)) (with_members (db s) k ms)
