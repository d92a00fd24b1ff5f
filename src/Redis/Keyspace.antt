-- ===== src/Redis/Keyspace.antt =====
-- What the documentation of Redis says of `KEYS` and `DEL`: the keys of the database as a predicate.
-- The pattern is that of a room, `chatroom:<id>*`, which has no special character but its last.
use chat_hub.Base.{
  ℕ, ◌∙◌, ◌-◌, ◌==◌, ap, arith, Option, length, take, length-append, ◌≡◌, refl, Bool, true, false,
  ◌&&◌, not, some, List, [], ◌∷◌, ◌++◌, map, ℤ, if◌then◌else◌,
}
use chat_hub.Text.{Bytes, codes, same_string}
use chat_hub.Text.Compare.{same_string_iff}
use chat_hub.Redis.{nil, Redis, Command, keys, del, Reply, array}
use chat_hub.Redis.Documented.{contains, remove_member, bit}
use chat_hub.Dao.Keys.{chatroom_key}

unfoldable pub starts_with : Bytes → Bytes → Bool
starts_with [] k = true
starts_with (c ∷ p) [] = false
starts_with (c ∷ p) (a ∷ k) = c == a && starts_with p k

module _ (r : Redis) where
  -- `c` answers `reply`, and leaves a ready server with the keys `stored`.
  pub record Leaves (ready : r.Store → Type 0) (stored : r.Store → Bytes → Bool) (s : r.Store)
      (c : Command) (reply : Reply) (keys_after : Bytes → Bool) : Type 0 where
    pub after : r.Store
    pub run : r.call c s ≡ (some reply, after)
    pub ready_after : ready after
    pub kept : (k : Bytes) → stored after k ≡ keys_after k

  pub record Keyspace : Type 1 where
    pub Ready : r.Store → Type 0
    pub stored : r.Store → Bytes → Bool
    pub keys_law :
        (s : r.Store) (room : ℤ)
        → Ready s
        → (ks : List Bytes) × ((k : Bytes)
            → contains ks k ≡ (stored s k && starts_with (chatroom_key room) k))
          × Leaves Ready stored s
              (keys (chatroom_key room ++ codes "*"))
              (array (map some ks))
              (stored s)
    pub del_law :
        (s : r.Store) (k : Bytes)
        → Ready s
        → Leaves Ready stored s
            (del k)
            (bit (stored s k))
            (λ k'. stored s k' && not (same_string k k'))

-- a database that keeps its keys and nothing else
abbrev filter_keys : Bytes → List Bytes → List Bytes
filter_keys p [] = []
filter_keys p (k ∷ ks) = let rest = filter_keys p ks in if starts_with p k then k ∷ rest else rest

abbrev run_keys : Command → List Bytes → Option Reply × List Bytes
run_keys (keys p) ks = (some (array (map some (filter_keys (take (length p - 1) p) ks))), ks)
run_keys (del k) ks = (some (bit (contains ks k)), remove_member ks k)
run_keys _ ks = (some nil, ks)

abbrev pub key_memory : Redis
key_memory = record { Store = List Bytes; call = run_keys }

pub contains-filter_keys :
    (p : Bytes) (ks : List Bytes) (k : Bytes)
    → contains (filter_keys p ks) k ≡ (contains ks k && starts_with p k)
unfolding contains
contains-filter_keys p [] k = refl
contains-filter_keys p (m ∷ ks) k = ground (arith, contains-filter_keys p ks k, same_string_iff m k)

pub contains-remove_key :
    (ks : List Bytes) (k v : Bytes)
    → contains (remove_member ks k) v ≡ (contains ks v && not (same_string k v))
unfolding contains remove_member
contains-remove_key [] k v = refl
contains-remove_key (m ∷ ks) k v = ground (
  arith,
  contains-remove_key ks k v,
  same_string_iff m v,
  same_string_iff m k,
  same_string_iff k v,
)

take-append : (p t : Bytes) → take (length p) (p ++ t) ≡ p
take-append [] t = refl
take-append (c ∷ p) t = ap (λ l. c ∷ l) (take-append p t)

take_but_last : (p : Bytes) (c : ℕ) → take (length (p ++ c ∷ []) - 1) (p ++ c ∷ []) ≡ p
take_but_last p c =
    let size : length (p ++ c ∷ []) - 1 ≡ length p = omega (arith, length-append p (c ∷ [])) in
    ap (λ n. take n (p ++ c ∷ [])) size ∙ take-append p (c ∷ [])

pub listed :
    (ks : List Bytes) (room : ℤ)
    → run_keys (keys (chatroom_key room ++ codes "*")) ks
      ≡ (some (array (map some (filter_keys (chatroom_key room) ks))), ks)
listed ks room =
    ap (λ p. (some (array (map some (filter_keys p ks))), ks))
      (take_but_last (chatroom_key room) b'*')

unfoldable pub key_memory_laws : Keyspace key_memory
key_memory_laws = record {
  Ready = λ ks. Unit;
  stored = contains;
  keys_law = λ ks room ready. (
    filter_keys (chatroom_key room) ks,
    contains-filter_keys (chatroom_key room) ks,
    record { after = ks; run = listed ks room; ready_after = tt; kept = λ k. refl },
  );
  del_law = λ ks k ready. record {
    after = _;
    run = refl;
    ready_after = tt;
    kept = contains-remove_key ks k;
  };
}
