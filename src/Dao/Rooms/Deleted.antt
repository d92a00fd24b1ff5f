-- ===== src/Dao/Rooms/Deleted.antt =====
-- Deleting a chat room (`del_chatrooom` of server/dao.c).
use chat_hub.Base.{
  ℕ, ◌+◌, ◌*◌, ◌<◌, ◌≡◌, refl, ◌∙◌, ap, sym, append_assoc, Bool, true, false, ◌&&◌, not, some, List,
  [], ◌∷◌, ◌++◌, map, All, length, ℤ, pos, ltb, arith,
}
use chat_hub.Run.{ok}
use chat_hub.Exec.{value}
use chat_hub.Text.{Bytes, codes, show_ℤ, show_ℕ}
use chat_hub.Text.Compare.{same_string_iff}
use chat_hub.Text.Decimal.{show_ℕ-digit}
use chat_hub.Redis.{Redis, checked}
use chat_hub.Redis.Documented.{contains, bit}
use chat_hub.Redis.Keyspace.{Keyspace, starts_with}
use chat_hub.Dao.Keys.{chatroom_key}
use chat_hub.Dao.Rooms.{copy_keys, del_keys, del_chatroom}

all_short :
    (ks : List Bytes)
    → ((k : Bytes) → contains ks k ≡ true → length k < 100)
    → All (λ k. length k < 100) ks
unfolding contains
all_short [] h = tt
all_short (k ∷ ks) h =
    (h k (ground (arith, same_string_iff k k)), all_short ks (λ m e. h m (ground arith)))

checked-bit : {S : Type 0} (b : Bool) (s : S) → checked (some (bit b), s) ≡ ok (value (bit b), s)
checked-bit true s = refl
checked-bit false s = refl

starts_with-append : (p t : Bytes) → starts_with p (p ++ t) ≡ true
unfolding starts_with
starts_with-append [] t = refl
starts_with-append (c ∷ p) t = ground (arith, starts_with-append p t)

-- the key of a room with one more digit
chatroom_key-digit :
    (n c : ℕ)
    → 0 < n
    → c < 10
    → chatroom_key (pos (10 * n + c)) ≡ chatroom_key (pos n) ++ (b'0' + c) ∷ []
unfolding show_ℤ
chatroom_key-digit n c positive digit =
    ap (λ s. codes "chatroom:" ++ s) (show_ℕ-digit n c positive digit)
    ∙ sym (append_assoc (codes "chatroom:") (show_ℕ n) ((b'0' + c) ∷ []))

longer_starts_with :
    (n c : ℕ) (t : Bytes)
    → 0 < n
    → c < 10
    → starts_with (chatroom_key (pos n)) (chatroom_key (pos (10 * n + c)) ++ t) ≡ true
longer_starts_with n c t positive digit =
    ap (λ k. starts_with (chatroom_key (pos n)) (k ++ t)) (chatroom_key-digit n c positive digit)
    ∙ ap (starts_with (chatroom_key (pos n)))
        (append_assoc (chatroom_key (pos n)) ((b'0' + c) ∷ []) t)
    ∙ starts_with-append (chatroom_key (pos n)) ((b'0' + c) ∷ t)

module _ {r : Redis} (laws : Keyspace r) where
  copy_keys-short :
      (ks : List Bytes) → All (λ k. length k < 100) ks → copy_keys r (map some ks) ≡ ok ks
  unfolding copy_keys
  copy_keys-short [] h = refl
  copy_keys-short (k ∷ ks) (short, h) =
      let fits : ltb (length k) 100 ≡ true = ground arith in rw (fits, copy_keys-short ks h)

  -- a database that is ready and has lost the keys `gone`
  record Lost (s after : r.Store) (gone : Bytes → Bool) : Type 0 where
    ready_after : laws.Ready after
    kept : (k : Bytes) → laws.stored after k ≡ (laws.stored s k && not (gone k))

  del_keys_lem :
      (ks : List Bytes) (s : r.Store)
      → laws.Ready s
      → (after : r.Store) × (del_keys r ks s ≡ ok (value tt, after)) × Lost s after (contains ks)
  unfolding del_keys contains
  del_keys_lem [] s ready = (s, refl, record { ready_after = ready; kept = λ k. ground arith })
  del_keys_lem (key ∷ ks) s ready =
      let gone = laws.del_law s key ready in
      let (after, run, lost) = del_keys_lem ks gone.after gone.ready_after in
      (
        after,
        rw (gone.run, checked-bit (laws.stored s key) gone.after) run,
        record {
          ready_after = lost.ready_after;
          kept = λ k. let now = gone.kept k in let then_ = lost.kept k in ground arith;
        },
      )

  -- On a ready server where every key of the room is shorter than 100 bytes: `del_chatrooom` returns
  -- the room, and the keys of the database are then those of before that do not start with
  -- `chatroom:` and the number of the room.
  pub del_chatroom_lem :
      (s : r.Store) (room : ℤ)
      → laws.Ready s
      → ((k : Bytes)
          → laws.stored s k ≡ true
          → starts_with (chatroom_key room) k ≡ true
          → length k < 100)
      → (after : r.Store) × (del_chatroom r room s ≡ ok (value room, after))
        × laws.Ready after
        × ((k : Bytes)
            → laws.stored after k ≡ (laws.stored s k && not (starts_with (chatroom_key room) k)))
  unfolding del_chatroom
  del_chatroom_lem s room ready short =
      let (ks, listed, found) = laws.keys_law s room ready in
      let all =
        all_short ks (λ k e. let here = listed k in short k (ground arith) (ground arith)) in
      let (after, run, lost) = del_keys_lem ks found.after found.ready_after in
      (
        after,
        rw (found.run, copy_keys-short ks all, run),
        lost.ready_after,
        λ k.
            let here = listed k in
            let then_ = lost.kept k in let same = found.kept k in ground arith,
      )

  -- Under the same conditions `del_chatrooom` of a room with a positive number returns, and no key of a
  -- room whose number has one more digit at its end is left: neither its members, nor its messages,
  -- nor its counter.
  pub del_chatroom_longer :
      (s : r.Store) (n c : ℕ)
      → laws.Ready s
      → ((k : Bytes)
          → laws.stored s k ≡ true
          → starts_with (chatroom_key (pos n)) k ≡ true
          → length k < 100)
      → 0 < n
      → c < 10
      → (after : r.Store) × (del_chatroom r (pos n) s ≡ ok (value (pos n), after))
        × ((t : Bytes) → laws.stored after (chatroom_key (pos (10 * n + c)) ++ t) ≡ false)
  del_chatroom_longer s n c ready short positive digit =
      let (after, run, ready_after, kept) = del_chatroom_lem s (pos n) ready short in
      (
        after,
        run,
        λ t.
            let now = kept (chatroom_key (pos (10 * n + c)) ++ t) in
            let lost = longer_starts_with n c t positive digit in ground arith,
      )
