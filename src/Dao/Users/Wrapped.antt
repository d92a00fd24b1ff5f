-- ===== src/Dao/Users/Wrapped.antt =====
-- A registration whose id an `int` does not hold (`get_next_userid`, `register_user` of server/dao.c).
use chat_hub.Base.{
  ℕ, ◌+◌, ◌-◌, ◌<◌, ◌≤◌, ◌^◌, ◌≡◌, refl, false, none, some, [], ◌∷◌, ℤ, pos, negsuc, to_int, arith,
}
use chat_hub.Exec.{pure}
use chat_hub.Text.{codes, show_ℤ}
use chat_hub.Text.Compare.{same_string_refl}
use chat_hub.Config.{User, error_normal}
use chat_hub.Redis.{Redis, reply_integer}
use chat_hub.Redis.Documented.{
  Db, Documented, name_index, user_hash, user_ids, with_hash, with_counter, put_field, put_fields,
}
use chat_hub.Redis.Returns.{Returns, Returns-pure, Returns-bind, Returns-at_error, Returns-cast}
use chat_hub.Redis.Commands.{incr_at, hmset_at, hset_at}
use chat_hub.Dao.Keys.{users_key, next_user_id, user_key}
use chat_hub.Dao.Users.{get_next_userid, register_user}
use chat_hub.Dao.Users.Accounts.Register.{is_user_exists_lem}

-- the `int` with the low 32 bits of the counter plus one
abbrev pub wrapped_id : Db → ℤ
wrapped_id d = negsuc (2 ^ 32 - (d.counter next_user_id + 1) - 1)

unfoldable pub wrapped : Db → User → ℤ → Db
wrapped d user now =
    let key = user_key (wrapped_id d) in
    let stored = put_fields d.hash key (
      (codes "username", user.username)
      ∷ (codes "pass", user.pass)
      ∷ (codes "registerTime", show_ℤ now)
      ∷ []) in
    with_hash (with_counter d next_user_id (d.counter next_user_id + 1))
      (put_field stored users_key user.username (show_ℤ (wrapped_id d)))

to_int-wrapped : (n : ℕ) → 2 ^ 31 ≤ n → n < 2 ^ 32 → to_int (pos n) ≡ negsuc (2 ^ 32 - n - 1)
to_int-wrapped n large small = ground arith

module _ {r : Redis} (laws : Documented r) (d : Db) {s : r.Store} (ready : laws.Ready s)
    (e : laws.db s ≡ d) (large : 2 ^ 31 ≤ d.counter next_user_id + 1)
    (small : d.counter next_user_id + 1 < 2 ^ 32) where
  get_next_userid_wraps :
      Returns laws
        (get_next_userid r)
        s
        (wrapped_id d)
        (with_counter d next_user_id (d.counter next_user_id + 1))
  unfolding get_next_userid
  get_next_userid_wraps =
      Returns-cast laws
        (Returns-at_error laws error_normal (
          Returns-bind laws (λ reply. pure (to_int (reply_integer reply)))
            (incr_at laws d ready e user_ids (omega arith))
            λ s1 r1 e1. Returns-pure laws _ s1 r1 e1))
        (to_int-wrapped (d.counter next_user_id + 1) large small) refl

module _ {r : Redis} (laws : Documented r) (d : Db) {s : r.Store} (ready : laws.Ready s)
    (e : laws.db s ≡ d) where
  -- Where the counter of users plus one is from 2 ^ 31 on, and below 2 ^ 32: `register_user` of a new
  -- name returns a number below 0, which is that number less 2 ^ 32, and the user is stored under it.
  pub register_user_wraps :
      (u : User) (now : ℤ)
      → d.hash users_key u.username ≡ none
      → 2 ^ 31 ≤ d.counter next_user_id + 1
      → d.counter next_user_id + 1 < 2 ^ 32
      → Returns laws (register_user r u now) s (wrapped_id d) (wrapped d u now)
        × ((wrapped d u now).hash users_key u.username ≡ some (show_ℤ (wrapped_id d)))
  unfolding register_user wrapped with_counter with_hash put_field
  register_user_wraps u now fresh large small = (
    Returns-at_error laws error_normal (
        Returns-bind laws _ (is_user_exists_lem laws d ready e u.username false (rw fresh))
          λ s1 r1 e1.
            Returns-bind laws _ (get_next_userid_wraps laws d r1 e1 large small) λ s3 r3 e3.
              Returns-bind laws _ (hmset_at laws _ r3 e3 (user_hash _) _) λ s4 r4 e4.
                Returns-bind laws _ (hset_at laws _ r4 e4 name_index _ _)
                  λ s5 r5 e5. Returns-pure laws _ s5 r5 e5),
    rw (same_string_refl users_key, same_string_refl u.username),
  )
