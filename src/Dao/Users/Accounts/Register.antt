-- ===== src/Dao/Users/Accounts/Register.antt =====
-- `register_user`.
use chat_hub.Base.{
  Bool, ◌+◌, ◌<◌, ◌^◌, ◌≡◌, refl, ◌∙◌, ◌≢◌, true, false, none, some, ℤ, pos, to_int, to_int_pos,
  if◌then◌else◌, Bool-cases, inl, inr, arith, Option-cases,
}
use chat_hub.Text.{Bytes, codes, show_ℤ, same_string}
use chat_hub.Text.Compare.{same_string_refl, same_string_sound}
use chat_hub.Config.{User, error_user_exists, error_normal}
use chat_hub.Redis.{Redis, reply_integer}
use chat_hub.Exec.{pure}
use chat_hub.Redis.Documented.{
  Db, Documented, name_index, user_hash, user_ids, is_some, with_hash, with_counter,
}
use chat_hub.Redis.Returns.{
  Returns, Returns-pure, Returns-bind, Returns-at_error, Returns-cast, bit_int,
}
use chat_hub.Redis.Commands.{hexists_at, incr_at, hmset_at, hset_at}
use chat_hub.Dao.Keys.{users_key, next_user_id}
use chat_hub.Dao.Users.{is_user_exists, get_next_userid, register_user}
use chat_hub.Dao.Users.Accounts.{Account, IsConsistent, registered}
use chat_hub.Dao.Users.Accounts.Fields.{
  registered_users, registered_username, registered_pass, registered_other,
}

module _ {r : Redis} (laws : Documented r) (d : Db) {s : r.Store} (ready : laws.Ready s)
    (e : laws.db s ≡ d) where
  -- The reply of `HEXISTS`, as the function returns it.
  pub is_user_exists_lem :
      (name : Bytes) (found : Bool)
      → is_some (d.hash users_key name) ≡ found
      → Returns laws (is_user_exists r name) s (if found then pos 1 else pos 0) d
  unfolding is_user_exists
  is_user_exists_lem name found h =
      Returns-cast laws
        (Returns-at_error laws error_normal (
          Returns-bind laws (λ reply. pure (to_int (reply_integer reply)))
            (hexists_at laws d ready e name_index name) λ s1 r1 e1. Returns-pure laws _ s1 r1 e1))
        (rw h (bit_int found)) refl

  -- The id is one more than the counter, which is raised.
  pub get_next_userid_lem :
      d.counter next_user_id + 1 < 2 ^ 31
      → Returns laws
          (get_next_userid r)
          s
          (pos (d.counter next_user_id + 1))
          (with_counter d next_user_id (d.counter next_user_id + 1))
  unfolding get_next_userid
  get_next_userid_lem room =
      let n = d.counter next_user_id + 1 in
      Returns-cast laws
        (Returns-at_error laws error_normal (
          Returns-bind laws (λ reply. pure (to_int (reply_integer reply)))
            (incr_at laws d ready e user_ids (omega arith))
            λ s1 r1 e1. Returns-pure laws _ s1 r1 e1))
        (to_int_pos n room) refl

module _ {r : Redis} (laws : Documented r) (d : Db) {s : r.Store} (ready : laws.Ready s)
    (e : laws.db s ≡ d) where
  -- A name that is not in the database, while the counter is below the greatest `int`, is registered:
  -- the id is the counter plus one, and the database is what `registered` says.
  pub register_user_fresh :
      (u : User) (now : ℤ)
      → d.hash users_key u.username ≡ none
      → d.counter next_user_id + 1 < 2 ^ 31
      → Returns laws
          (register_user r u now)
          s
          (pos (d.counter next_user_id + 1))
          (registered d u now)
  unfolding register_user registered with_counter
  register_user_fresh u now fresh room = Returns-at_error laws error_normal (
      Returns-bind laws _ (is_user_exists_lem laws d ready e u.username false (rw fresh))
        λ s1 r1 e1. Returns-bind laws _ (get_next_userid_lem laws d r1 e1 room) λ s3 r3 e3.
          Returns-bind laws _ (hmset_at laws _ r3 e3 (user_hash _) _) λ s4 r4 e4.
            Returns-bind laws _ (hset_at laws _ r4 e4 name_index _ _)
              λ s5 r5 e5. Returns-pure laws _ s5 r5 e5)

  -- A name that is in the database is refused, and nothing changes.
  pub register_user_taken :
      (u : User) (now : ℤ) {t : Bytes}
      → d.hash users_key u.username ≡ some t
      → Returns laws (register_user r u now) s error_user_exists d
  unfolding register_user
  register_user_taken u now taken = Returns-at_error laws error_normal (
      Returns-bind laws _ (is_user_exists_lem laws d ready e u.username true (rw taken))
        λ s1 r1 e1. Returns-pure laws error_user_exists s1 r1 e1)

module _ (d : Db) (u : User) (now : ℤ) where
  pub counter-registered : (registered d u now).counter next_user_id ≡ d.counter next_user_id + 1
  unfolding registered with_hash with_counter
  counter-registered = rw (same_string_refl next_user_id)

  unfoldable pub new_account :
      Account (registered d u now) u.username (show_ℤ (pos (d.counter next_user_id + 1)))
  new_account = record {
    id = d.counter next_user_id + 1;
    positive = omega arith;
    issued = omega (arith, counter-registered);
    shown = refl;
    name_kept = registered_username d u now;
    pass = u.pass;
    pass_kept = registered_pass d u now;
  }

  old_account : (name t : Bytes) → Account d name t → Account (registered d u now) name t
  old_account name t a =
      let ne : pos a.id ≢ pos (d.counter next_user_id + 1) = λ p. ground (arith, a.issued) in
      record {
        id = a.id;
        positive = a.positive;
        issued = omega (arith, counter-registered, a.issued);
        shown = a.shown;
        name_kept = registered_other d u now (pos a.id) (codes "username") ne ∙ a.name_kept;
        pass = a.pass;
        pass_kept = registered_other d u now (pos a.id) (codes "pass") ne ∙ a.pass_kept;
      }

  -- Registration keeps every account and adds one.
  pub registered-IsConsistent : IsConsistent d → IsConsistent (registered d u now)
  registered-IsConsistent c = record {
    account = λ name t h. elim (Bool-cases (same_string name u.username)) [
      | inl p ↦
          let same : t ≡ show_ℤ (pos (d.counter next_user_id + 1)) =
            ground (arith, registered_users d u now name) in
          rw (same_string_sound name u.username p, same) new_account
      | inr p ↦
          old_account name t (c.account name t (ground (arith, registered_users d u now name)))
    ];
  }

-- Whatever name and password a user has, `register_user` on a ready server with a consistent
-- database, and a counter below the greatest `int`, returns, and leaves a consistent database in
-- which the name is known.
pub register_user_keeps :
    {r : Redis} (laws : Documented r) {s : r.Store}
    → laws.Ready s
    → (u : User) (now : ℤ) → IsConsistent (laws.db s)
    → (laws.db s).counter next_user_id + 1 < 2 ^ 31
    → (code : ℤ) × (d : Db) × Returns laws (register_user r u now) s code d
      × IsConsistent d
      × (t : Bytes) × (d.hash users_key u.username ≡ some t)
register_user_keeps laws {s} ready u now c room =
    let d = laws.db s in
    elim (Option-cases (d.hash users_key u.username)) [
      | inl fresh ↦ (
        pos (d.counter next_user_id + 1),
        registered d u now,
        register_user_fresh laws d ready refl u now fresh room,
        registered-IsConsistent d u now c,
        show_ℤ (pos (d.counter next_user_id + 1)),
        rw (registered_users d u now, same_string_refl u.username),
      )
      | inr (t, taken) ↦
          (error_user_exists, d, register_user_taken laws d ready refl u now taken, c, t, taken)
    ]
