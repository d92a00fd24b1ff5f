-- ===== src/Dao/Users/Accounts.antt =====
-- Registration and login against the accounts that the database holds.
pub mod Fields
pub mod Login
pub mod Register
use chat_hub.Base.{ℕ, ◌+◌, ◌≤◌, ◌<◌, ◌≡◌, some, [], ◌∷◌, ℤ, pos}
use chat_hub.Text.{Bytes, codes, show_ℤ}
use chat_hub.Config.{User}
use chat_hub.Redis.Documented.{Db, put_field, put_fields, with_hash, with_counter}
use chat_hub.Dao.Keys.{users_key, next_user_id, user_key}

-- The account under a name: the id that `users` holds for it, and the name and the password of that
-- id. Ids start at 1 and are not above the counter.
pub record Account (d : Db) (name t : Bytes) : Type 0 where
  pub id : ℕ
  pub positive : 0 < id
  pub issued : id ≤ d.counter next_user_id
  pub shown : t ≡ show_ℤ (pos id)
  pub name_kept : d.hash (user_key (pos id)) (codes "username") ≡ some name
  pub pass : Bytes
  pub pass_kept : d.hash (user_key (pos id)) (codes "pass") ≡ some pass

-- every name in `users` has its account
pub record IsConsistent (d : Db) : Type 0 where
  pub account : (name t : Bytes) → d.hash users_key name ≡ some t → Account d name t

-- what `register_user` leaves
unfoldable pub registered : Db → User → ℤ → Db
registered d user now =
    let id = pos (d.counter next_user_id + 1) in
    let counted = with_counter d next_user_id (d.counter next_user_id + 1) in
    let stored = with_hash counted (
      put_fields d.hash (user_key id) (
        (codes "username", user.username)
        ∷ (codes "pass", user.pass)
        ∷ (codes "registerTime", show_ℤ now)
        ∷ [])) in
    with_hash stored (put_field stored.hash users_key user.username (show_ℤ id))
