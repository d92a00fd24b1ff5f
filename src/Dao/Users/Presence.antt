-- ===== src/Dao/Users/Presence.antt =====
-- `set_online`, `logout_user` and the descriptor that they leave.
use chat_hub.Base.{◌≡◌, ap, ◌∙◌, none, some, [], ◌∷◌, ℤ, pos, negsuc, arith}
use chat_hub.Text.{Bytes, codes, show_ℤ, same_string}
use chat_hub.Text.Compare.{same_string_refl}
use chat_hub.Run.{fault, null_pointer}
use chat_hub.Config.{User, error_normal}
use chat_hub.Redis.{Redis}
use chat_hub.Redis.Documented.{
  bulk, Db, Documented, name_index, user_hash, put_field, put_fields, with_hash,
}
use chat_hub.Redis.Returns.{Returns, Returns-pure, Returns-bind, Returns-at_error}
use chat_hub.Redis.Commands.{hmset_at}
use chat_hub.Dao.Keys.{users_key, user_key}
use chat_hub.Dao.Users.{find_id, set_online, logout_user}
use chat_hub.Dao.Users.Accounts.{Account}
use chat_hub.Dao.Users.Accounts.Login.{find_id_known}

-- the database with the presence of a user written
unfoldable pub present : Db → ℤ → ℤ → ℤ → ℤ → Db
present d id online fd now = with_hash d (
    put_fields d.hash (user_key id) (
      (codes "isOnline", show_ℤ online)
      ∷ (codes "sockfd", show_ℤ fd)
      ∷ (codes "lastOnlineTime", show_ℤ now)
      ∷ []))

pub present_sockfd :
    (d : Db) (id online fd now : ℤ)
    → (present d id online fd now).hash (user_key id) (codes "sockfd") ≡ some (show_ℤ fd)
unfolding present put_field put_fields with_hash same_string
present_sockfd d id online fd now = rw (same_string_refl (user_key id))

-- the name and the password, and the index of names, stay
pub present_kept :
    (d : Db) (id online fd now : ℤ) (k : Bytes)
    → ((present d id online fd now).hash k (codes "username") ≡ d.hash k (codes "username"))
      × ((present d id online fd now).hash k (codes "pass") ≡ d.hash k (codes "pass"))
unfolding present put_field put_fields with_hash same_string
present_kept d id online fd now k = ground arith

module _ {r : Redis} (laws : Documented r) (d : Db) {s : r.Store} (ready : laws.Ready s)
    (e : laws.db s ≡ d) (u : User) (now : ℤ) where
  -- The descriptor is stored under the id.
  pub set_online_lem :
      (fd : ℤ)
      → Returns laws (set_online r u fd now) s u.user_id (present d u.user_id (pos 1) fd now)
  unfolding set_online present
  set_online_lem fd = Returns-at_error laws error_normal (
      Returns-bind laws _ (hmset_at laws d ready e (user_hash u.user_id) _)
        λ s1 r1 e1. Returns-pure laws u.user_id s1 r1 e1)

  -- The user of an account is marked offline, with the descriptor -1.
  pub logout_user_known :
      {t : Bytes}
      → d.hash users_key u.username ≡ some t
      → (a : Account d u.username t) → u.user_id ≡ pos 0
      → Returns laws
          (logout_user r u now)
          s
          (pos a.id)
          (present d (pos a.id) (pos 0) (negsuc 0) now)
  unfolding logout_user present
  logout_user_known known a zero_id = Returns-at_error laws error_normal (
      Returns-bind laws _ (find_id_known laws d u known a zero_id ready e) λ s1 r1 e1.
        Returns-bind laws _ (hmset_at laws d r1 e1 (user_hash (pos a.id)) _)
          λ s2 r2 e2. Returns-pure laws (pos a.id) s2 r2 e2)

  -- A logout under a name that nobody registered reads through a NULL reply string.
  pub logout_user_unknown :
      d.hash users_key u.username ≡ none
      → u.user_id ≡ pos 0
      → logout_user r u now s ≡ fault null_pointer
  unfolding logout_user find_id
  logout_user_unknown unknown zero_id =
      let law = laws.hget_law s u.username name_index ready in
      let reply = ap (λ (x : Db). bulk (x.hash users_key u.username)) e ∙ ap bulk unknown in
      rw (zero_id, law.run, reply)
