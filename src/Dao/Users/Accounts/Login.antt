-- ===== src/Dao/Users/Accounts/Login.antt =====
-- `login_user`.
use chat_hub.Base.{
  ◌⊎◌, inl, inr, Option-cases, none, map, ◌+◌, ◌<◌, ◌^◌, ◌≡◌, refl, ap, ◌∙◌, true, false, some, [],
  ◌∷◌, ℤ, pos, if◌then◌else◌,
}
use chat_hub.Text.{Bytes, codes, same_string, atoll}
use chat_hub.Text.Compare.{same_string_refl}
use chat_hub.Text.Decimal.{atoll-show_ℤ}
use chat_hub.Exec.{◌>>=◌}
use chat_hub.Config.{User, new_user, error_user_notexists, error_normal}
use chat_hub.Redis.{Redis, str, array}
use chat_hub.Redis.Documented.{bulk, Db, Documented, name_index, user_hash}
use chat_hub.Redis.Returns.{
  Returns, Returns-pure, Returns-bind, Returns-if, Returns-if_true, Returns-at_error, Returns-cast,
}
use chat_hub.Redis.Commands.{hget_at, hmget_at}
use chat_hub.Dao.Keys.{users_key, next_user_id, user_key}
use chat_hub.Dao.Users.{find_id, register_user, login_user}
use chat_hub.Dao.Users.Accounts.{Account, IsConsistent, registered}
use chat_hub.Dao.Users.Accounts.Fields.{registered_users}
use chat_hub.Dao.Users.Accounts.Register.{register_user_fresh, new_account, is_user_exists_lem}

-- A name that is not in the database is refused, whatever the password.
pub login_user_unknown :
    {r : Redis} (laws : Documented r) (d : Db) {s : r.Store}
    → laws.Ready s
    → laws.db s ≡ d
    → (u : User) → d.hash users_key u.username ≡ none
    → Returns laws (login_user r u) s error_user_notexists d
unfolding login_user
login_user_unknown laws d ready e u unknown = Returns-at_error laws error_normal (
    Returns-bind laws _ (is_user_exists_lem laws d ready e u.username false (rw unknown))
      λ s1 r1 e1. Returns-pure laws error_user_notexists s1 r1 e1)

module _ {r : Redis} (laws : Documented r) (d : Db) (u : User) {t : Bytes}
    (known : d.hash users_key u.username ≡ some t) (a : Account d u.username t)
    (zero_id : u.user_id ≡ pos 0) where
  -- a user without an id is found by the name
  pub find_id_known :
      {s : r.Store} → laws.Ready s → laws.db s ≡ d → Returns laws (find_id r u) s (pos a.id) d
  unfolding find_id
  find_id_known ready e = rw zero_id (
      Returns-bind laws _
        (Returns-cast laws {a' = str t} (hget_at laws d ready e name_index u.username)
          (ap bulk known) refl)
        λ s1 r1 e1.
          Returns-cast laws {a' = pos a.id} (Returns-pure laws (atoll t) s1 r1 e1)
            (ap atoll a.shown ∙ atoll-show_ℤ (pos a.id)) refl)

  stored :
      array (map (d.hash (user_key (pos a.id))) (codes "username" ∷ codes "pass" ∷ []))
      ≡ array (some u.username ∷ some a.pass ∷ [])
  stored = rw (a.name_kept, a.pass_kept)

  -- A name with its account: the right password returns the id, any other -1.
  pub login_user_known :
      {s : r.Store}
      → laws.Ready s
      → laws.db s ≡ d
      → Returns laws
          (login_user r u)
          s
          (if same_string u.pass a.pass then pos a.id else error_normal)
          d
  unfolding login_user
  login_user_known ready e = Returns-at_error laws error_normal (
      Returns-bind laws _ (is_user_exists_lem laws d ready e u.username true (rw known)) λ s1 r1 e1.
        Returns-bind laws _ (find_id_known r1 e1) λ s2 r2 e2.
          Returns-bind laws _
            (Returns-cast laws {a' = array (some u.username ∷ some a.pass ∷ [])}
              (hmget_at laws d r2 e2 (user_hash (pos a.id)) _) stored refl)
            λ s3 r3 e3.
              Returns-if_true laws (same_string u.username u.username) _ _
                (same_string_refl u.username)
                (Returns-if laws (same_string u.pass a.pass) (pos a.id) error_normal s3 r3 e3))

-- A login (of a user without an id) on a ready server with a consistent database returns and changes
-- nothing. If the name is not in `users`, the result is -3. Otherwise the name has its account, and
-- the result is the account's id for the account's password and -1 for any other.
pub login_user_result :
    {r : Redis} (laws : Documented r) (d : Db) {s : r.Store}
    → laws.Ready s
    → laws.db s ≡ d
    → IsConsistent d
    → (u : User) → u.user_id ≡ pos 0
    → ((d.hash users_key u.username ≡ none)
        × Returns laws (login_user r u) s error_user_notexists d)
      ⊎ ((t : Bytes) × (d.hash users_key u.username ≡ some t)
          × (a : Account d u.username t) × Returns laws
              (login_user r u)
              s
              (if same_string u.pass a.pass then pos a.id else error_normal)
              d)
login_user_result laws d ready e c u zero_id = elim (Option-cases (d.hash users_key u.username)) [
  | inl unknown ↦ inl (unknown, login_user_unknown laws d ready e u unknown)
  | inr (t, known) ↦
      let a = c.account u.username t known in
      inr (t, known, a, login_user_known laws d u known a zero_id ready e)
]

-- Registration and then a login under the same name, with any password, as `msg2user` makes the
-- user: the login returns the id of the registration if the passwords are the same, and -1 else, and
-- the database is what the registration left. The name must be new, and the counter below the
-- greatest `int`.
pub login-register :
    {r : Redis} (laws : Documented r) {s : r.Store}
    → laws.Ready s
    → (u : User) (now : ℤ) (pass : Bytes) (time : ℤ) → (laws.db s).hash users_key u.username ≡ none
    → (laws.db s).counter next_user_id + 1 < 2 ^ 31
    → Returns laws
        (register_user r u now >>= λ _.
          login_user r
            (record new_user { username = u.username; pass = pass; register_time = time }))
        s
        (if same_string pass u.pass
          then pos ((laws.db s).counter next_user_id + 1)
          else error_normal)
        (registered (laws.db s) u now)
unfolding new_account
login-register {r} laws {s} ready u now pass time fresh room =
    let d = laws.db s in
    Returns-bind laws _ (register_user_fresh laws d ready refl u now fresh room) λ s1 r1 e1.
      login_user_known laws (registered d u now)
        (record new_user { username = u.username; pass = pass; register_time = time })
        (rw (registered_users d u now, same_string_refl u.username)) (new_account d u now) refl r1
        e1
