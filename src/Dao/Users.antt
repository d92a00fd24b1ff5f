-- ===== src/Dao/Users.antt =====
-- The user functions of server/dao.c. A function takes the time that `currentTimeMillis` returns
-- where it reads the clock. The callers overwrite `user->userId` with the result, so a function that
-- sets it only returns it. The fields of a `User` are strings (`msg2user` leaves them so).
pub mod Accounts
pub mod Presence
pub mod Wrapped
mod Examples
pub mod Refine
use chat_hub.Base.{not, [], ◌∷◌, length, ℤ, pos, negsuc, eq_ℤ, to_int, ◌==◌, if◌then◌else◌}
use chat_hub.Run.{deref, read_elem}
use chat_hub.Exec.{Exec, pure, lift, at_error, check, ◌>>=◌, ◌>>◌}
use chat_hub.Text.{Bytes, codes, same_string, store_string, show_ℤ, atoll}
use chat_hub.Config.{User, error_normal, error_user_exists, error_user_notexists, max_msg_data}
use chat_hub.Redis.{
  Redis, hexists, hget, hset, hmset, hmget, incr, reply_integer, reply_str, reply_elements, command,
}
use chat_hub.Dao.Keys.{users_key, next_user_id, user_key}

module _ (r : Redis) where
  unfoldable pub is_user_exists : Bytes → Exec r.Store ℤ
  is_user_exists username =
      at_error error_normal
        do reply ← command r (hexists users_key username); pure (to_int (reply_integer reply))

  -- an id that `INCR` makes, as an `int`
  unfoldable pub get_next_userid : Exec r.Store ℤ
  get_next_userid =
      at_error error_normal
        do reply ← command r (incr next_user_id); pure (to_int (reply_integer reply))

  unfoldable pub register_user : User → ℤ → Exec r.Store ℤ
  register_user user now = at_error error_normal do
    exists ← is_user_exists user.username
    check (not (eq_ℤ exists error_normal))
    if eq_ℤ exists (pos 0)
        then (do
          id ← get_next_userid
          _ ← command r (
              hmset (user_key id) (
                (codes "username", user.username)
                ∷ (codes "pass", user.pass)
                ∷ (codes "registerTime", show_ℤ now)
                ∷ []))
          _ ← command r (hset users_key user.username (show_ℤ id))
          pure id)
        else pure error_user_exists

  -- `if (!user->userId)`: the id that is stored under the name
  unfoldable pub find_id : User → Exec r.Store ℤ
  find_id user =
      if eq_ℤ user.user_id (pos 0)
      then (do
        reply ← command r (hget users_key user.username)
        s ← lift (deref (reply_str reply))
        pure (atoll s))
      else pure user.user_id

  unfoldable pub login_user : User → Exec r.Store ℤ
  login_user user = at_error error_normal do
    exists ← is_user_exists user.username
    check (not (eq_ℤ exists error_normal))
    if eq_ℤ exists (pos 0) then pure error_user_notexists else (do
      id ← find_id user
      reply ← command r (hmget (user_key id) (codes "username" ∷ codes "pass" ∷ []))
      check (length (reply_elements reply) == 2)
      e0 ← lift (read_elem (reply_elements reply) 0)
      name ← lift (deref e0)
      if same_string user.username name
          then (do
            e1 ← lift (read_elem (reply_elements reply) 1)
            pass ← lift (deref e1)
            if same_string user.pass pass then pure id else pure error_normal)
          else pure error_normal)

  unfoldable pub set_online : User → ℤ → ℤ → Exec r.Store ℤ
  set_online user fd now = at_error error_normal do
    _ ← command r (
        hmset (user_key user.user_id) (
          (codes "isOnline", show_ℤ (pos 1))
          ∷ (codes "sockfd", show_ℤ fd)
          ∷ (codes "lastOnlineTime", show_ℤ now)
          ∷ []))
    pure user.user_id

  unfoldable pub set_offline : User → ℤ → Exec r.Store ℤ
  set_offline user now = at_error error_normal do
    id ← find_id user
    _ ← command r (
        hmset (user_key id) (
          (codes "isOnline", show_ℤ (pos 0))
          ∷ (codes "sockfd", show_ℤ (negsuc 0))
          ∷ (codes "lastOnlineTime", show_ℤ now)
          ∷ []))
    pure id

  unfoldable pub logout_user : User → ℤ → Exec r.Store ℤ
  unfolding set_offline
  logout_user user now = set_offline user now

  unfoldable pub get_userid_by_name : Bytes → Exec r.Store ℤ
  get_userid_by_name username = at_error error_normal do
    reply ← command r (hget users_key username)
    s ← lift (deref (reply_str reply))
    id_str ← lift (store_string max_msg_data s)
    pure (atoll id_str)
