-- ===== src/Dao/Rooms.antt =====
-- The chat room and message functions of server/dao.c. `malloc` and `calloc` are taken to succeed.
pub mod Members
pub mod Saved
pub mod Log
pub mod Created
pub mod Left
pub mod Deleted
pub mod Refine
pub mod Presence
mod Examples
use chat_hub.Base.{
  ℕ, ◌+◌, not, Option, none, some, List, [], ◌∷◌, ◌++◌, length, ℤ, eq_ℤ, is_pos, to_int,
  if◌then◌else◌,
}
use chat_hub.Run.{Run, ok, deref, ◌>>=◌ as ◌and_then◌}
use chat_hub.Exec.{Exec, pure, lift, at_error, check, ◌>>=◌, ◌>>◌}
use chat_hub.Text.{Bytes, codes, store_string, load_string, show_ℤ, atoll}
use chat_hub.Config.{Message, error_normal, max_chars, max_msg_data}
use chat_hub.Redis.{
  Redis, hget, hmset, incr, sadd, srem, sismember, smembers, keys, del, reply_integer, reply_str,
  reply_elements, command,
}
use chat_hub.Dao.Keys.{user_key, chatroom_key, message_key, next_chatroom_id, next_msg_id}

-- the first loop of `get_fd_byid`: the ids above 0, as `int`
unfoldable pub user_ids : List (Option Bytes) → Run (List ℤ)
user_ids [] = ok []
user_ids (e ∷ es) = deref e and_then λ s. user_ids es and_then λ ids.
    let id = to_int (atoll s) in ok (if is_pos id then id ∷ ids else ids)

-- the message with its time set where it had none
unfoldable pub stamp : Message → ℤ → Message
stamp message now = if is_pos message.send_time then message else record message { send_time = now }

module _ (r : Redis) where
  -- its second loop. `acc` is what `fds` holds; where a command fails the function returns NULL, with
  -- the count so far in `size`.
  unfoldable pub collect_fds : List ℤ → List ℤ → Exec r.Store (Option (List ℤ) × ℕ)
  collect_fds [] acc = pure (some acc, length acc)
  collect_fds (id ∷ ids) acc =
      at_error (none, length acc)
        do
          reply ← command r (hget (user_key id) (codes "sockfd"))
          s ← lift (deref (reply_str reply))
          let fd = to_int (atoll s)
          collect_fds ids (if is_pos fd then acc ++ fd ∷ [] else acc)

  -- the descriptors, NULL for a failure, and `*size`
  unfoldable pub get_fd_byid : ℤ → Exec r.Store (Option (List ℤ) × ℕ)
  get_fd_byid chatroom_id =
      at_error (none, 0)
        do
          reply ← command r (smembers (chatroom_key chatroom_id))
          ids ← lift (user_ids (reply_elements reply))
          collect_fds ids []

  unfoldable pub get_next_chatroomid : Exec r.Store ℤ
  get_next_chatroomid =
      at_error error_normal
        do reply ← command r (incr next_chatroom_id); pure (to_int (reply_integer reply))

  -- the `int` that is passed for `%lld` is taken to be formatted as its number
  unfoldable pub create_chatroom : ℤ → ℤ → Exec r.Store ℤ
  create_chatroom user_id1 user_id2 = at_error error_normal do
    chatroom_id ← get_next_chatroomid
    check (not (eq_ℤ chatroom_id error_normal))
    _ ← command r (sadd (chatroom_key chatroom_id) (show_ℤ user_id1 ∷ show_ℤ user_id2 ∷ []))
    pure chatroom_id

  -- `strcpy(keys[i], reply->element[i]->str)` into 100 bytes
  unfoldable pub copy_keys : List (Option Bytes) → Run (List Bytes)
  copy_keys [] = ok []
  copy_keys (e ∷ es) = deref e and_then λ s.
      store_string 100 s and_then λ key. copy_keys es and_then λ ks. ok (key ∷ ks)

  -- a `DEL` that fails is passed over
  unfoldable pub del_keys : List Bytes → Exec r.Store (Unit {0})
  del_keys [] = pure tt
  del_keys (key ∷ ks) = (at_error tt do _ ← command r (del key); pure tt) >> del_keys ks

  unfoldable pub del_chatroom : ℤ → Exec r.Store ℤ
  del_chatroom chatroom_id = at_error error_normal do
    reply ← command r (keys (chatroom_key chatroom_id ++ codes "*"))
    ks ← lift (copy_keys (reply_elements reply))
    del_keys ks
    pure chatroom_id

  unfoldable pub leave_chatroom : ℤ → Bytes → Exec r.Store ℤ
  leave_chatroom chatroom_id username =
      at_error error_normal
        do _ ← command r (srem (chatroom_key chatroom_id) username); pure chatroom_id

  unfoldable pub is_user_exists_inchatroom : ℤ → Bytes → Exec r.Store ℤ
  is_user_exists_inchatroom chatroom_id username = at_error error_normal do
    reply ← command r (sismember (chatroom_key chatroom_id) username)
    pure (to_int (reply_integer reply))

  unfoldable pub get_next_msgid : ℤ → Exec r.Store ℤ
  get_next_msgid chatroom_id =
      at_error error_normal
        do reply ← command r (incr (next_msg_id chatroom_id)); pure (to_int (reply_integer reply))

  -- The id, and the message as the call leaves it. The two `%s` read the arrays up to their NUL. The
  -- `int` that is passed for the `%lld` of the key is taken to be formatted as its number.
  unfoldable pub save_message : ℤ → Message → ℤ → Exec r.Store (ℤ × Message)
  save_message chatroom_id message now = do
    msg_id ← get_next_msgid chatroom_id
    if eq_ℤ msg_id error_normal
        then pure (error_normal, message)
        else (let m = stamp message now in
            at_error (error_normal, m)
              do
                sender_name ← lift (load_string max_chars m.sender_name)
                msg ← lift (load_string max_msg_data m.msg)
                _ ← command r (
                    hmset (message_key chatroom_id msg_id) (
                      (codes "msg", msg)
                      ∷ (codes "senderName", sender_name)
                      ∷ (codes "sendTime", show_ℤ m.send_time)
                      ∷ (codes "type", show_ℤ m.type)
                      ∷ []))
                pure (msg_id, m))
