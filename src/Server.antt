-- ===== src/Server.antt =====
-- server/server.c: the handlers of messages and the callbacks of libevent. A `bufferevent` is a
-- pointer, as a number with 0 for NULL; libevent gives its descriptor (`bufferevent_getfd`). A
-- handler is a step on the state: the table of clients, the database, and what
-- `bufferevent_write` has been given, in order. `calloc` is taken to succeed.
pub mod Dispatch
pub mod Request
pub mod Chat
pub mod Input
pub mod Steps
pub mod Login
pub mod Accounts
pub mod Keeps
pub mod Clients
pub mod Loop
pub mod Main
pub mod Samples
mod Examples
use chat_hub.Base.{
  ℕ, zero, suc, ◌+◌, ◌||◌, Option, none, some, List, [], ◌∷◌, ◌++◌, take, ℤ, pos, negsuc, eq_ℤ,
  is_pos, to_int, ◌==◌, if◌then◌else◌,
}
use chat_hub.Run.{Run, ok, fault, out_of_bounds, null_pointer, deref, read_elem}
use chat_hub.Exec.{Exec, Exit, value, pure, lift, ◌>>=◌, ◌>>◌}
use chat_hub.Text.{Bytes, show_ℤ}
use chat_hub.Config.{
  User, Message, msg2user, message_types, max_buff, text, image, login, register, logout,
}
use chat_hub.Hashtable.{HashMap, hash_get}
use chat_hub.Message.{Parson, pack_message}
use chat_hub.Dao.Interface.{Dao}

-- What a handler finds outside: the clock, what the uninitialised variable of `msg2user` holds, and
-- the memory behind a JSON text.
pub record Outside : Type 0 where
  pub now : ℤ
  pub junk : ℤ
  pub beyond : Bytes

pub record State (S : Type 0) : Type 0 where
  pub clients : HashMap
  pub store : S
  pub written : List (ℕ × Bytes)

module _ {S A : Type 0} where
  abbrev pub with_store : State S → Run (Exit A × S) → Run (Exit A × State S)
  with_store st (ok (x, s)) = ok (x, record st { store = s })
  with_store st (fault e) = fault e

  -- a function of dao.c
  abbrev pub on_db : Exec S A → Exec (State S) A
  on_db m st = with_store st (m st.store)

  -- a function of the table that does not change it
  abbrev pub on_clients : (HashMap → Run A) → Exec (State S) A
  on_clients f st = lift (f st.clients) st

module _ {S : Type 0} where
  abbrev pub write : ℕ → Bytes → Exec (State S) (Unit {0})
  write bev bytes st = ok (value tt, record st { written = st.written ++ (bev, bytes) ∷ [] })

  abbrev pub put_clients : HashMap → Exec (State S) (Unit {0})
  put_clients hm st = ok (value tt, record st { clients = hm })

-- `bufferevent_write(bev, json, MAX_BUFF)`: the text, its NUL and the memory behind it
unfoldable pub buffer_of : Bytes → Bytes → Bytes
buffer_of json beyond = take max_buff (json ++ 0 ∷ beyond)

-- `sprintf(id, "%lld", …); strcpy(message->msg, id)` and the type of the answer; 2048 bytes hold
-- every `long long`.
unfoldable pub answer : Message → ℤ → ℤ → Message
answer message type id = record message { type = type; msg = show_ℤ id }

-- `fds[0]` where `get_fd_byid` has failed: NULL, with the count that it reached
unfoldable pub fds_of : Option (List ℤ) × ℕ → Run (List ℤ)
fds_of (none, zero) = ok []
fds_of (none, suc n) = fault null_pointer
fds_of (some fds, n) = ok fds

-- `message_types[type]`, which is printed
unfoldable pub type_index : ℤ → Run ℕ
type_index (pos n) = ok n
type_index (negsuc n) = fault out_of_bounds

module _ (dao : Dao) (p : Parson) (o : Outside) where
  unfoldable pub write_json : ℕ → Option Bytes → Exec (State dao.Store) (Unit {0})
  write_json bev json = do text ← lift (deref json); write bev (buffer_of text o.beyond)

  unfoldable pub handle_register : ℕ → Message → Exec (State dao.Store) ℤ
  handle_register this message = do
    user ← lift (msg2user message o.junk)
    id ← on_db (dao.register_user user o.now)
    json ← lift (pack_message p (answer message register id))
    write_json this json.0
    pure (to_int id)

  -- `if (rc > 0) set_online(user, …)`
  unfoldable pub online_if_logged_in : User → ℤ → ℤ → Exec (State dao.Store) (Unit {0})
  online_if_logged_in user id fd =
      if is_pos (to_int id)
      then (do _ ← on_db (dao.set_online (record user { user_id = id }) fd o.now); pure tt)
      else pure tt

  unfoldable pub handle_login : (ℕ → ℤ) → ℕ → Message → Exec (State dao.Store) ℤ
  handle_login bufferevent_getfd this message = do
    user ← lift (msg2user message o.junk)
    id ← on_db (dao.login_user user)
    json ← lift (pack_message p (answer message login id))
    online_if_logged_in user id (bufferevent_getfd this)
    write_json this json.0
    pure (to_int id)

  unfoldable pub handle_logout : ℕ → Message → Exec (State dao.Store) ℤ
  handle_logout this message = do
    user ← lift (msg2user message o.junk)
    id ← on_db (dao.logout_user user o.now)
    json ← lift (pack_message p (answer message logout id))
    write_json this json.0
    pure (to_int id)

  -- `if (recv_bevs[i] != NULL)`
  unfoldable pub send_to : ℕ → Message → Exec (State dao.Store) (Unit {0})
  send_to bev message =
      if bev == 0 then pure tt else (do json ← lift (pack_message p message); write_json bev json.0)

  -- the loop of `handleChat`, which leaves the message as `save_message` leaves it
  unfoldable pub chat_loop : ℕ → List ℤ → Message → Exec (State dao.Store) Message
  chat_loop from [] message = pure message
  chat_loop from (fd ∷ fds) message = do
    bev ← on_clients (λ hm. hash_get hm fd)
    if bev == from then chat_loop from fds message else (do
      send_to bev message
      saved ← on_db (dao.save_message message.group_id message o.now)
      chat_loop from fds saved.1)

  unfoldable pub handle_chat : ℕ → Message → Exec (State dao.Store) Message
  handle_chat from message = do
    found ← on_db (dao.get_fd_byid message.group_id)
    fds ← lift (fds_of found)
    chat_loop from fds message

  unfoldable pub dispatch : (ℕ → ℤ) → ℕ → Message → Exec (State dao.Store) (Unit {0})
  dispatch bufferevent_getfd from message =
      if eq_ℤ message.type login
      then (do _ ← handle_login bufferevent_getfd from message; pure tt)
      else if eq_ℤ message.type logout
      then (do _ ← handle_logout from message; pure tt)
      else if eq_ℤ message.type register
      then (do _ ← handle_register from message; pure tt)
      else if eq_ℤ message.type text || eq_ℤ message.type image
      then (do _ ← handle_chat from message; pure tt)
      else pure tt

  unfoldable pub handle_all_message : (ℕ → ℤ) → ℕ → Message → Exec (State dao.Store) (Unit {0})
  handle_all_message bufferevent_getfd from message = do
    i ← lift (type_index message.type)
    _ ← lift (read_elem message_types i)
    dispatch bufferevent_getfd from message
