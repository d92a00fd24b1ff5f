-- ===== src/Server/Keeps/Handlers.antt =====
-- The handlers and the read callback of server/server.c leave the table of clients alone.
use chat_hub.Base.{ℕ, List, [], ◌∷◌, ℤ, Option}
use chat_hub.Text.{Bytes}
use chat_hub.Config.{User, Message}
use chat_hub.Message.{Parson}
use chat_hub.Dao.Interface.{Dao}
use chat_hub.Server.{
  Outside, write_json, handle_register, online_if_logged_in, handle_login, handle_logout, send_to,
  chat_loop, handle_chat, dispatch, handle_all_message,
}
use chat_hub.Server.Input.{readcb}
use chat_hub.Server.Keeps.{Keeps, Keeps-pure, keeps_rules}

module _ (dao : Dao) (p : Parson) (o : Outside) where
  write_json-Keeps : (bev : ℕ) (json : Option Bytes) → Keeps (write_json dao p o bev json)
  unfolding write_json
  write_json-Keeps bev json = search keeps_rules

  handle_register-Keeps : (this : ℕ) (m : Message) → Keeps (handle_register dao p o this m)
  unfolding handle_register
  handle_register-Keeps this m = search (keeps_rules, write_json-Keeps)

  online-Keeps : (user : User) (id fd : ℤ) → Keeps (online_if_logged_in dao p o user id fd)
  unfolding online_if_logged_in
  online-Keeps user id fd = search keeps_rules

  handle_login-Keeps :
      (getfd : ℕ → ℤ) (this : ℕ) (m : Message) → Keeps (handle_login dao p o getfd this m)
  unfolding handle_login
  handle_login-Keeps getfd this m = search (keeps_rules, write_json-Keeps, online-Keeps) depth 12

  handle_logout-Keeps : (this : ℕ) (m : Message) → Keeps (handle_logout dao p o this m)
  unfolding handle_logout
  handle_logout-Keeps this m = search (keeps_rules, write_json-Keeps)

  send_to-Keeps : (bev : ℕ) (m : Message) → Keeps (send_to dao p o bev m)
  unfolding send_to
  send_to-Keeps bev m = search (keeps_rules, write_json-Keeps)

  chat_loop-Keeps : (from : ℕ) (fds : List ℤ) (m : Message) → Keeps (chat_loop dao p o from fds m)
  unfolding chat_loop
  chat_loop-Keeps from [] m = Keeps-pure m
  chat_loop-Keeps from (fd ∷ fds) m =
      search (keeps_rules, send_to-Keeps, chat_loop-Keeps from fds) depth 12

  handle_chat-Keeps : (from : ℕ) (m : Message) → Keeps (handle_chat dao p o from m)
  unfolding handle_chat
  handle_chat-Keeps from m = search (keeps_rules, chat_loop-Keeps)

  dispatch-Keeps : (getfd : ℕ → ℤ) (from : ℕ) (m : Message) → Keeps (dispatch dao p o getfd from m)
  unfolding dispatch
  dispatch-Keeps getfd from m =
      search
        (
          keeps_rules, handle_login-Keeps, handle_logout-Keeps, handle_register-Keeps,
          handle_chat-Keeps,
        )
        depth 12

  handle_all_message-Keeps :
      (getfd : ℕ → ℤ) (from : ℕ) (m : Message) → Keeps (handle_all_message dao p o getfd from m)
  unfolding handle_all_message
  handle_all_message-Keeps getfd from m = search (keeps_rules, dispatch-Keeps) depth 12

  -- Whatever bytes a client sends, and whatever the handlers of its message do: where `readcb`
  -- returns, the table of clients is what it was.
  pub readcb-Keeps :
      (getfd : ℕ → ℤ) (bev : ℕ) (uninitialised input : Bytes)
      → Keeps (readcb dao p getfd o bev uninitialised input)
  unfolding readcb
  readcb-Keeps getfd bev uninitialised input =
      search (keeps_rules, handle_all_message-Keeps) depth 12
