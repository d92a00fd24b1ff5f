-- ===== src/Client.antt =====
-- client/client.c: the callbacks of the client, as steps on its state. What is typed and received is
-- given to a step, without NUL bytes; `Outside` gives the clock and the memory that is not set.
pub mod Login
pub mod Typed
pub mod Chat
pub mod Main
pub mod Answer
mod Examples
use chat_hub.Base.{
  ℕ, ◌/◌, ◌%◌, Bool, true, false, none, some, List, [], ◌∷◌, ◌++◌, length, take, ℤ, pos, eq_ℤ,
  is_pos, to_int, ◌==◌, if◌then◌else◌,
}
use chat_hub.Run.{Run, ok, deref, ◌>>=◌}
use chat_hub.Text.{
  show_ℤ, Bytes, codes, load_string, store_string, strncpy, cut_at, atoll, scan_int, scan_word,
}
use chat_hub.Config.{
  User, Message, new_user, new_message, user_text, max_buff, max_chars, max_msg_data, text, login,
}
use chat_hub.Message.{Parson, pack_message, unpack_message}
use chat_hub.Server.{Outside}
use chat_hub.Server.Input.{c_string}

-- `written`: what `bufferevent_write` has been given. `printed`: the texts that `printf` has
-- printed.
-- `stopped`: the event loop was told to stop.
pub record Client : Type 0 where
  pub user : User
  pub is_login : Bool
  pub written : List Bytes
  pub printed : List Bytes
  pub stopped : Bool

abbrev pub new_client : Client
new_client = record {
  user = new_user;
  is_login = false;
  written = [];
  printed = [];
  stopped = false;
}

abbrev pub print : Client → Bytes → Client
print client s = record client { printed = client.printed ++ s ∷ [] }

abbrev pub help : Bytes
help =
    codes "Commands:"
    ++ 10 ∷ codes "1->Login"
    ++ 10 ∷ codes "2->Register"
    ++ 10 ∷ codes "[chatroom id]:message"
    ++ 10 ∷ []

unfoldable pub print_help : Client → Client
print_help client = print client help

-- the two strings are arrays of MAX_CHARS bytes
unfoldable pub user_msg : Outside → Bytes → Bytes → ℤ → Run Message
user_msg o username pass type = load_string max_chars username >>= λ username.
    load_string max_chars pass >>= λ pass.
    store_string max_msg_data (user_text username pass o.now) >>= λ format. ok (record new_message {
      msg = strncpy max_msg_data format;
      sender_name = strncpy max_chars username;
      type = type;
      send_time = o.now;
    })

unfoldable pub chat_msg : Outside → Bytes → Bytes → ℤ → Run Message
chat_msg o sender_name msg group_id = store_string max_msg_data msg >>= λ msg.
    load_string max_chars sender_name >>= λ sender_name. ok (record new_message {
      msg = msg;
      sender_name = strncpy max_chars sender_name;
      type = text;
      send_time = o.now;
      group_id = group_id;
    })

-- `sscanf(buf, "%d:%s", &chatroom_id, msg)`: the room, or what the variable held, and one word
abbrev pub scan_msg : Bytes → Run Bytes
scan_msg [] = ok []
scan_msg (c ∷ s) = elim (scan_word s) [
  | none ↦ ok []
  | some r ↦ if c == b':' then store_string max_msg_data r.0 else ok []
]

unfoldable pub scan_chat : Outside → Bytes → Run (ℤ × Bytes)
scan_chat o buf = elim (scan_int buf) [
  | none ↦ ok (o.junk, [])
  | some r ↦ scan_msg r.1 >>= λ msg. ok (to_int r.0, msg)
]

module _ (p : Parson) (o : Outside) where
  -- `json_msg`, and `bufferevent_write` of `json_size` bytes
  unfoldable pub send_msg : Client → Message → Run Client
  send_msg client message = pack_message p message >>= λ json. deref json.0 >>= λ s.
      ok (record client { written = client.written ++ take json.1 (s ++ 0 ∷ o.beyond) ∷ [] })

  unfoldable pub send_chat : Client → Bytes → Run Client
  send_chat client buf = scan_chat o buf >>= λ r.
      chat_msg o client.user.username r.1 r.0 >>= λ message. send_msg client message

  -- the case 1: `typed` is what `read` puts into `username`, `password` what `getpass` returns
  unfoldable pub send_login : Client → Bytes → Bytes → Run Client
  send_login client typed password =
      load_string max_chars (cut_at 10 (strncpy max_chars typed)) >>= λ name.
      let pass = strncpy max_chars password in
      load_string max_chars (cut_at 10 pass) >>= λ line.
      let username = take (length line) name in
      user_msg o username pass login >>= λ message.
      send_msg (record client { user = record client.user { username = username; pass = pass } })
        message

  unfoldable pub stdin_cb : Client → Bytes → Bytes → Bytes → Run Client
  stdin_cb client line typed password =
      load_string max_buff (cut_at 10 (take max_buff line)) >>= λ buf.
      if client.is_login
      then send_chat client buf
      else if eq_ℤ (to_int (atoll buf)) (pos 1)
      then send_login (print client (codes "Username(less than 20 words):" ++ 10 ∷ [])) typed
          password
      else ok (print_help (print client (codes "Input error" ++ 10 ∷ [])))

-- "Welcome!!!\nYou're login as %s\n"; the name is shorter than its array, as `send_login` leaves it
abbrev pub welcome : Bytes → Bytes
welcome username = codes "Welcome!!!" ++ 10 ∷ codes "You're login as " ++ username ++ 10 ∷ []

-- the case LOGIN of `read_cb`
unfoldable pub login_answer : Client → Message → Run Client
login_answer client message = load_string max_msg_data message.msg >>= λ msg.
    let user_id = atoll msg in
    ok (
      if is_pos user_id
      then print
          (record client { user = record client.user { user_id = user_id }; is_login = true })
          (welcome client.user.username)
      else print (record client { user = record client.user { username = []; pass = [] } })
          (codes "Login error!" ++ 10 ∷ []))

-- "%ld %lld:%s:%s\n"
unfoldable pub message_line : Message → Bytes
message_line message =
    show_ℤ message.send_time
    ++ 32 ∷ show_ℤ message.group_id
    ++ b':' ∷ message.sender_name
    ++ b':' ∷ message.msg
    ++ 10 ∷ []

unfoldable pub show_message : Client → Message → Run Client
show_message client message = load_string max_chars message.sender_name >>= λ sender_name.
    load_string max_msg_data message.msg >>= λ msg. ok (print client (message_line message))

module _ (p : Parson) where
  unfoldable pub read_cb : Client → Bytes → Run Client
  read_cb client input =
      let zero_left : Bytes = if length (take max_buff input) == max_buff then [] else 0 ∷ [] in
      c_string (take max_buff input ++ zero_left) >>= λ buf. unpack_message p buf >>= λ message.
      if eq_ℤ message.type login
      then login_answer client message
      else if eq_ℤ message.type text
      then show_message client message
      else ok client

-- `events & BEV_EVENT_CONNECTED` (128), and `events && …`
unfoldable pub event_cb : Client → ℕ → Client
event_cb client events =
    if (events / 128) % 2 == 1
    then print_help client
    else if events == 0
    then client
    else record client { stopped = true }
