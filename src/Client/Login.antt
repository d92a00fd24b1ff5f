-- ===== src/Client/Login.antt =====
-- The login of the client (`user_msg` and `stdin_cb` of client/client.c).
use chat_hub.Base.{◌<◌, ◌^◌, ◌≡◌, refl, ℤ, abs}
use chat_hub.Run.{ok}
use chat_hub.Text.{Bytes}
use chat_hub.Config.{Message, new_user, new_message, user_text, msg2user, max_chars, max_msg_data}
use chat_hub.Config.RoundTrip.{IsName, msg2user-user_text, length-user_text}
use chat_hub.Message.RoundTrip.{strncpy_fits, load_fits}
use chat_hub.Server.{Outside}
use chat_hub.Client.{user_msg}

-- the message of a name and a password
abbrev pub request : Outside → Bytes → Bytes → ℤ → Message
request o name pass type = record new_message {
  msg = user_text name pass o.now;
  sender_name = name;
  type = type;
  send_time = o.now;
}

pub user_msg_lem :
    (o : Outside) (name pass : Bytes) (type : ℤ)
    → IsName name
    → IsName pass
    → abs o.now < 10 ^ 19
    → user_msg o name pass type ≡ ok (request o name pass type)
unfolding user_msg
user_msg_lem o name pass type is_name is_pass in_range =
    let fits = length-user_text is_name is_pass o.now in_range in
    rw (
      load_fits max_chars name is_name.short,
      load_fits max_chars pass is_pass.short,
      load_fits max_msg_data (user_text name pass o.now) fits,
      strncpy_fits max_msg_data (user_text name pass o.now) fits,
      strncpy_fits max_chars name is_name.short,
    )

-- A name and a password of 1 to 19 bytes without white space: the message that the client makes of
-- them carries the name as its sender and the type that was asked for, and `msg2user` of the server
-- reads from it the name, the password and the time, whatever its uninitialised variable holds.
pub msg2user-user_msg :
    (o : Outside) (name pass : Bytes) (type junk : ℤ)
    → IsName name
    → IsName pass
    → abs o.now < 10 ^ 19
    → (m : Message) × (user_msg o name pass type ≡ ok m)
      × (m.sender_name ≡ name)
      × (m.type ≡ type)
      × (msg2user m junk
          ≡ ok (record new_user { username = name; pass = pass; register_time = o.now }))
msg2user-user_msg o name pass type junk is_name is_pass in_range =
    let m = request o name pass type in
    (
      m,
      user_msg_lem o name pass type is_name is_pass in_range,
      refl,
      refl,
      msg2user-user_text is_name is_pass o.now m junk in_range refl,
    )
