-- ===== src/Config.antt =====
-- lib/config.h and lib/config.c: the constants, the user and the message, and the text that carries
-- a user in a message. `calloc` is taken to succeed. A `char` array is its bytes before the NUL; an
-- array without a NUL (as `strncpy` leaves one) is all its bytes, and cannot be read as a string.
pub mod Types
pub mod Defines
pub mod Names
pub mod Clock
pub mod RoundTrip
mod Examples
use chat_hub.Base.{
  ℕ, ◌+◌, ◌*◌, ◌/◌, Option, none, some, List, [], ◌∷◌, ◌++◌, ℤ, pos, negsuc, eq_ℤ, if◌then◌else◌,
}
use chat_hub.Run.{Run, ok, ◌>>=◌}
use chat_hub.Text.{
  Bytes, codes, same_string, store_string, load_string, show_ℤ, scan_int, scan_word,
}
use Prim.Native.String.{String}
use chat_hub.Config.Types
use chat_hub.Config.Types.{MessageType, code}

abbrev pub max_msg_data : ℕ
max_msg_data = 2048

abbrev pub max_buff : ℕ
max_buff = 4096

abbrev pub max_chars : ℕ
max_chars = 20

abbrev pub port : ℕ
port = 3477

abbrev pub db_ip : Bytes
db_ip = codes "127.0.0.1"

abbrev pub db_port : ℕ
db_port = 6379

abbrev pub error_normal : ℤ
error_normal = negsuc 0

abbrev pub error_user_exists : ℤ
error_user_exists = negsuc 1

abbrev pub error_user_notexists : ℤ
error_user_notexists = negsuc 2

-- the codes of `MessageType` that the programs handle
abbrev pub text : ℤ
text = pos (code MessageType.text)

abbrev pub image : ℤ
image = pos (code MessageType.image)

abbrev pub login : ℤ
login = pos (code MessageType.login)

abbrev pub register : ℤ
register = pos (code MessageType.register)

abbrev pub logout : ℤ
logout = pos (code MessageType.logout)

abbrev pub message_types : List String
message_types =
    "TEXT" ∷ "IMAGE" ∷ "LOGIN" ∷ "REGISTER" ∷ "LOGOUT" ∷ "LIST_CHAT" ∷ "LIST_FRIEND" ∷ "ADD_FRIEND"
    ∷ "ADD_FRIEND_TO_GROUP" ∷ "DEL_FRIEND" ∷ "ADD_GROUP" ∷ "DEL_GROUP" ∷ "SNY_MSG" ∷ "DEL_MSG"
    ∷ "EXIT" ∷ []

pub record User : Type 0 where
  pub user_id : ℤ
  pub sockfd : ℤ
  pub username : Bytes
  pub pass : Bytes
  pub avatar : Bytes
  pub is_online : ℤ
  pub register_time : ℤ
  pub last_online_time : ℤ

-- `type` is an `int` that any peer may send.
pub record Message : Type 0 where
  pub msg_id : ℤ
  pub group_id : ℤ
  pub sender_name : Bytes
  pub msg : Bytes
  pub send_time : ℤ
  pub type : ℤ

abbrev pub new_user : User
new_user = record {
  user_id = pos 0;
  sockfd = pos 0;
  username = [];
  pass = [];
  avatar = [];
  is_online = pos 0;
  register_time = pos 0;
  last_online_time = pos 0;
}

abbrev pub new_message : Message
new_message = record {
  msg_id = pos 0;
  group_id = pos 0;
  sender_name = [];
  msg = [];
  send_time = pos 0;
  type = pos 0;
}

-- `struct timeval`, as `gettimeofday` fills it
pub record Timeval : Type 0 where
  pub tv_sec : ℕ
  pub tv_usec : ℕ

unfoldable pub current_time_millis : Timeval → ℤ
current_time_millis time = pos (time.tv_sec * 1000 + time.tv_usec / 1000)

-- `sprintf(format, "%s %s %ld", username, pass, time)`
unfoldable pub user_text : Bytes → Bytes → ℤ → Bytes
user_text username pass time = username ++ 32 ∷ (pass ++ 32 ∷ show_ℤ time)

-- NULL where the register time or the name is missing
unfoldable pub user2msg : User → Run (Option Message)
unfolding user_text
user2msg user =
    if eq_ℤ user.register_time (pos 0)
    then ok none
    else (load_string max_chars user.username >>= λ username.
        if same_string [] username
        then ok none
        else (load_string max_chars user.pass >>= λ pass.
            store_string max_msg_data (user_text username pass user.register_time) >>= λ format.
            ok (some (record new_message { msg = format }))))

-- `sscanf(msg, "%s %s %ld", username, pass, &registerTime)` into two zeroed arrays and a variable
-- that holds `junk`: what the input does not reach keeps what it was.
pub scan_time : Bytes → Bytes → Bytes → ℤ → Bytes × Bytes × ℤ
scan_time username pass s junk = elim (scan_int s) [
  | none ↦ (username, pass, junk)
  | some r ↦ (username, pass, r.0)
]

pub scan_pass : Bytes → Bytes → ℤ → Run (Bytes × Bytes × ℤ)
unfolding scan_time
scan_pass username s junk = elim (scan_word s) [
  | none ↦ ok (username, [], junk)
  | some r ↦ store_string max_chars r.0 >>= λ pass. ok (scan_time username pass r.1 junk)
]

pub scan_user : Bytes → ℤ → Run (Bytes × Bytes × ℤ)
unfolding scan_pass
scan_user s junk = elim (scan_word s) [
  | none ↦ ok ([], [], junk)
  | some r ↦ store_string max_chars r.0 >>= λ username. scan_pass username r.1 junk
]

-- `junk` is what the uninitialised `registerTime` holds.
unfoldable pub msg2user : Message → ℤ → Run User
unfolding scan_user
msg2user msg junk = load_string max_msg_data msg.msg >>= λ s. scan_user s junk >>= λ r.
    ok (record new_user { username = r.0; pass = r.1; register_time = r.2 })
