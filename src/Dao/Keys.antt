-- ===== src/Dao/Keys.antt =====
-- The keys that server/dao.c formats.
use chat_hub.Base.{◌++◌, ℤ}
use chat_hub.Text.{Bytes, codes, show_ℤ}

abbrev pub users_key : Bytes
users_key = codes "users"

abbrev pub next_user_id : Bytes
next_user_id = codes "next_user_id"

abbrev pub next_chatroom_id : Bytes
next_chatroom_id = codes "next_chatroom_id"

-- `user:%lld`
abbrev pub user_key : ℤ → Bytes
user_key id = codes "user:" ++ show_ℤ id

-- `chatroom:%lld`
abbrev pub chatroom_key : ℤ → Bytes
chatroom_key id = codes "chatroom:" ++ show_ℤ id

-- `chatroom:%lld:%lld`
abbrev pub message_key : ℤ → ℤ → Bytes
message_key room id = chatroom_key room ++ codes ":" ++ show_ℤ id

abbrev pub next_msg_id : ℤ → Bytes
next_msg_id room = chatroom_key room ++ codes ":next_msg_id"
