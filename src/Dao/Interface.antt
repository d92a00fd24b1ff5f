-- ===== src/Dao/Interface.antt =====
-- server/dao.h: the functions over the database, as the server sees them, and the implementation by
-- server/dao.c on a Redis server. `now` is the time that a function reads.
use chat_hub.Base.{ℕ, Option, none, List, ℤ, negsuc}
use chat_hub.Exec.{Exec, pure}
use chat_hub.Text.{Bytes}
use chat_hub.Config.{User, Message}
use chat_hub.Redis.{Redis}
use chat_hub.Dao.Users.{
  register_user, login_user, logout_user, set_online, set_offline, get_next_userid,
  get_userid_by_name, is_user_exists,
}
use chat_hub.Dao.Rooms.{
  get_fd_byid, get_next_chatroomid, create_chatroom, del_chatroom, leave_chatroom,
  is_user_exists_inchatroom, get_next_msgid, save_message,
}

pub record Dao : Type 1 where
  pub Store : Type 0
  pub register_user : User → ℤ → Exec Store ℤ
  pub login_user : User → Exec Store ℤ
  pub logout_user : User → ℤ → Exec Store ℤ
  pub set_online : User → ℤ → ℤ → Exec Store ℤ
  pub set_offline : User → ℤ → Exec Store ℤ
  pub get_next_userid : Exec Store ℤ
  pub get_userid_by_name : Bytes → Exec Store ℤ
  pub is_user_exists : Bytes → Exec Store ℤ
  pub get_fd_byname : Bytes → Exec Store ℤ
  pub get_fd_byid : ℤ → Exec Store (Option (List ℤ) × ℕ)
  pub set_fd_byid : ℤ → Exec Store ℤ
  pub get_next_chatroomid : Exec Store ℤ
  pub create_chatroom : ℤ → ℤ → Exec Store ℤ
  pub del_chatroom : ℤ → Exec Store ℤ
  pub leave_chatroom : ℤ → Bytes → Exec Store ℤ
  pub is_user_exists_inchatroom : ℤ → Bytes → Exec Store ℤ
  pub get_next_msgid : ℤ → Exec Store ℤ
  pub save_message : ℤ → Message → ℤ → Exec Store (ℤ × Message)
  pub get_unread_msgs : ℤ → ℤ → Exec Store (Option (List Message))

-- the functions that are not written yet
module _ {S : Type 0} where
  abbrev pub get_fd_byname : Bytes → Exec S ℤ
  get_fd_byname username = pure (negsuc 0)

  abbrev pub set_fd_byid : ℤ → Exec S ℤ
  set_fd_byid id = pure (negsuc 0)

  abbrev pub get_unread_msgs : ℤ → ℤ → Exec S (Option (List Message))
  get_unread_msgs chatroom_id time = pure none

abbrev pub redis_dao : Redis → Dao
redis_dao r = record {
  Store = r.Store;
  register_user = register_user r;
  login_user = login_user r;
  logout_user = logout_user r;
  set_online = set_online r;
  set_offline = set_offline r;
  get_next_userid = get_next_userid r;
  get_userid_by_name = get_userid_by_name r;
  is_user_exists = is_user_exists r;
  get_fd_byname = get_fd_byname;
  get_fd_byid = get_fd_byid r;
  set_fd_byid = set_fd_byid;
  get_next_chatroomid = get_next_chatroomid r;
  create_chatroom = create_chatroom r;
  del_chatroom = del_chatroom r;
  leave_chatroom = leave_chatroom r;
  is_user_exists_inchatroom = is_user_exists_inchatroom r;
  get_next_msgid = get_next_msgid r;
  save_message = save_message r;
  get_unread_msgs = get_unread_msgs;
}
