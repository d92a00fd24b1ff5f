-- ===== src/Config/Types.antt =====
-- `MessageType` (lib/config.h).
use chat_hub.Base.{ℕ}
use Prim.Native.String.{String}

pub data MessageType : Type 0 where
  text image login register logout list_chat list_friend : MessageType
  add_friend add_friend_to_group del_friend add_group del_group : MessageType
  sny_msg del_msg exit : MessageType

-- the value of the enumerator, which a message carries
abbrev pub code : MessageType → ℕ
code text = 0
code image = 1
code login = 2
code register = 3
code logout = 4
code list_chat = 5
code list_friend = 6
code add_friend = 7
code add_friend_to_group = 8
code del_friend = 9
code add_group = 10
code del_group = 11
code sny_msg = 12
code del_msg = 13
code exit = 14

-- its spelling in the source
abbrev pub identifier : MessageType → String
identifier text = "TEXT"
identifier image = "IMAGE"
identifier login = "LOGIN"
identifier register = "REGISTER"
identifier logout = "LOGOUT"
identifier list_chat = "LIST_CHAT"
identifier list_friend = "LIST_FRIEND"
identifier add_friend = "ADD_FRIEND"
identifier add_friend_to_group = "ADD_FRIEND_TO_GROUP"
identifier del_friend = "DEL_FRIEND"
identifier add_group = "ADD_GROUP"
identifier del_group = "DEL_GROUP"
identifier sny_msg = "SNY_MSG"
identifier del_msg = "DEL_MSG"
identifier exit = "EXIT"
