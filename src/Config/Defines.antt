-- ===== src/Config/Defines.antt =====
-- The constants of lib/config.h that the programs define and do not use.
use chat_hub.Base.{ℕ, ℤ, pos, negsuc}
use chat_hub.Text.{Bytes, codes}

abbrev pub max_user_on : ℕ
max_user_on = 1024

abbrev pub server_ip : Bytes
server_ip = codes "127.0.0.1"

abbrev pub message_success : Bytes
message_success = codes "SUCCESS"

abbrev pub message_failed : Bytes
message_failed = codes "FAILED"

abbrev pub error_none : ℤ
error_none = pos 0

-- The macro has a semicolon behind the number.
abbrev pub error_password : ℤ
error_password = negsuc 3

abbrev pub online : ℤ
online = pos 1

abbrev pub offline : ℤ
offline = pos 0

abbrev pub chathub_server_name : Bytes
chathub_server_name = codes "ChatHub"
