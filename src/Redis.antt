-- ===== src/Redis.antt =====
-- The database server and its client library hiredis, which the repository only calls: the commands
-- that server/dao.c sends, the replies, and an interface that runs a command.
pub mod Documented
pub mod Returns
pub mod Commands
pub mod Memory
pub mod Keyspace
pub mod Order
use chat_hub.Base.{Option, none, some, List, [], ℤ, pos}
use chat_hub.Run.{Run, ok, fault, null_pointer}
use chat_hub.Exec.{Exec, Exit, value, goto_error}
use chat_hub.Text.{Bytes}

-- One constructor for each verb, with its arguments as hiredis splits them.
pub data Command : Type 0 where
  hexists hget : Bytes → Bytes → Command
  hset : Bytes → Bytes → Bytes → Command
  hmset : Bytes → List (Bytes × Bytes) → Command
  hmget : Bytes → List Bytes → Command
  incr : Bytes → Command
  sadd : Bytes → List Bytes → Command
  srem sismember : Bytes → Bytes → Command
  smembers keys del : Bytes → Command

-- `redisReply`: the type, with the field that it fills
pub data Reply : Type 0 where
  error status str : Bytes → Reply
  nil : Reply
  integer : ℤ → Reply
  array : List (Option Bytes) → Reply

-- A field that the type does not fill is 0 or NULL.
abbrev pub reply_integer : Reply → ℤ
reply_integer (integer z) = z
reply_integer _ = pos 0

abbrev pub reply_str : Reply → Option Bytes
reply_str (error s) = some s
reply_str (status s) = some s
reply_str (str s) = some s
reply_str _ = none

abbrev pub reply_elements : Reply → List (Option Bytes)
reply_elements (array es) = es
reply_elements _ = []

-- `redisCommand`: NULL (`none`) where the connection fails
pub record Redis : Type 1 where
  pub Store : Type 0
  pub call : Command → Store → Option Reply × Store

-- `reply = redisCommand(…); check(reply->type != REDIS_REPLY_ERROR, …)`
abbrev pub checked : {S : Type 0} → Option Reply × S → Run (Exit Reply × S)
checked (none, s) = fault null_pointer
checked (some (error m), s) = ok (goto_error, s)
checked (some (status m), s) = ok (value (status m), s)
checked (some (str m), s) = ok (value (str m), s)
checked (some nil, s) = ok (value nil, s)
checked (some (integer z), s) = ok (value (integer z), s)
checked (some (array es), s) = ok (value (array es), s)

module _ (r : Redis) where
  abbrev pub command : Command → Exec r.Store Reply
  command c s = checked (r.call c s)
