-- ===== src/Server/Input.antt =====
-- The callbacks of libevent in server/server.c: a new connection, input, and the end of a connection.
pub mod Buffer
use chat_hub.Base.{
  ℕ, zero, suc, [], ◌∷◌, ◌++◌, length, take, drop, ℤ, negsuc, eq_ℤ, ◌==◌, if◌then◌else◌,
}
use chat_hub.Run.{Run, ok, fault, out_of_bounds, null_pointer, ◌>>=◌ as ◌and_then◌}
use chat_hub.Exec.{Exec, pure, lift, ◌>>=◌}
use chat_hub.Text.{Bytes, same_string, load_string}
use chat_hub.Config.{max_buff, max_msg_data}
use chat_hub.Hashtable.{hash_init, hash_set, hash_delete}
use chat_hub.Message.{Parson, unpack_message}
use chat_hub.Dao.Interface.{Dao}
use chat_hub.Server.{State, Outside, on_clients, put_clients, handle_all_message}

-- `while ((n = evbuffer_remove(input, buf, MAX_BUFF)) > 0)`: `buf` keeps the last chunk, over what
-- the chunks before it left. The fuel is the length of the input; every round takes a byte or more.
unfoldable pub drain : ℕ → Bytes → Bytes → Bytes
drain zero input buf = buf
drain (suc f) input buf =
    let rest =
      drain f (drop max_buff input)
        (take max_buff input ++ drop (length (take max_buff input)) buf) in
    if length input == 0 then buf else rest

-- `buf` as a string
unfoldable pub c_string : Bytes → Run Bytes
c_string [] = fault out_of_bounds
c_string (c ∷ s) =
    let rest = c_string s in if c == 0 then ok [] else (rest and_then λ t. ok (c ∷ t))

module _ (dao : Dao) (bufferevent_getfd : ℕ → ℤ) where
  unfoldable pub connect_client : ℕ → Exec (State dao.Store) (Unit {0})
  connect_client bev = do
    hm ← on_clients (λ hm. hash_set hm (bufferevent_getfd bev) bev)
    put_clients hm

  unfoldable pub disconnect_client : ℕ → Exec (State dao.Store) (Unit {0})
  disconnect_client bev = do
    d ← on_clients (λ hm. hash_delete hm (bufferevent_getfd bev))
    put_clients d.0

  -- `events && (BEV_EVENT_EOF | BEV_EVENT_ERROR)`; the mask is not 0.
  unfoldable pub eventcb : ℕ → ℕ → Exec (State dao.Store) (Unit {0})
  eventcb bev events = if events == 0 then pure tt else disconnect_client bev

  -- `bev` is what `bufferevent_socket_new` returned. Where it is NULL the loop is told to stop, and
  -- the function goes on to read its descriptor.
  unfoldable pub listener_cb : ℕ → Exec (State dao.Store) (Unit {0})
  listener_cb bev = if bev == 0 then lift (fault null_pointer) else connect_client bev

module _ (dao : Dao) where
  -- the table of `init_db`, on a database
  abbrev pub init_db : dao.Store → State dao.Store
  init_db s = record { clients = hash_init 1024; store = s; written = [] }

module _ (dao : Dao) (p : Parson) (bufferevent_getfd : ℕ → ℤ) where
  -- `uninitialised` is what the stack holds in `buf`; the text of the message is printed.
  unfoldable pub readcb : Outside → ℕ → Bytes → Bytes → Exec (State dao.Store) (Unit {0})
  readcb o bev uninitialised input = do
    json ← lift (c_string (drain (length input) input uninitialised))
    message ← lift (unpack_message p json)
    if same_string message.msg [] then pure tt else (do
      _ ← lift (load_string max_msg_data message.msg)
      if eq_ℤ (bufferevent_getfd bev) (negsuc 0)
          then pure tt
          else handle_all_message dao p o bufferevent_getfd bev message)
