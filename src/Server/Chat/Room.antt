-- ===== src/Server/Chat/Room.antt =====
-- `handleChat` (server/server.c) with the members that the database lists for the room.
use chat_hub.Base.{ℕ, ◌+◌, ◌<◌, ◌^◌, ◌≡◌, ◌∙◌, true, List, ◌++◌, map, ℤ, is_pos, length, All, some}
use chat_hub.Run.{ok}
use chat_hub.Exec.{value}
use chat_hub.Text.{Bytes}
use chat_hub.Config.{Message}
use chat_hub.Message.{Parson, pack_message}
use chat_hub.Hashtable.{hash_get}
use chat_hub.Redis.{Redis}
use chat_hub.Dao.Interface.{Dao, redis_dao}
use chat_hub.Redis.Documented.{Db, Documented}
use chat_hub.Dao.Keys.{next_msg_id, chatroom_key}
use chat_hub.Dao.Rooms.Members.{Member, online, shown, get_fd_byid-online}
use chat_hub.Server.{State, Outside, chat_loop, buffer_of, handle_chat, fds_of}
use chat_hub.Server.Chat.{sends, stored, chat_loop-Delivers}

module _ (dao : Dao) (p : Parson) (o : Outside) (from : ℕ) (m : Message)
    (st : State dao.Store) where
  pub handle_chat_found :
      {fds : List ℤ} {n : ℕ} {s : dao.Store}
      → dao.get_fd_byid m.group_id st.store ≡ ok (value (some fds, n), s)
      → handle_chat dao p o from m st ≡ chat_loop dao p o from fds m (record st { store = s })
  unfolding handle_chat fds_of
  handle_chat_found found = rw found

module _ {r : Redis} (p : Parson) (laws : Documented r) (o : Outside) (from : ℕ) (m : Message)
    (bev_of : ℤ → ℕ) where
  -- A message that has its time and is packed, to a room whose members all have an id that an `int`
  -- holds and a stored descriptor: `handleChat` writes the text to every member who is connected
  -- and is not the sender, in the room's order, and stores the message once for each member with a
  -- descriptor above 0 but the sender. `bev_of` is what the table holds for the descriptors; the
  -- room's counter must have room for as many ids below the greatest `int`.
  pub handle_chat-online :
      {json : Bytes} {size : ℕ}
      → pack_message p m ≡ ok (some json, size)
      → is_pos m.send_time ≡ true
      → (st : State r.Store) (d : Db) (ids : List ℕ) (ms : All (Member d) ids) → laws.Ready st.store
      → laws.db st.store ≡ d
      → map some (d.members (chatroom_key m.group_id)) ≡ shown ids
      → All (λ fd. hash_get st.clients fd ≡ ok (bev_of fd)) (online d ids ms)
      → d.counter (next_msg_id m.group_id) + length (online d ids ms) < 2 ^ 31
      → (s : r.Store) × (handle_chat (redis_dao r) p o from m st
          ≡ ok (
            value m,
            record st {
              store = s;
              written =
                  st.written ++ sends from (buffer_of json o.beyond) (map bev_of (online d ids ms));
            },
          ))
        × laws.Ready s
        × (laws.db s ≡ stored from d m (map bev_of (online d ids ms)))
  handle_chat-online packed timed st d ids ms ready e listed found free =
      let fds = get_fd_byid-online laws d m.group_id ids ms ready e listed in
      let done =
        chat_loop-Delivers p laws o from m bev_of packed timed (online d ids ms)
          (record st { store = fds.after }) fds.ready_after fds.contents found free in
      (
        done.store,
        handle_chat_found (redis_dao r) p o from m st fds.run ∙ done.run,
        done.ready_after,
        done.contents,
      )
