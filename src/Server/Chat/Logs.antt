-- ===== src/Server/Chat/Logs.antt =====
-- What `handleChat` (server/server.c) leaves in the rooms of the database.
use chat_hub.Base.{
  ℕ, suc, ◌+◌, ◌<◌, ◌^◌, ◌≡◌, sym, true, some, List, [], ◌∷◌, ◌++◌, map, length, All, replicate, ℤ,
  is_pos, eq_ℤ, eq_ℤ_refl, eq_ℤ_iff, ◌==◌, if◌then◌else◌, Bool-cases, inl, inr, append_assoc,
  append-nil,
}
use chat_hub.Run.{ok}
use chat_hub.Exec.{value}
use chat_hub.Config.{Message}
use chat_hub.Message.{Parson, pack_message}
use chat_hub.Hashtable.{hash_get}
use chat_hub.Redis.{Redis}
use chat_hub.Redis.Documented.{Db, Documented}
use chat_hub.Dao.Interface.{redis_dao}
use chat_hub.Dao.Keys.{next_msg_id, chatroom_key}
use chat_hub.Dao.Rooms.Members.{Member, online, shown}
use chat_hub.Dao.Rooms.Saved.{message_saved}
use chat_hub.Dao.Rooms.Log.{AreLogs, appended, saved-IsLog}
use chat_hub.Server.{State, Outside, handle_chat}
use chat_hub.Server.Chat.{stored}
use chat_hub.Server.Chat.Room.{handle_chat-online}

-- the members with a descriptor but the sender
unfoldable pub others : ℕ → List ℕ → ℕ
others from [] = 0
others from (b ∷ bs) = let rest = others from bs in if b == from then rest else suc rest

-- the lists with `n` copies of a message at the end of a room
abbrev pub repeated : (ℤ → List Message) → ℤ → ℕ → Message → ℤ → List Message
repeated logs room n m room' = if eq_ℤ room' room then logs room ++ replicate n m else logs room'

repeated-zero :
    (logs : ℤ → List Message) (room : ℤ) (m : Message) (room' : ℤ)
    → logs room' ≡ repeated logs room 0 m room'
repeated-zero logs room m room' = elim (Bool-cases (eq_ℤ room' room)) [
  | inl same ↦ rw (same, (eq_ℤ_iff room' room).0 same, append-nil)
  | inr other ↦ rw other
]

repeated-suc :
    (logs : ℤ → List Message) (room : ℤ) (n : ℕ) (m : Message) (room' : ℤ)
    → repeated (appended logs room m) room n m room' ≡ repeated logs room (suc n) m room'
repeated-suc logs room n m room' = elim (Bool-cases (eq_ℤ room' room)) [
  | inl same ↦ rw (same, eq_ℤ_refl room) (append_assoc (logs room) (m ∷ []) (replicate n m))
  | inr other ↦ rw other
]

AreLogs-cast :
    {d : Db} {logs logs' : ℤ → List Message}
    → AreLogs d logs
    → ((room : ℤ) → logs room ≡ logs' room)
    → AreLogs d logs'
AreLogs-cast a same = record { log = λ room. rw (same room) at (a.log room) }

stored-AreLogs :
    (from : ℕ) (d : Db) (m : Message) (bs : List ℕ) {logs : ℤ → List Message}
    → AreLogs d logs
    → AreLogs (stored from d m bs) (repeated logs m.group_id (others from bs) m)
unfolding stored others
stored-AreLogs from d m [] {logs} a = AreLogs-cast a (repeated-zero logs m.group_id m)
stored-AreLogs from d m (b ∷ bs) {logs} a = elim (Bool-cases (b == from)) [
  | inl me ↦ rw me (stored-AreLogs from d m bs a)
  | inr other ↦ rw other (
      AreLogs-cast
        (stored-AreLogs from (message_saved d m.group_id m) m bs
          (record { log = saved-IsLog d logs a.log m.group_id m }))
        (repeated-suc logs m.group_id (others from bs) m))
]

-- Under the conditions under which `handleChat` writes a packed message to the room: where the rooms
-- hold the lists `logs`, they hold afterwards the same messages under the same ids, with the message at the
-- end of its room as many times as the room has members with a descriptor above 0 but the sender; a
-- sender who is alone leaves no message.
pub handle_chat-AreLogs :
    {r : Redis} (p : Parson) (laws : Documented r) (o : Outside) (from : ℕ) (m : Message)
    (bev_of : ℤ → ℕ) {json : List ℕ} {size : ℕ}
    → pack_message p m ≡ ok (some json, size)
    → is_pos m.send_time ≡ true
    → (st : State r.Store) (d : Db) (ids : List ℕ) (ms : All (Member d) ids) → laws.Ready st.store
    → laws.db st.store ≡ d
    → map some (d.members (chatroom_key m.group_id)) ≡ shown ids
    → All (λ fd. hash_get st.clients fd ≡ ok (bev_of fd)) (online d ids ms)
    → d.counter (next_msg_id m.group_id) + length (online d ids ms) < 2 ^ 31
    → (logs : ℤ → List Message) → AreLogs d logs
    → (st' : State r.Store) × (handle_chat (redis_dao r) p o from m st ≡ ok (value m, st'))
      × AreLogs
          (laws.db st'.store)
          (repeated logs m.group_id (others from (map bev_of (online d ids ms))) m)
handle_chat-AreLogs p laws o from m bev_of packed timed st d ids ms ready e listed found free logs
      a =
    let (s, run, ready_after, contents) =
      handle_chat-online p laws o from m bev_of packed timed st d ids ms ready e listed found
        free in
    (_, run, rw (sym contents) at (stored-AreLogs from d m (map bev_of (online d ids ms)) a))
