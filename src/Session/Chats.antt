-- ===== src/Session/Chats.antt =====
-- A chat line from the keyboard of one client to the screens of the others.
mod Examples
use chat_hub.Base.{
  ℕ, ◌+◌, ◌<◌, ◌^◌, ◌≡◌, refl, true, false, some, List, [], ◌∷◌, ◌++◌, map, length, ℤ, pos, negsuc,
  eq_ℤ, is_pos, arith, All,
}
use chat_hub.Run.{ok}
use chat_hub.Exec.{value}
use chat_hub.Text.{Bytes, same_string}
use chat_hub.Text.Scan.{IsWord}
use chat_hub.Config.{max_buff}
use chat_hub.Hashtable.{hash_get}
use chat_hub.Message.{Parson}
use chat_hub.Message.{Documented as DocumentedJson}
use chat_hub.Message.RoundTrip.{IsMessage, pack_message-Packed}
use chat_hub.Redis.{Redis}
use chat_hub.Redis.Documented.{Db, Documented}
use chat_hub.Dao.Interface.{redis_dao}
use chat_hub.Dao.Keys.{next_msg_id, chatroom_key}
use chat_hub.Dao.Rooms.Members.{Member, online, shown}
use chat_hub.Server.{State, Outside, buffer_of}
use chat_hub.Server.Input.{readcb}
use chat_hub.Server.Chat.{sends, stored}
use chat_hub.Server.Chat.Room.{handle_chat-online}
use chat_hub.Server.Request.{readcb-chat}
use chat_hub.Client.{Client, print, stdin_cb, read_cb, message_line}
use chat_hub.Client.Chat.{chat, chat_line, stdin_cb-chat, read_cb-chat}
use chat_hub.Session.Sent.{IsShort, c_string-drain-Packed}

some_text : (s : Bytes) → IsWord s → same_string s [] ≡ false
unfolding same_string
some_text [] word = absurd (word.some_byte refl)
some_text (c ∷ s) word = refl

module _ {r : Redis} {p : Parson} (laws : Documented r) (json_laws : DocumentedJson p)
    (here there : Outside) (client : Client) (st : State r.Store) (getfd : ℕ → ℤ) (bev : ℕ)
    (bev_of : ℤ → ℕ) where
  -- A client that is logged in, a line with the number of a room, a colon and a word, which can be packed
  -- and fits the buffers; a clock above 0, a connection with a descriptor, a room whose members all have
  -- an id that an `int` holds and a stored descriptor, the table holding `bev_of` for these descriptors,
  -- and the room's counter with room for as many ids. Each program reads in one piece what the other
  -- has written. Then `stdin_cb` writes a text; `readcb` on it writes one text to every member who is
  -- connected but the sender, in the room's order, and stores the message once for each member with a
  -- descriptor above 0 but the sender; and `read_cb` of any client prints that text as the time, the
  -- room, the name of the sender and the word.
  pub chat_session :
      (room : ℕ) (word rest name password uninitialised : Bytes)
      → client.is_login ≡ true
      → IsWord word
      → room < 2 ^ 31
      → IsMessage json_laws (chat here client.user.username room word)
      → IsShort p (chat here client.user.username room word)
      → is_pos here.now ≡ true
      → eq_ℤ (getfd bev) (negsuc 0) ≡ false
      → (d : Db) (ids : List ℕ) (ms : All (Member d) ids) → laws.Ready st.store
      → laws.db st.store ≡ d
      → map some (d.members (chatroom_key (pos room))) ≡ shown ids
      → All (λ fd. hash_get st.clients fd ≡ ok (bev_of fd)) (online d ids ms)
      → d.counter (next_msg_id (pos room)) + length (online d ids ms) < 2 ^ 31
      → (waiting : Client) × (request_bytes : Bytes) × (served : State r.Store) × (bytes : Bytes)
        × (stdin_cb p here client (chat_line room word ++ 10 ∷ rest) name password ≡ ok waiting)
        × (waiting.written ≡ client.written ++ request_bytes ∷ [])
        × (readcb (redis_dao r) p getfd there bev uninitialised request_bytes st
            ≡ ok (value tt, served))
        × (served.written ≡ st.written ++ sends bev bytes (map bev_of (online d ids ms)))
        × (laws.db served.store
            ≡ stored bev d
                (chat here client.user.username room word)
                (map bev_of (online d ids ms)))
        × ((other : Client)
            → read_cb p other bytes
              ≡ ok (print other (message_line (chat here client.user.username room word))))
  chat_session room word rest name password uninitialised logged is_word small good short timed
        open_fd d ids ms ready same listed found free =
      let m = chat here client.user.username room word in
      let packed = pack_message-Packed json_laws m good in
      let (s, run, ready_after, contents) =
        handle_chat-online p laws there bev m bev_of packed.made timed st d ids ms ready same listed
          found free in
      let room_left : length packed.text < max_buff = omega (arith, packed.size) in
      (
        _,
        packed.text ++ 0 ∷ [],
        _,
        buffer_of packed.text there.beyond,
        stdin_cb-chat p here client room word rest name password logged good.sender_fits is_word
            small good.msg_fits packed,
        refl,
        readcb-chat (redis_dao r) p there getfd bev m st uninitialised (packed.text ++ 0 ∷ [])
            (c_string-drain-Packed packed uninitialised short) packed.reads_back
            (some_text word is_word) good.msg_fits open_fd refl run,
        refl,
        contents,
        λ other.
            read_cb-chat p there other m packed there.beyond room_left refl refl good.sender_fits
              good.msg_fits,
      )
