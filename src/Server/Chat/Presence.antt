-- ===== src/Server/Chat/Presence.antt =====
-- `handleLogin`, `handleLogout` and then `handleChat` (server/server.c): who gets the messages of a
-- room after a login or a logout.
mod Examples
use chat_hub.Base.{
  ℕ, ◌+◌, ◌<◌, ◌^◌, ◌≡◌, refl, ◌∙◌, true, List, [], ◌∷◌, ◌++◌, map, ℤ, pos, negsuc, to_int, is_pos,
  length, All, some,
}
use chat_hub.Run.{ok}
use chat_hub.Exec.{Exec, value, ◌>>=◌}
use chat_hub.Text.{Bytes}
use chat_hub.Config.{User, Message, login, logout, msg2user}
use chat_hub.Message.{Parson, pack_message}
use chat_hub.Message.{Documented as DocumentedJson}
use chat_hub.Message.RoundTrip.{IsMessage, Packed}
use chat_hub.Hashtable.{hash_get}
use chat_hub.Redis.{Redis}
use chat_hub.Dao.Interface.{redis_dao}
use chat_hub.Redis.Documented.{Db, Documented, with_hash}
use chat_hub.Dao.Keys.{users_key, next_msg_id, chatroom_key}
use chat_hub.Dao.Users.Accounts.{Account}
use chat_hub.Dao.Users.Presence.{present}
use chat_hub.Dao.Rooms.Members.{Member, shown}
use chat_hub.Dao.Rooms.Presence.{online_with, get_fd_byid-present}
use chat_hub.Server.{State, Outside, answer, buffer_of, handle_login, handle_logout, handle_chat}
use chat_hub.Server.Login.{Answers, handle_login_known, handle_logout_known}
use chat_hub.Server.Chat.{sends, stored, chat_loop-Delivers}
use chat_hub.Server.Chat.Room.{handle_chat_found}

module _ {r : Redis} {p : Parson} (laws : Documented r) (json_laws : DocumentedJson p)
    (o : Outside) where
  -- what is written: the answer `reply` to `this`, and then `m` to the buffers `bevs` but `from`
  pub record AnswersAndSends (f : Exec (State r.Store) Message) (st : State r.Store) (this : ℕ)
      (reply : Message) (from : ℕ) (m : Message) (json : Bytes) (bevs : List ℕ) (d : Db)
      : Type 0 where
    pub store : r.Store
    pub packed : Packed p reply
    pub run :
        f st
        ≡ ok (
          value m,
          record st {
            store = store;
            written =
                (st.written ++ (this, buffer_of packed.text o.beyond) ∷ [])
                ++ sends from (buffer_of json o.beyond) bevs;
          },
        )
    pub ready_after : laws.Ready store
    pub contents : laws.db store ≡ stored from d m bevs

  -- the second message, to a room of known members, that comes from `from`
  module _ (from : ℕ) (m : Message) (bev_of : ℤ → ℕ) {json : Bytes} {size : ℕ}
      (packed : pack_message p m ≡ ok (some json, size)) (timed : is_pos m.send_time ≡ true)
      (st : State r.Store) (ids : List ℕ) (ms : All (Member (laws.db st.store)) ids)
      (listed : map some ((laws.db st.store).members (chatroom_key m.group_id)) ≡ shown ids) where
    after_answer :
        {f : Exec (State r.Store) ℤ} {this : ℕ} {reply : Message} {code : ℤ} (id : ℕ) (on fd : ℤ)
        → to_int fd ≡ fd
        → Answers laws json_laws o f st this reply code
            (present (laws.db st.store) (pos id) on fd o.now)
        → All
            (λ c. hash_get st.clients c ≡ ok (bev_of c))
            (online_with (laws.db st.store) id fd ids ms)
        → (laws.db st.store).counter (next_msg_id m.group_id)
            + length (online_with (laws.db st.store) id fd ids ms)
          < 2 ^ 31
        → AnswersAndSends
            (f >>= λ _. handle_chat (redis_dao r) p o from m)
            st
            this
            reply
            from
            m
            json
            (map bev_of (online_with (laws.db st.store) id fd ids ms))
            (present (laws.db st.store) (pos id) on fd o.now)
    unfolding present with_hash
    after_answer {f} {this} {reply} {code} id on fd fits a found free =
        let fds =
          get_fd_byid-present laws (laws.db st.store) m.group_id ids ms listed id on fd o.now fits
            a.ready_after a.contents in
        let done =
          chat_loop-Delivers p laws o from m bev_of packed timed
            (online_with (laws.db st.store) id fd ids ms)
            (record st {
              store = fds.after;
              written = st.written ++ (this, buffer_of a.packed.text o.beyond) ∷ [];
            })
            fds.ready_after fds.contents found free in
        record {
          store = done.store;
          packed = a.packed;
          run = rw a.run (handle_chat_found (redis_dao r) p o from m _ fds.run ∙ done.run);
          ready_after = done.ready_after;
          contents = done.contents;
        }

    -- the first message, from which `msg2user` reads the name of an account
    module _ (ready : laws.Ready st.store) (this : ℕ) (message : Message) (u : User)
        (read : msg2user message o.junk ≡ ok u) (zero_id : u.user_id ≡ pos 0) {t : Bytes}
        (known : (laws.db st.store).hash users_key u.username ≡ some t)
        (a : Account (laws.db st.store) u.username t) (small : a.id < 2 ^ 31) where
      -- A message from which `msg2user` reads the name and the password of an account, whose id an `int`
      -- holds, from a connection with an `int` as its descriptor, and then a message that has its time
      -- and is packed, to a room whose members all have an id that an `int` holds and a stored
      -- descriptor: `handleLogin` writes its answer, and `handleChat` writes the text of the second
      -- message to every connected member of the room but its sender, in the room's order. The user
      -- who has logged in is written to over the descriptor of the login, whatever the database held
      -- before. The message is stored once for each member with a descriptor above 0 but its sender.
      -- `bev_of` is what the table holds for the descriptors; the answer can be packed, and the room's
      -- counter has room for as many ids below the greatest `int`.
      pub handle_chat-handle_login :
          (getfd : ℕ → ℤ)
          → to_int (getfd this) ≡ getfd this
          → u.pass ≡ a.pass
          → IsMessage json_laws (answer message login (pos a.id))
          → All
              (λ c. hash_get st.clients c ≡ ok (bev_of c))
              (online_with (laws.db st.store) a.id (getfd this) ids ms)
          → (laws.db st.store).counter (next_msg_id m.group_id)
              + length (online_with (laws.db st.store) a.id (getfd this) ids ms)
            < 2 ^ 31
          → AnswersAndSends
              (handle_login (redis_dao r) p o getfd this message >>= λ _.
                handle_chat (redis_dao r) p o from m)
              st
              this
              (answer message login (pos a.id))
              from
              m
              json
              (map bev_of (online_with (laws.db st.store) a.id (getfd this) ids ms))
              (present (laws.db st.store) (pos a.id) (pos 1) (getfd this) o.now)
      handle_chat-handle_login getfd fits same good found free =
          after_answer a.id (pos 1) (getfd this) fits
            (handle_login_known laws json_laws o st ready this message u read getfd zero_id known a
              same small good)
            found free

      -- A message from which `msg2user` reads the name of an account, and then a message to a room, under
      -- the same conditions: `handleLogout` writes its answer, and `handleChat` writes the text of the
      -- second message to every connected member of the room but its sender and the user who has
      -- logged out, and stores it as often.
      pub handle_chat-handle_logout :
          IsMessage json_laws (answer message logout (pos a.id))
          → All
              (λ c. hash_get st.clients c ≡ ok (bev_of c))
              (online_with (laws.db st.store) a.id (negsuc 0) ids ms)
          → (laws.db st.store).counter (next_msg_id m.group_id)
              + length (online_with (laws.db st.store) a.id (negsuc 0) ids ms)
            < 2 ^ 31
          → AnswersAndSends
              (handle_logout (redis_dao r) p o this message >>= λ _.
                handle_chat (redis_dao r) p o from m)
              st
              this
              (answer message logout (pos a.id))
              from
              m
              json
              (map bev_of (online_with (laws.db st.store) a.id (negsuc 0) ids ms))
              (present (laws.db st.store) (pos a.id) (pos 0) (negsuc 0) o.now)
      handle_chat-handle_logout good found free =
          after_answer a.id (pos 0) (negsuc 0) refl
            (handle_logout_known laws json_laws o st ready this message u read zero_id known a small
              good)
            found free
