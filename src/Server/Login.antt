-- ===== src/Server/Login.antt =====
-- `handleLogin`, `handleRegister` and `handleLogout` (server/server.c) from the message to the
-- answer.
use chat_hub.Base.{
  lt→ltb, ℕ, ◌+◌, ◌<◌, ◌^◌, ◌≡◌, ◌∙◌, refl, ap, false, none, some, [], ◌∷◌, ◌++◌, ℤ, pos, negsuc,
  to_int_pos, is_pos, if◌then◌else◌,
}
use chat_hub.Run.{ok}
use chat_hub.Exec.{Exec, value}
use chat_hub.Text.{Bytes, same_string}
use chat_hub.Config.{User, Message, error_normal, login, logout, register, msg2user}
use chat_hub.Text.Compare.{same_string_refl}
use chat_hub.Message.{Parson}
use chat_hub.Message.{Documented as DocumentedJson}
use chat_hub.Message.RoundTrip.{IsMessage, Packed, pack_message-Packed}
use chat_hub.Redis.{Redis}
use chat_hub.Dao.Interface.{redis_dao}
use chat_hub.Redis.Documented.{Db, Documented}
use chat_hub.Redis.Returns.{Returns-cast}
use chat_hub.Dao.Keys.{users_key, next_user_id}
use chat_hub.Dao.Users.Accounts.{Account, registered}
use chat_hub.Dao.Users.Accounts.Login.{login_user_known}
use chat_hub.Dao.Users.Accounts.Register.{register_user_fresh}
use chat_hub.Dao.Users.Presence.{present, set_online_lem, logout_user_known}
use chat_hub.Server.{
  State, Outside, handle_register, handle_login, handle_logout, answer, buffer_of,
}
use chat_hub.Server.Steps.{answered, register_run, logout_run, login_run, refused_run}

module _ {r : Redis} {p : Parson} (laws : Documented r) (json_laws : DocumentedJson p)
    (o : Outside) where
  -- `m` returns `code` and writes to `this` the text of `reply`, as its last step, on a server that then
  -- holds `d`; the table of clients stays.
  pub record Answers {A : Type 0} (m : Exec (State r.Store) A) (st : State r.Store) (this : ℕ)
      (reply : Message) (code : A) (d : Db) : Type 0 where
    pub store : r.Store
    pub packed : Packed p reply
    pub run :
        m st
        ≡ ok (
          value code,
          record st {
            store = store;
            written = st.written ++ (this, buffer_of packed.text o.beyond) ∷ [];
          },
        )
    pub ready_after : laws.Ready store
    pub contents : laws.db store ≡ d

  answered_by :
      {m : Exec (State r.Store) ℤ} {st : State r.Store} {this : ℕ} {reply : Message} {code : ℤ}
      {after : r.Store} {d : Db} (packed : Packed p reply)
      → m st
        ≡ ok (
          value code,
          record st {
            store = after;
            written = st.written ++ (this, buffer_of packed.text o.beyond) ∷ [];
          },
        )
      → laws.Ready after
      → laws.db after ≡ d
      → Answers m st this reply code d
  answered_by packed run ready e = record {
    store = _;
    packed = packed;
    run = run;
    ready_after = ready;
    contents = e;
  }

  module _ (st : State r.Store) (ready : laws.Ready st.store) (this : ℕ) (message : Message)
      (u : User) (read : msg2user message o.junk ≡ ok u) where
    -- A message from which `msg2user` reads a user with a new name, while the counter of ids is below the
    -- greatest `int` and the answer can be packed: `handleRegister` returns the new id, writes a REGISTER
    -- message with it to the sender, whose text is unpacked to that message, and leaves the account in the
    -- database.
    pub handle_register_new :
        (laws.db st.store).hash users_key u.username ≡ none
        → (laws.db st.store).counter next_user_id + 1 < 2 ^ 31
        → IsMessage json_laws
            (answer message register (pos ((laws.db st.store).counter next_user_id + 1)))
        → Answers
            (handle_register (redis_dao r) p o this message)
            st
            this
            (answer message register (pos ((laws.db st.store).counter next_user_id + 1)))
            (pos ((laws.db st.store).counter next_user_id + 1))
            (registered (laws.db st.store) u o.now)
    handle_register_new fresh room good =
        let done = register_user_fresh laws (laws.db st.store) ready refl u o.now fresh room in
        let packed = pack_message-Packed json_laws _ good in
        answered_by packed
          (register_run (redis_dao r) p o st this message read done.run packed.made
            ∙ ap
                (λ c.
                  ok (
                    value c,
                    answered (redis_dao r) p o st this message read done.after packed.text,
                  ))
                (to_int_pos _ room))
          done.ready_after done.contents

    -- A message from which `msg2user` reads the name and the password of an account, whose id an `int`
    -- holds, while the answer can be packed: `handleLogin` returns the id, writes a LOGIN message with it
    -- to the sender, whose text is unpacked to that message, and stores the user as online with the
    -- sender's descriptor.
    pub handle_login_known :
        (getfd : ℕ → ℤ) {t : Bytes}
        → u.user_id ≡ pos 0
        → (laws.db st.store).hash users_key u.username ≡ some t
        → (a : Account (laws.db st.store) u.username t) → u.pass ≡ a.pass
        → a.id < 2 ^ 31
        → IsMessage json_laws (answer message login (pos a.id))
        → Answers
            (handle_login (redis_dao r) p o getfd this message)
            st
            this
            (answer message login (pos a.id))
            (pos a.id)
            (present (laws.db st.store) (pos a.id) (pos 1) (getfd this) o.now)
    handle_login_known getfd zero_id known a same small good =
        let done = login_user_known laws (laws.db st.store) u known a zero_id ready refl in
        let right : (if same_string u.pass a.pass then pos a.id else error_normal) ≡ pos a.id =
          rw (same, same_string_refl a.pass) in
        let here = Returns-cast laws done right refl in
        let online =
          set_online_lem laws (laws.db st.store) here.ready_after here.contents
            (record u { user_id = pos a.id }) o.now (getfd this) in
        let packed = pack_message-Packed json_laws _ good in
        answered_by packed
          (login_run (redis_dao r) p o st this message read getfd here.run packed.made
              (ap is_pos (to_int_pos a.id small) ∙ lt→ltb 0 a.id a.positive) online.run
            ∙ ap
                (λ c. ok (
                  value c,
                  answered (redis_dao r) p o st this message read online.after packed.text,
                ))
                (to_int_pos a.id small))
          online.ready_after online.contents

    -- A message from which `msg2user` reads the name of an account and another password, while the
    -- answer can be packed: `handleLogin` returns -1, writes a LOGIN message with it to the sender, whose
    -- text is unpacked to that message, and leaves the database as it is.
    pub handle_login_wrong :
        (getfd : ℕ → ℤ) {t : Bytes}
        → u.user_id ≡ pos 0
        → (laws.db st.store).hash users_key u.username ≡ some t
        → (a : Account (laws.db st.store) u.username t) → same_string u.pass a.pass ≡ false
        → IsMessage json_laws (answer message login error_normal)
        → Answers
            (handle_login (redis_dao r) p o getfd this message)
            st
            this
            (answer message login error_normal)
            error_normal
            (laws.db st.store)
    handle_login_wrong getfd zero_id known a other good =
        let done = login_user_known laws (laws.db st.store) u known a zero_id ready refl in
        let here =
          Returns-cast laws done (ap (λ b. if b then pos a.id else error_normal) other) refl in
        let packed = pack_message-Packed json_laws _ good in
        answered_by packed
          (refused_run (redis_dao r) p o st this message read getfd here.run packed.made refl)
          here.ready_after here.contents

    -- A message from which `msg2user` reads the name of an account, whose id an `int` holds, while the
    -- answer can be packed: `handleLogout` returns the id, writes a LOGOUT message with it to the sender,
    -- whose text is unpacked to that message, and marks the account offline, with the descriptor -1.
    pub handle_logout_known :
        {t : Bytes}
        → u.user_id ≡ pos 0
        → (laws.db st.store).hash users_key u.username ≡ some t
        → (a : Account (laws.db st.store) u.username t) → a.id < 2 ^ 31
        → IsMessage json_laws (answer message logout (pos a.id))
        → Answers
            (handle_logout (redis_dao r) p o this message)
            st
            this
            (answer message logout (pos a.id))
            (pos a.id)
            (present (laws.db st.store) (pos a.id) (pos 0) (negsuc 0) o.now)
    handle_logout_known zero_id known a small good =
        let done = logout_user_known laws (laws.db st.store) ready refl u o.now known a zero_id in
        let packed = pack_message-Packed json_laws _ good in
        answered_by packed
          (logout_run (redis_dao r) p o st this message read done.run packed.made
            ∙ ap
                (λ c.
                  ok (
                    value c,
                    answered (redis_dao r) p o st this message read done.after packed.text,
                  ))
                (to_int_pos a.id small))
          done.ready_after done.contents
