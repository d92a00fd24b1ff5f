-- ===== src/Session.antt =====
-- A login from the keyboard to the answer: `stdin_cb` and `read_cb` of client/client.c with `readcb` of
-- server/server.c between the two.
pub mod Sent
pub mod Chats
pub mod Accounts
mod Examples
use chat_hub.Base.{
  ◌∙◌, ℕ, ◌+◌, ◌<◌, ◌≤◌, ◌^◌, ◌≡◌, refl, true, false, some, [], ◌∷◌, ◌++◌, length, ℤ, pos, negsuc,
  eq_ℤ, abs, arith, lt→ltb,
}
use chat_hub.Run.{ok}
use chat_hub.Exec.{value}
use chat_hub.Text.{Bytes, same_string, show_ℤ}
use chat_hub.Text.Scan.{IsWord}
use chat_hub.Config.{
  error_normal, Message, User, new_user, login, user_text, msg2user, max_buff, max_msg_data,
}
use chat_hub.Config.RoundTrip.{IsName, msg2user-user_text}
use chat_hub.Message.{Parson}
use chat_hub.Message.{Documented as DocumentedJson}
use chat_hub.Message.RoundTrip.{IsMessage, Packed, pack_message-Packed}
use chat_hub.Redis.{Redis}
use chat_hub.Redis.Documented.{Db, Documented}
use chat_hub.Dao.Interface.{redis_dao}
use chat_hub.Dao.Keys.{users_key}
use chat_hub.Dao.Users.Accounts.{Account}
use chat_hub.Dao.Users.Presence.{present}
use chat_hub.Server.{State, Outside, answer, buffer_of, handle_login}
use chat_hub.Server.Input.{readcb}
use chat_hub.Server.Login.{Answers, handle_login_known, handle_login_wrong}
use chat_hub.Server.Request.{readcb-login}
use chat_hub.Client.{Client, stdin_cb, read_cb}
use chat_hub.Client.Login.{request}
use chat_hub.Client.Typed.{requested, stdin_cb-login}
use chat_hub.Client.Answer.{logged_in, read_cb-answer}
use chat_hub.Session.Sent.{IsShort, c_string-drain-Packed}

user_text_some :
    (name pass : Bytes) (now : ℤ) → IsWord name → same_string (user_text name pass now) [] ≡ false
unfolding user_text same_string
user_text_some [] pass now word = absurd (word.some_byte refl)
user_text_some (c ∷ name) pass now word = refl

logged_in_lem :
    (client : Client) (id : ℕ)
    → 0 < id
    → ((logged_in client (pos id)).is_login ≡ true)
      × ((logged_in client (pos id)).user ≡ record client.user { user_id = pos id })
unfolding logged_in
logged_in_lem client id positive = rw (lt→ltb 0 id positive) (refl, refl)

logged_in_refused :
    (client : Client)
    → ((logged_in client error_normal).is_login ≡ client.is_login)
      × ((logged_in client error_normal).user ≡ record client.user { username = []; pass = [] })
unfolding logged_in
logged_in_refused client = (refl, refl)

answer-fits :
    {p : Parson} (json_laws : DocumentedJson p) (m : Message) (type id : ℤ)
    → IsMessage json_laws (answer m type id)
    → length (show_ℤ id) < max_msg_data
unfolding answer
answer-fits json_laws m type id good = good.msg_fits

-- what `msg2user` reads from the request of the client
abbrev typed_user : Outside → Bytes → Bytes → User
typed_user o name pass = record new_user { username = name; pass = pass; register_time = o.now }

module _ {r : Redis} {p : Parson} (laws : Documented r) (json_laws : DocumentedJson p)
    (here there : Outside) (client : Client) (st : State r.Store) (getfd : ℕ → ℤ) (bev : ℕ)
    {name pass : Bytes} (is_name : IsName name) (is_pass : IsName pass)
    (good : IsMessage json_laws (request here name pass login))
    (small : IsShort p (request here name pass login)) where
  in_range : abs here.now < 10 ^ 19
  in_range = let exact : abs here.now ≤ 2 ^ 53 = good.send_time_exact in omega arith

  read_request : msg2user (request here name pass login) there.junk ≡ ok (typed_user here name pass)
  read_request =
      msg2user-user_text is_name is_pass here.now (request here name pass login) there.junk in_range
        refl

  -- the server on what the client sends, from what `handleLogin` does
  readcb-request :
      (packed : Packed p (request here name pass login)) (uninitialised : Bytes) {code : ℤ}
      {st' : State r.Store}
      → eq_ℤ (getfd bev) (negsuc 0) ≡ false
      → handle_login (redis_dao r) p there getfd bev (request here name pass login) st
        ≡ ok (value code, st')
      → readcb (redis_dao r) p getfd there bev uninitialised (packed.text ++ 0 ∷ []) st
        ≡ ok (value tt, st')
  readcb-request packed uninitialised open_fd done =
      readcb-login (redis_dao r) p there getfd bev (request here name pass login) st uninitialised
        (packed.text ++ 0 ∷ []) (c_string-drain-Packed packed uninitialised small) packed.reads_back
        (user_text_some name pass here.now is_name.word) good.msg_fits open_fd refl done

  -- From the keyboard to the answer: `stdin_cb` writes one text, `readcb` on it writes one text to the
  -- connection, leaves the table of clients and changes the database to `d`, and `read_cb` on that text
  -- makes of the waiting client `done`.
  pub record Exchange (rest uninitialised : Bytes) (d : Db) (done : Client) : Type 0 where
    pub waiting : Client
    pub request_bytes : Bytes
    pub served : State r.Store
    pub reply : Bytes
    pub typed : stdin_cb p here client (b'1' ∷ 10 ∷ []) (name ++ 10 ∷ rest) pass ≡ ok waiting
    pub sent : waiting.written ≡ client.written ++ request_bytes ∷ []
    pub handled :
        readcb (redis_dao r) p getfd there bev uninitialised request_bytes st
        ≡ ok (value tt, served)
    pub answered : served.written ≡ st.written ++ (bev, reply) ∷ []
    pub same_clients : served.clients ≡ st.clients
    pub contents : laws.db served.store ≡ d
    pub read : read_cb p waiting reply ≡ ok done

  -- the client that waits for the answer
  abbrev waiting_for : Packed p (request here name pass login) → Client
  waiting_for packed = requested p here client name pass packed.text

  exchange :
      (id : ℤ) (rest uninitialised : Bytes) {code : ℤ} {d : Db}
      → client.is_login ≡ false
      → length name ≤ length pass
      → eq_ℤ (getfd bev) (negsuc 0) ≡ false
      → IsMessage json_laws (answer (request here name pass login) login id)
      → IsShort p (answer (request here name pass login) login id)
      → (packed : Packed p (request here name pass login))
      → Answers laws json_laws there
          (handle_login (redis_dao r) p there getfd bev (request here name pass login))
          st
          bev
          (answer (request here name pass login) login id)
          code
          d
      → Exchange rest uninitialised d (logged_in (waiting_for packed) id)
  exchange id rest uninitialised out shorter open_fd answer_good answer_small packed answered =
      let room : length answered.packed.text < max_buff = omega (arith, answered.packed.size) in
      record {
        waiting = waiting_for packed;
        request_bytes = packed.text ++ 0 ∷ [];
        served = _;
        reply = buffer_of answered.packed.text there.beyond;
        typed = stdin_cb-login p here client rest out is_name is_pass shorter in_range packed;
        sent = refl;
        handled = readcb-request packed uninitialised open_fd answered.run;
        answered = refl;
        same_clients = refl;
        contents = answered.contents;
        read =
            read_cb-answer p (waiting_for packed) (request here name pass login) id
              answered.packed.text there.beyond answered.packed.solid room
              answered.packed.reads_back (answer-fits json_laws _ login id answer_good);
      }

  -- A user with an account, whose id an `int` holds, types `1`, the name and the right password, both of
  -- 1 to 19 bytes without white space and the name not longer than the password, to a client that is
  -- not logged in; both messages can be packed and fit the buffers, each program reads in one piece what
  -- the other has written, and the connection has a descriptor. Then the exchange takes place, whatever
  -- the memory of both programs holds: the server stores the user as online with the descriptor, and the
  -- client is logged in under the id of the account.
  pub login_session :
      (rest uninitialised : Bytes)
      → client.is_login ≡ false
      → length name ≤ length pass
      → laws.Ready st.store
      → eq_ℤ (getfd bev) (negsuc 0) ≡ false
      → {t : Bytes} → (laws.db st.store).hash users_key name ≡ some t
      → (a : Account (laws.db st.store) name t) → pass ≡ a.pass
      → a.id < 2 ^ 31
      → IsMessage json_laws (answer (request here name pass login) login (pos a.id))
      → IsShort p (answer (request here name pass login) login (pos a.id))
      → (done : Client) × Exchange rest uninitialised
          (present (laws.db st.store) (pos a.id) (pos 1) (getfd bev) there.now)
          done
        × (done.is_login ≡ true)
        × (done.user ≡ record client.user { user_id = pos a.id; username = name; pass = pass })
  login_session rest uninitialised out shorter ready open_fd known a same int_id answer_good
        answer_small =
      let packed = pack_message-Packed json_laws _ good in
      let answered =
        handle_login_known laws json_laws there st ready bev (request here name pass login)
          (typed_user here name pass) read_request getfd refl known a same int_id answer_good in
      (
        logged_in (waiting_for packed) (pos a.id),
        exchange (pos a.id) rest uninitialised out shorter open_fd answer_good answer_small packed
            answered,
        (logged_in_lem (waiting_for packed) a.id a.positive).0,
        (logged_in_lem (waiting_for packed) a.id a.positive).1,
      )

  -- A user types `1`, the name of an account and another password than that of the account, both of 1 to
  -- 19 bytes without white space and the name not longer than the password, to a client that is not
  -- logged in; both messages can be packed and fit the buffers, each program reads in one piece what the
  -- other has written, and the connection has a descriptor. Then the exchange takes place, the database
  -- is what it was, and the client is not logged in and has forgotten the name and the password.
  pub refused_session :
      (rest uninitialised : Bytes)
      → client.is_login ≡ false
      → length name ≤ length pass
      → laws.Ready st.store
      → eq_ℤ (getfd bev) (negsuc 0) ≡ false
      → {t : Bytes} → (laws.db st.store).hash users_key name ≡ some t
      → (a : Account (laws.db st.store) name t) → same_string pass a.pass ≡ false
      → IsMessage json_laws (answer (request here name pass login) login error_normal)
      → IsShort p (answer (request here name pass login) login error_normal)
      → (done : Client) × Exchange rest uninitialised (laws.db st.store) done
        × (done.is_login ≡ false)
        × (done.user ≡ record client.user { username = []; pass = [] })
  refused_session rest uninitialised out shorter ready open_fd known a other answer_good
        answer_small =
      let packed = pack_message-Packed json_laws _ good in
      let answered =
        handle_login_wrong laws json_laws there st ready bev (request here name pass login)
          (typed_user here name pass) read_request getfd refl known a other answer_good in
      (
        logged_in (waiting_for packed) error_normal,
        exchange error_normal rest uninitialised out shorter open_fd answer_good answer_small packed
            answered,
        (logged_in_refused (waiting_for packed)).0 ∙ out,
        (logged_in_refused (waiting_for packed)).1,
      )
