-- ===== src/Server/Accounts/Requests.antt =====
-- One registration, login or logout that `handleAllMessage` (server/server.c) handles.
use chat_hub.Base.{ℕ, suc, ◌<◌, ◌≤◌, ◌^◌, ◌≡◌, refl, [], ◌∷◌, ◌++◌, length, ℤ, abs}
use chat_hub.Run.{ok}
use chat_hub.Exec.{value}
use chat_hub.Text.{show_ℤ}
use chat_hub.Config.{msg2user}
use chat_hub.Message.{Parson}
use chat_hub.Message.{Documented as DocumentedJson}
use chat_hub.Message.RoundTrip.{IsMessage, Packed}
use chat_hub.Redis.{Redis}
use chat_hub.Redis.Documented.{Db, Documented}
use chat_hub.Dao.Interface.{redis_dao}
use chat_hub.Dao.Users.{register_user, login_user, logout_user, find_id}
use chat_hub.Dao.Users.Refine.{Users, named}
use chat_hub.Dao.Users.Refine.Stored.{Holds}
use chat_hub.Server.{State, answer, buffer_of, handle_all_message}
use chat_hub.Server.Accounts.{Request, type_of, user_of}

-- The functions of dao.c read the name, the password and the id of a user.
pub register_user-user_of :
    (r : Redis) (q : Request) (now : ℤ)
    → register_user r (user_of q) now ≡ register_user r (named q.name q.pass) now
unfolding register_user
register_user-user_of r q now = refl

pub login_user-user_of :
    (r : Redis) (q : Request) → login_user r (user_of q) ≡ login_user r (named q.name q.pass)
unfolding login_user find_id
login_user-user_of r q = refl

pub logout_user-user_of :
    (r : Redis) (q : Request) (now : ℤ)
    → logout_user r (user_of q) now ≡ logout_user r (named q.name []) now
unfolding logout_user find_id
logout_user-user_of r q now = refl

module _ {p : Parson} (json_laws : DocumentedJson p) where
  -- `msg2user` reads the request from the message, and the answers can be packed
  pub record IsRequest (q : Request) : Type 0 where
    pub read : msg2user q.message q.outside.junk ≡ ok (user_of q)
    pub typed : q.message.type ≡ type_of q.ask
    pub packs :
        (id : ℤ)
        → abs id < 2 ^ 31
        → IsMessage json_laws (record q.message { type = type_of q.ask; msg = show_ℤ id })

  pub answer-IsMessage :
      {q : Request}
      → IsRequest q
      → (id : ℤ) → abs id < 2 ^ 31
      → IsMessage json_laws (answer q.message (type_of q.ask) id)
  unfolding answer
  answer-IsMessage request id small = request.packs id small

module _ {r : Redis} {p : Parson} (laws : Documented r) (json_laws : DocumentedJson p)
    (getfd : ℕ → ℤ) where
  -- one answer is written, and the database holds the users of the specification
  pub record Served (us : Users) (st : State r.Store) (q : Request) (step : Users × ℤ)
      : Type 0 where
    pub db_after : Db
    pub store : r.Store
    pub packed : Packed p (answer q.message (type_of q.ask) step.1)
    pub run :
        handle_all_message (redis_dao r) p q.outside getfd q.from q.message st
        ≡ ok (
          value tt,
          record st {
            store = store;
            written = st.written ++ (q.from, buffer_of packed.text q.outside.beyond) ∷ [];
          },
        )
    pub ready_after : laws.Ready store
    pub contents : laws.db store ≡ db_after
    pub holds : Holds db_after step.0
    pub longer : length step.0 ≤ suc (length us)

  -- what follows from a call that follows the specification, and its run in the server
  pub Served-by :
      {us : Users} {st : State r.Store} {q : Request} {step : Users × ℤ} {d : Db} {s : r.Store}
      (packed : Packed p (answer q.message (type_of q.ask) step.1))
      → handle_all_message (redis_dao r) p q.outside getfd q.from q.message st
        ≡ ok (
          value tt,
          record st {
            store = s;
            written = st.written ++ (q.from, buffer_of packed.text q.outside.beyond) ∷ [];
          },
        )
      → laws.Ready s
      → laws.db s ≡ d
      → Holds d step.0
      → length step.0 ≤ suc (length us)
      → Served us st q step
  Served-by packed run ready e holds longer = record {
    db_after = _;
    store = _;
    packed = packed;
    run = run;
    ready_after = ready;
    contents = e;
    holds = holds;
    longer = longer;
  }
