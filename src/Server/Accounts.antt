-- ===== src/Server/Accounts.antt =====
-- Registrations, logins and logouts that the server (server/server.c) handles one after the other, and
-- what a list of names and passwords answers.
pub mod Requests
pub mod Served
pub mod Sequences
use chat_hub.Base.{◌≡◌, ℕ, List, [], ◌∷◌, ℤ}
use chat_hub.Run.{Run, ok, ◌>>=◌ as ◌and_then◌}
use chat_hub.Exec.{Exec, pure, ◌>>=◌}
use chat_hub.Text.{Bytes, show_ℤ, atoll}
use chat_hub.Config.{User, Message, new_user}
use chat_hub.Config as Config
use chat_hub.Message.{Parson}
use chat_hub.Message.RoundTrip.{Packed}
use chat_hub.Dao.Interface.{Dao}
use chat_hub.Dao.Users.Refine.{Op, register, login, logout, Users, step_users}
use chat_hub.Server.{State, Outside, handle_all_message, buffer_of}

pub data Ask : Type 0 where
  to_register to_login to_logout : Ask

abbrev pub type_of : Ask → ℤ
type_of to_register = Config.register
type_of to_login = Config.login
type_of to_logout = Config.logout

-- a message from a connection, with what is outside when it comes and what `msg2user` reads from it
pub record Request : Type 0 where
  pub outside : Outside
  pub from : ℕ
  pub message : Message
  pub ask : Ask
  pub name : Bytes
  pub pass : Bytes
  pub time : ℤ

abbrev pub user_of : Request → User
user_of q = record new_user { username = q.name; pass = q.pass; register_time = q.time }

abbrev pub asked : Ask → Bytes → Bytes → ℤ → Op
asked to_register name pass now = register name pass now
asked to_login name pass now = login name pass
asked to_logout name pass now = logout name now

abbrev pub op_of : Request → Op
op_of q = asked q.ask q.name q.pass q.outside.now

-- what is answered: to which connection, of which type, with which id, and to which message
pub record Expected : Type 0 where
  pub receiver : ℕ
  pub type : ℤ
  pub id : ℤ
  pub request : Message

abbrev pub expected : Request → ℤ → Expected
expected q id = record { receiver = q.from; type = type_of q.ask; id = id; request = q.message }

-- the answers of the specification, with the connections that they go to
unfoldable pub replies : Users → List Request → Run (List Expected)
replies us [] = ok []
replies us (q ∷ qs) =
    step_users us (op_of q) and_then λ s. replies s.0 qs and_then λ rest. ok (expected q s.1 ∷ rest)

-- the server on the messages
abbrev pub serve_all :
    (dao : Dao) → Parson → (ℕ → ℤ) → List Request → Exec (State dao.Store) (Unit {0})
serve_all dao p getfd [] = pure tt
serve_all dao p getfd (q ∷ qs) = do
  _ ← handle_all_message dao p q.outside getfd q.from q.message
  serve_all dao p getfd qs

-- a message that gives the answer: the id in decimal, which is read back, under the type of the
-- request, and the rest of the request
pub record IsAnswer (e : Expected) (m : Message) : Type 0 where
  pub typed : m.type ≡ e.type
  pub decimal : m.msg ≡ show_ℤ e.id
  pub reads_id : atoll m.msg ≡ e.id
  pub same_msg_id : m.msg_id ≡ e.request.msg_id
  pub same_group : m.group_id ≡ e.request.group_id
  pub same_sender : m.sender_name ≡ e.request.sender_name
  pub same_time : m.send_time ≡ e.request.send_time

-- The texts are written to the connections of the answers, and each is unpacked to its answer.
pub data AreSent (p : Parson) : List Expected → List (ℕ × Bytes) → Type 0 where
  none_sent : AreSent p [] []
  one_sent :
      (e : Expected) (m : Message) {es : List Expected} {ts : List (ℕ × Bytes)}
      → IsAnswer e m
      → (packed : Packed p m) (beyond : Bytes) → AreSent p es ts
      → AreSent p (e ∷ es) ((e.receiver, buffer_of packed.text beyond) ∷ ts)
