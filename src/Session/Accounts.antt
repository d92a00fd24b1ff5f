-- ===== src/Session/Accounts.antt =====
-- Registrations, logins and logouts from the bytes that arrive to the bytes that are written
-- (`readcb` and `handleAllMessage` of server/server.c).
mod Examples
use mathlib.Core.Path.{fun_ext}
use chat_hub.Base.{
  ℕ, ◌<◌, ◌^◌, ◌≡◌, ◌⊎◌, inl, inr, refl, ◌∙◌, ap, false, none, List, [], ◌∷◌, ◌++◌, map, length,
  All, ℤ, negsuc, eq_ℤ, arith,
}
use chat_hub.Run.{ok, fault, null_pointer}
use chat_hub.Exec.{Exec, value, pure, continue, ◌>>=◌}
use chat_hub.Text.{Bytes, same_string}
use chat_hub.Config.{max_msg_data}
use chat_hub.Message.{Parson}
use chat_hub.Message.{Documented as DocumentedJson}
use chat_hub.Message.RoundTrip.{Packed}
use chat_hub.Redis.{Redis}
use chat_hub.Redis.Documented.{Documented}
use chat_hub.Dao.Interface.{Dao, redis_dao}
use chat_hub.Dao.Keys.{users_key, next_user_id}
use chat_hub.Server.{State, handle_all_message}
use chat_hub.Server.Input.{readcb}
use chat_hub.Server.Request.{readcb_run}
use chat_hub.Server.Accounts.{Request, Expected, replies, serve_all, AreSent}
use chat_hub.Server.Accounts.Requests.{IsRequest}
use chat_hub.Server.Accounts.Sequences.{serve_all_from_empty}
use chat_hub.Session.Sent.{IsShort, c_string-drain-Packed}

-- the bytes that arrive for a request, and what the buffer of `readcb` held before
pub record Arrival : Type 0 where
  pub request : Request
  pub uninitialised : Bytes
  pub input : Bytes

abbrev pub receive_all :
    (dao : Dao) → Parson → (ℕ → ℤ) → List Arrival → Exec (State dao.Store) (Unit {0})
receive_all dao p getfd [] = pure tt
receive_all dao p getfd (a ∷ rest) = do
  _ ← readcb dao p getfd a.request.outside a.request.from a.uninitialised a.input
  receive_all dao p getfd rest

module _ {p : Parson} (json_laws : DocumentedJson p) (getfd : ℕ → ℤ) where
  -- what arrives is what a program writes of the request's message: a text of this message and its NUL
  pub record IsArrival (a : Arrival) : Type 0 where
    pub is_request : IsRequest json_laws a.request
    pub packed : Packed p a.request.message
    pub sent : a.input ≡ packed.text ++ 0 ∷ []
    pub small : IsShort p a.request.message
    pub some_text : same_string a.request.message.msg [] ≡ false
    pub msg_fits : length a.request.message.msg < max_msg_data
    pub connected : eq_ℤ (getfd a.request.from) (negsuc 0) ≡ false

module _ {p : Parson} (json_laws : DocumentedJson p) (getfd : ℕ → ℤ) (dao : Dao) where
  readcb-arrival :
      (a : Arrival)
      → IsArrival json_laws getfd a
      → (st : State dao.Store)
      → readcb dao p getfd a.request.outside a.request.from a.uninitialised a.input st
        ≡ handle_all_message dao p a.request.outside getfd a.request.from a.request.message st
  readcb-arrival a arrives st =
      let got = c_string-drain-Packed arrives.packed a.uninitialised arrives.small in
      readcb_run dao p a.request.outside getfd a.request.from a.request.message st a.uninitialised
        a.input (rw arrives.sent got) arrives.packed.reads_back arrives.some_text arrives.msg_fits
        arrives.connected

  -- receiving is handling the messages
  receive_all-serve_all :
      (arrivals : List Arrival)
      → All (IsArrival json_laws getfd) arrivals
      → (st : State dao.Store)
      → receive_all dao p getfd arrivals st
        ≡ serve_all dao p getfd (map (λ a. a.request) arrivals) st
  receive_all-serve_all [] all st = refl
  receive_all-serve_all (a ∷ rest) (arrives, all) st =
      ap (λ m. continue m (λ done. receive_all dao p getfd rest)) (readcb-arrival a arrives st)
      ∙ ap
          (λ k.
            continue
              (handle_all_message dao p a.request.outside getfd a.request.from a.request.message st)
              (λ done. k))
          (fun_ext (receive_all-serve_all rest all))

module _ {r : Redis} {p : Parson} (laws : Documented r) (json_laws : DocumentedJson p)
    (getfd : ℕ → ℤ) where
  -- `readcb` returns for everything that arrives, and writes the answers of the specification, in their
  -- order; nothing else changes but the database
  pub record Exchanged (arrivals : List Arrival) (st : State r.Store) : Type 0 where
    pub answers : List Expected
    pub written : List (ℕ × Bytes)
    pub store : r.Store
    pub specified : replies [] (map (λ a. a.request) arrivals) ≡ ok answers
    pub run :
        receive_all (redis_dao r) p getfd arrivals st
        ≡ ok (value tt, record st { store = store; written = st.written ++ written })
    pub are_sent : AreSent p answers written

  requested :
      (arrivals : List Arrival)
      → All (IsArrival json_laws getfd) arrivals
      → All (IsRequest json_laws) (map (λ a. a.request) arrivals)
  requested [] all = tt
  requested (a ∷ rest) (arrives, all) = (arrives.is_request, requested rest all)

  length-map : (arrivals : List Arrival) → length (map (λ a. a.request) arrivals) ≡ length arrivals
  length-map [] = refl
  length-map (a ∷ rest) = omega (arith, length-map rest)

  -- From a ready database without users on: less than 2 ^ 31 REGISTER, LOGIN and LOGOUT messages with a
  -- name and a password each arrive, from connections with a descriptor, as the texts that a program
  -- writes of them, while their answers can be packed. Then either a logout comes under a name that the
  -- list of names and passwords does not have, and `readcb` reads through NULL; or `readcb` returns
  -- for each, and what is written is, in order and to the sender of each message, a text that is
  -- unpacked to its message with the type of the request and, in decimal, the id which that list
  -- gives. The table of clients stays.
  pub receive_all_from_empty :
      (arrivals : List Arrival) (st : State r.Store)
      → laws.Ready st.store
      → ((name : Bytes) → (laws.db st.store).hash users_key name ≡ none)
      → (laws.db st.store).counter next_user_id ≡ 0
      → All (IsArrival json_laws getfd) arrivals
      → length arrivals < 2 ^ 31
      → ((replies [] (map (λ a. a.request) arrivals) ≡ fault null_pointer)
          × (receive_all (redis_dao r) p getfd arrivals st ≡ fault null_pointer))
        ⊎ Exchanged arrivals st
  receive_all_from_empty arrivals st ready nobody none_issued all room =
      let same = receive_all-serve_all json_laws getfd (redis_dao r) arrivals all st in
      elim (serve_all_from_empty laws json_laws getfd (map (λ a. a.request) arrivals) st ready
        nobody none_issued (requested arrivals all) (omega (arith, length-map arrivals))) [
          | inl (out, faults) ↦ inl (out, same ∙ faults)
          | inr served ↦ inr (record {
            answers = served.answers;
            written = served.sent;
            store = served.store;
            specified = served.specified;
            run = same ∙ served.run;
            are_sent = served.are_sent;
          })
        ]
