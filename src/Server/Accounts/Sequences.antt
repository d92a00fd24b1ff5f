-- ===== src/Server/Accounts/Sequences.antt =====
-- Sequences of registrations, logins and logouts that the server (server/server.c) handles.
use chat_hub.Base.{
  ℕ, ◌+◌, ◌<◌, ◌^◌, ◌≡◌, ◌⊎◌, inl, inr, refl, ap, none, List, [], ◌∷◌, ◌++◌, length, ℤ, All,
  append-nil, append_assoc, arith,
}
use chat_hub.Run.{ok, fault, null_pointer}
use chat_hub.Exec.{value}
use chat_hub.Text.{Bytes}
use chat_hub.Text.Decimal.{atoll-show_ℤ}
use chat_hub.Message.{Parson}
use chat_hub.Message.{Documented as DocumentedJson}
use chat_hub.Redis.{Redis}
use chat_hub.Redis.Documented.{Db, Documented}
use chat_hub.Dao.Interface.{redis_dao}
use chat_hub.Dao.Keys.{users_key, next_user_id}
use chat_hub.Dao.Users.Refine.{Users, find_from}
use chat_hub.Dao.Users.Refine.Stored.{Holds}
use chat_hub.Server.{State, answer, buffer_of}
use chat_hub.Server.Accounts.{
  Request, Expected, IsAnswer, expected, type_of, replies, serve_all, AreSent, none_sent, one_sent,
}
use chat_hub.Server.Accounts.Requests.{IsRequest}
use chat_hub.Server.Accounts.Served.{request-Served}

-- the server's answer is that of the specification
answer-IsAnswer :
    (q : Request) (id : ℤ) → IsAnswer (expected q id) (answer q.message (type_of q.ask) id)
unfolding answer
answer-IsAnswer q id = record {
  typed = refl;
  decimal = refl;
  reads_id = atoll-show_ℤ id;
  same_msg_id = refl;
  same_group = refl;
  same_sender = refl;
  same_time = refl;
}

module _ {r : Redis} {p : Parson} (laws : Documented r) (json_laws : DocumentedJson p)
    (getfd : ℕ → ℤ) where
  -- the answers of the specification are written, in their order, and nothing else changes but the
  -- database
  pub record Answered (us : Users) (st : State r.Store) (qs : List Request) : Type 0 where
    pub answers : List Expected
    pub sent : List (ℕ × Bytes)
    pub store : r.Store
    pub specified : replies us qs ≡ ok answers
    pub run :
        serve_all (redis_dao r) p getfd qs st
        ≡ ok (value tt, record st { store = store; written = st.written ++ sent })
    pub are_sent : AreSent p answers sent

  serve_all-refines :
      (qs : List Request) (us : Users) (d : Db) (st : State r.Store)
      → Holds d us
      → laws.Ready st.store
      → laws.db st.store ≡ d
      → All (IsRequest json_laws) qs
      → length us + length qs < 2 ^ 31
      → ((replies us qs ≡ fault null_pointer)
          × (serve_all (redis_dao r) p getfd qs st ≡ fault null_pointer))
        ⊎ Answered us st qs
  unfolding replies
  serve_all-refines [] us d st h ready e requests room = inr (record {
    answers = [];
    sent = [];
    store = st.store;
    specified = refl;
    run = rw append-nil;
    are_sent = none_sent;
  })
  serve_all-refines (q ∷ qs) us d st h ready e (request, requests) room =
      elim (request-Served laws json_laws getfd q.outside q.from q.message q.name q.pass q.time us d
        h st ready e (omega arith) q.ask request) [
          | inl (out, faults) ↦ inl (rw out, rw faults)
          | inr (step, out, served) ↦
              elim (serve_all-refines qs step.0 served.db_after
                (record st {
                  store = served.store;
                  written =
                      st.written ++ (q.from, buffer_of served.packed.text q.outside.beyond) ∷ [];
                })
                served.holds served.ready_after served.contents requests
                (omega (arith, served.longer))) [
                  | inl (rest_out, rest_faults) ↦
                      inl (rw (out, rest_out), rw (served.run, rest_faults))
                  | inr rest ↦ inr (record {
                    answers = _;
                    sent = (q.from, buffer_of served.packed.text q.outside.beyond) ∷ rest.sent;
                    store = rest.store;
                    specified = rw (out, rest.specified);
                    run =
                        rw (served.run, rest.run)
                          (ap (λ w. ok (value tt, record st { store = rest.store; written = w }))
                            (append_assoc st.written
                              ((q.from, buffer_of served.packed.text q.outside.beyond) ∷ [])
                              rest.sent));
                    are_sent =
                        one_sent (expected q step.1) _ (answer-IsAnswer q step.1) served.packed
                          q.outside.beyond rest.are_sent;
                  })
                ]
        ]

  -- From a ready database without users on, for every sequence of less than 2 ^ 31 REGISTER, LOGIN and
  -- LOGOUT messages from which `msg2user` reads a name and a password each, while their answers can be
  -- packed: either a logout comes under a name that the list of names and passwords does not have, and
  -- the server reads through NULL; or `handleAllMessage` returns for each, and what is written is, in order
  -- and to the sender of each message, a text that is unpacked to the answer which that list gives. The
  -- table of clients stays.
  pub serve_all_from_empty :
      (qs : List Request) (st : State r.Store)
      → laws.Ready st.store
      → ((name : Bytes) → (laws.db st.store).hash users_key name ≡ none)
      → (laws.db st.store).counter next_user_id ≡ 0
      → All (IsRequest json_laws) qs
      → length qs < 2 ^ 31
      → ((replies [] qs ≡ fault null_pointer)
          × (serve_all (redis_dao r) p getfd qs st ≡ fault null_pointer))
        ⊎ Answered [] st qs
  unfolding find_from
  serve_all_from_empty qs st ready nobody none_issued requests room =
      serve_all-refines qs [] (laws.db st.store) st
        (record { counted = none_issued; found = nobody }) ready refl requests (omega arith)
