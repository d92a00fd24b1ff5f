-- ===== src/Server/Accounts/Served.antt =====
-- Each kind of request follows the list of names and passwords (`handleAllMessage` of server/server.c).
use chat_hub.Base.{
  ℕ, ◌+◌, ◌<◌, ◌^◌, ◌≡◌, ◌⊎◌, inl, inr, refl, ◌∙◌, ap, Option, none, some, length, ℤ, pos, abs,
  to_int, is_pos, Bool-cases, arith,
}
use chat_hub.Run.{ok, fault, null_pointer}
use chat_hub.Text.{Bytes, same_string}
use chat_hub.Config.{Message}
use chat_hub.Message.{Parson}
use chat_hub.Message.{Documented as DocumentedJson}
use chat_hub.Message.RoundTrip.{pack_message-Packed}
use chat_hub.Redis.{Redis}
use chat_hub.Redis.Documented.{Db, Documented}
use chat_hub.Dao.Interface.{redis_dao}
use chat_hub.Dao.Users.Presence.{set_online_lem}
use chat_hub.Dao.Users.Refine.{Users, find_from, registered_as, logged_in, logged_out, step_users}
use chat_hub.Dao.Users.Refine.Stored.{Stored, Holds, Holds-present}
use chat_hub.Dao.Users.Refine.Runs.{register-Follows, login-Follows, logout-Follows}
use chat_hub.Server.{State, Outside, handle_all_message}
use chat_hub.Server.Steps.{register_run, logout_run, logout_fault, login_run, refused_run}
use chat_hub.Server.Request.{
  handle_all_message-login, handle_all_message-logout, handle_all_message-register,
  handle_all_message-logout_fault,
}
use chat_hub.Server.Accounts.{Request, Ask, to_register, to_login, to_logout, user_of, op_of}
use chat_hub.Server.Accounts.Requests.{
  IsRequest, answer-IsMessage, Served, Served-by, register_user-user_of, login_user-user_of,
  logout_user-user_of,
}

module _ {r : Redis} {p : Parson} (laws : Documented r) (json_laws : DocumentedJson p)
    (getfd : ℕ → ℤ) where
  module _ (o : Outside) (from : ℕ) (m : Message) (name pass : Bytes) (time : ℤ) where
    abbrev asks : Ask → Request
    asks ask = record {
      outside = o;
      from = from;
      message = m;
      ask = ask;
      name = name;
      pass = pass;
      time = time;
    }

    module _ (us : Users) (d : Db) (h : Holds d us) (st : State r.Store)
        (ready : laws.Ready st.store) (e : laws.db st.store ≡ d)
        (room : length us + 1 < 2 ^ 31) where
      registered_small :
          (found : Option (ℕ × Bytes)) → abs (registered_as us name pass found).1 < 2 ^ 31
      registered_small none = omega arith
      registered_small (some found) = omega arith

      register-Served :
          IsRequest json_laws (asks to_register)
          → Served laws json_laws getfd us st
              (asks to_register)
              (registered_as us name pass (find_from 1 us name))
      register-Served q =
          let found = find_from 1 us name in
          let f = register-Follows laws d us h ready e name pass o.now found room refl in
          let packed = pack_message-Packed json_laws _ (
            answer-IsMessage json_laws q (registered_as us name pass found).1
              (registered_small found)) in
          Served-by laws json_laws getfd packed
            (handle_all_message-register (redis_dao r) p o getfd from m st q.typed (
              register_run (redis_dao r) p o st from m q.read
                (ap (λ c. c st.store) (register_user-user_of r (asks to_register) o.now)
                  ∙ f.returns.run)
                packed.made))
            f.returns.ready_after f.returns.contents f.holds f.longer

      -- an id that the specification finds
      id_small : (id : ℕ) (word : Bytes) → find_from 1 us name ≡ some (id, word) → id < 2 ^ 31
      id_small id word f =
          let there : Stored d name id word = rw f at (h.found name) in
          omega (arith, there.issued, h.counted)

      logged_out_small :
          (found : Option (ℕ × Bytes)) (id : ℤ)
          → find_from 1 us name ≡ found
          → logged_out found ≡ ok id
          → abs id < 2 ^ 31
      logged_out_small none id f out = ground arith
      logged_out_small (some (n, word)) id f out =
          let same : pos n ≡ id = ground arith in rw (← same) (id_small n word f)

      logged_in_small :
          (found : Option (ℕ × Bytes))
          → find_from 1 us name ≡ found
          → abs (logged_in pass found) < 2 ^ 31
      logged_in_small none f = omega arith
      logged_in_small (some (n, word)) f = elim (Bool-cases (same_string pass word)) [
        | inl same ↦ rw same (id_small n word f)
        | inr other ↦ rw other (omega arith)
      ]

      logout-Served :
          IsRequest json_laws (asks to_logout)
          → ((logged_out (find_from 1 us name) ≡ fault null_pointer)
              × (handle_all_message (redis_dao r) p o getfd from m st ≡ fault null_pointer))
            ⊎ ((id : ℤ) × (logged_out (find_from 1 us name) ≡ ok id)
                × Served laws json_laws getfd us st (asks to_logout) (us, id))
      logout-Served q =
          elim (logout-Follows laws d us h ready e name o.now (find_from 1 us name) refl) [
            | inl (out, faults) ↦ inl (
              out,
              handle_all_message-logout_fault (redis_dao r) p o getfd from m st q.typed (
                  logout_fault (redis_dao r) p o st from m q.read
                    (ap (λ c. c st.store) (logout_user-user_of r (asks to_logout) o.now) ∙ faults)),
            )
            | inr (id, out, f) ↦
                let packed = pack_message-Packed json_laws _ (
                  answer-IsMessage json_laws q id
                    (logged_out_small (find_from 1 us name) id refl out)) in
                inr (
                  id,
                  out,
                  Served-by laws json_laws getfd packed
                      (handle_all_message-logout (redis_dao r) p o getfd from m st q.typed (
                        logout_run (redis_dao r) p o st from m q.read
                          (ap (λ c. c st.store) (logout_user-user_of r (asks to_logout) o.now)
                            ∙ f.returns.run)
                          packed.made))
                      f.returns.ready_after f.returns.contents f.holds f.longer,
                )
          ]

      login-Served :
          IsRequest json_laws (asks to_login)
          → Served laws json_laws getfd us st
              (asks to_login)
              (us, logged_in pass (find_from 1 us name))
      login-Served q =
          let id = logged_in pass (find_from 1 us name) in
          let f = login-Follows laws d us h ready e name pass (find_from 1 us name) refl in
          let found = ap (λ c. c st.store) (login_user-user_of r (asks to_login)) ∙ f.returns.run in
          let packed =
            pack_message-Packed json_laws _
              (answer-IsMessage json_laws q id (logged_in_small (find_from 1 us name) refl)) in
          elim (Bool-cases (is_pos (to_int id))) [
            | inl positive ↦
                let online =
                  set_online_lem laws f.db_after f.returns.ready_after f.returns.contents
                    (record (user_of (asks to_login)) { user_id = id }) o.now (getfd from) in
                Served-by laws json_laws getfd packed
                  (handle_all_message-login (redis_dao r) p o getfd from m st q.typed (
                    login_run (redis_dao r) p o st from m q.read getfd found packed.made positive
                      online.run))
                  online.ready_after online.contents
                  (Holds-present f.db_after id (pos 1) (getfd from) o.now f.holds) f.longer
            | inr negative ↦
                Served-by laws json_laws getfd packed
                  (handle_all_message-login (redis_dao r) p o getfd from m st q.typed (
                    refused_run (redis_dao r) p o st from m q.read getfd found packed.made
                      negative))
                  f.returns.ready_after f.returns.contents f.holds f.longer
          ]

      -- every request: the server reads through NULL where the specification says so, and follows it
      -- otherwise
      pub request-Served :
          (ask : Ask)
          → IsRequest json_laws (asks ask)
          → ((step_users us (op_of (asks ask)) ≡ fault null_pointer)
              × (handle_all_message (redis_dao r) p o getfd from m st ≡ fault null_pointer))
            ⊎ ((step : Users × ℤ) × (step_users us (op_of (asks ask)) ≡ ok step)
                × Served laws json_laws getfd us st (asks ask) step)
      request-Served to_register q = inr (_, refl, register-Served q)
      request-Served to_login q = inr (_, refl, login-Served q)
      request-Served to_logout q = elim (logout-Served q) [
        | inl (out, faults) ↦ inl (rw out, faults)
        | inr (id, out, served) ↦ inr ((us, id), rw out, served)
      ]
