-- ===== src/Server/Steps.antt =====
-- The user handlers of server/server.c, from the results of the functions that they call.
use chat_hub.Base.{ℕ, ◌≡◌, true, false, some, [], ◌∷◌, ◌++◌, ℤ, to_int, is_pos}
use chat_hub.Run.{ok, fault, null_pointer}
use chat_hub.Exec.{value}
use chat_hub.Text.{Bytes}
use chat_hub.Config.{User, Message, login, logout, register, msg2user}
use chat_hub.Message.{Parson, pack_message}
use chat_hub.Dao.Interface.{Dao}
use chat_hub.Server.{
  State, Outside, handle_register, handle_login, handle_logout, online_if_logged_in, answer,
  write_json, buffer_of,
}

module _ (dao : Dao) (p : Parson) (o : Outside) (st : State dao.Store) (this : ℕ)
    (message : Message) {user : User} (read : msg2user message o.junk ≡ ok user) where
  -- the state after the answer
  abbrev pub answered : dao.Store → Bytes → State dao.Store
  answered s json = record st {
    store = s;
    written = st.written ++ (this, buffer_of json o.beyond) ∷ [];
  }

  pub register_run :
      {id : ℤ} {s : dao.Store} {json : Bytes} {size : ℕ}
      → dao.register_user user o.now st.store ≡ ok (value id, s)
      → pack_message p (answer message register id) ≡ ok (some json, size)
      → handle_register dao p o this message st ≡ ok (value (to_int id), answered s json)
  unfolding handle_register write_json
  register_run done packed = rw (read, done, packed)

  pub logout_run :
      {id : ℤ} {s : dao.Store} {json : Bytes} {size : ℕ}
      → dao.logout_user user o.now st.store ≡ ok (value id, s)
      → pack_message p (answer message logout id) ≡ ok (some json, size)
      → handle_logout dao p o this message st ≡ ok (value (to_int id), answered s json)
  unfolding handle_logout write_json
  logout_run done packed = rw (read, done, packed)

  pub logout_fault :
      dao.logout_user user o.now st.store ≡ fault null_pointer
      → handle_logout dao p o this message st ≡ fault null_pointer
  unfolding handle_logout
  logout_fault faults = rw (read, faults)

  pub login_run :
      (getfd : ℕ → ℤ) {id code : ℤ} {s s' : dao.Store} {json : Bytes} {size : ℕ}
      → dao.login_user user st.store ≡ ok (value id, s)
      → pack_message p (answer message login id) ≡ ok (some json, size)
      → is_pos (to_int id) ≡ true
      → dao.set_online (record user { user_id = id }) (getfd this) o.now s ≡ ok (value code, s')
      → handle_login dao p o getfd this message st ≡ ok (value (to_int id), answered s' json)
  unfolding handle_login write_json online_if_logged_in
  login_run getfd done packed positive online = rw (read, done, packed, positive, online)

  pub refused_run :
      (getfd : ℕ → ℤ) {id : ℤ} {s : dao.Store} {json : Bytes} {size : ℕ}
      → dao.login_user user st.store ≡ ok (value id, s)
      → pack_message p (answer message login id) ≡ ok (some json, size)
      → is_pos (to_int id) ≡ false
      → handle_login dao p o getfd this message st ≡ ok (value (to_int id), answered s json)
  unfolding handle_login write_json online_if_logged_in
  refused_run getfd done packed negative = rw (read, done, packed, negative)
