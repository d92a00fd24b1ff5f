-- ===== src/Server/Request.antt =====
-- A login message or a chat message that comes in (`readcb` and `handleAllMessage` of server/server.c).
use chat_hub.Base.{ℕ, ◌<◌, ◌≡◌, ◌∙◌, ap, true, false, [], length, ℤ, negsuc, eq_ℤ}
use chat_hub.Run.{ok, fault, null_pointer}
use chat_hub.Exec.{value}
use chat_hub.Text.{Bytes, same_string}
use chat_hub.Config.{Message, max_msg_data, login, logout, register, text}
use chat_hub.Message.{Parson, unpack_message}
use chat_hub.Message.RoundTrip.{load_fits}
use chat_hub.Dao.Interface.{Dao}
use chat_hub.Server.{
  State, Outside, handle_all_message, dispatch, handle_login, handle_logout, handle_register,
  handle_chat,
}
use chat_hub.Server.Input.{readcb, drain, c_string}
use chat_hub.Server.Dispatch.{all_run, type_index_pos}

module _ (dao : Dao) (p : Parson) (o : Outside) (getfd : ℕ → ℤ) (bev : ℕ) (message : Message)
    (st : State dao.Store) where
  dispatch-login :
      {code : ℤ} {st' : State dao.Store}
      → message.type ≡ login
      → handle_login dao p o getfd bev message st ≡ ok (value code, st')
      → dispatch dao p o getfd bev message st ≡ ok (value tt, st')
  unfolding dispatch
  dispatch-login is_login done =
      let same : eq_ℤ message.type login ≡ true = ap (λ z. eq_ℤ z login) is_login in rw (same, done)

  dispatch-logout :
      {code : ℤ} {st' : State dao.Store}
      → message.type ≡ logout
      → handle_logout dao p o bev message st ≡ ok (value code, st')
      → dispatch dao p o getfd bev message st ≡ ok (value tt, st')
  unfolding dispatch
  dispatch-logout is_logout done =
      let no_login : eq_ℤ message.type login ≡ false = ap (λ z. eq_ℤ z login) is_logout in
      let same : eq_ℤ message.type logout ≡ true = ap (λ z. eq_ℤ z logout) is_logout in
      rw (no_login, same, done)

  dispatch-logout_fault :
      message.type ≡ logout
      → handle_logout dao p o bev message st ≡ fault null_pointer
      → dispatch dao p o getfd bev message st ≡ fault null_pointer
  unfolding dispatch
  dispatch-logout_fault is_logout faults =
      let no_login : eq_ℤ message.type login ≡ false = ap (λ z. eq_ℤ z login) is_logout in
      let same : eq_ℤ message.type logout ≡ true = ap (λ z. eq_ℤ z logout) is_logout in
      rw (no_login, same, faults)

  dispatch-register :
      {code : ℤ} {st' : State dao.Store}
      → message.type ≡ register
      → handle_register dao p o bev message st ≡ ok (value code, st')
      → dispatch dao p o getfd bev message st ≡ ok (value tt, st')
  unfolding dispatch
  dispatch-register is_register done =
      let no_login : eq_ℤ message.type login ≡ false = ap (λ z. eq_ℤ z login) is_register in
      let no_logout : eq_ℤ message.type logout ≡ false = ap (λ z. eq_ℤ z logout) is_register in
      let same : eq_ℤ message.type register ≡ true = ap (λ z. eq_ℤ z register) is_register in
      rw (no_login, no_logout, same, done)

  pub handle_all_message-login :
      {code : ℤ} {st' : State dao.Store}
      → message.type ≡ login
      → handle_login dao p o getfd bev message st ≡ ok (value code, st')
      → handle_all_message dao p o getfd bev message st ≡ ok (value tt, st')
  handle_all_message-login is_login done =
      all_run dao p o getfd bev message st (type_index_pos dao p o getfd bev message st 2 is_login)
      ∙ dispatch-login is_login done

  pub handle_all_message-logout :
      {code : ℤ} {st' : State dao.Store}
      → message.type ≡ logout
      → handle_logout dao p o bev message st ≡ ok (value code, st')
      → handle_all_message dao p o getfd bev message st ≡ ok (value tt, st')
  handle_all_message-logout is_logout done =
      all_run dao p o getfd bev message st (type_index_pos dao p o getfd bev message st 4 is_logout)
      ∙ dispatch-logout is_logout done

  pub handle_all_message-register :
      {code : ℤ} {st' : State dao.Store}
      → message.type ≡ register
      → handle_register dao p o bev message st ≡ ok (value code, st')
      → handle_all_message dao p o getfd bev message st ≡ ok (value tt, st')
  handle_all_message-register is_register done =
      all_run dao p o getfd bev message st
        (type_index_pos dao p o getfd bev message st 3 is_register)
      ∙ dispatch-register is_register done

  -- a logout that reads through NULL
  pub handle_all_message-logout_fault :
      message.type ≡ logout
      → handle_logout dao p o bev message st ≡ fault null_pointer
      → handle_all_message dao p o getfd bev message st ≡ fault null_pointer
  handle_all_message-logout_fault is_logout faults =
      all_run dao p o getfd bev message st (type_index_pos dao p o getfd bev message st 4 is_logout)
      ∙ dispatch-logout_fault is_logout faults

  pub readcb_run :
      (uninitialised input : Bytes) {json : Bytes}
      → c_string (drain (length input) input uninitialised) ≡ ok json
      → unpack_message p json ≡ ok message
      → same_string message.msg [] ≡ false
      → length message.msg < max_msg_data
      → eq_ℤ (getfd bev) (negsuc 0) ≡ false
      → readcb dao p getfd o bev uninitialised input st
        ≡ handle_all_message dao p o getfd bev message st
  unfolding readcb
  readcb_run uninitialised input got unpacked some_text fits open_fd =
      rw (got, unpacked, some_text, load_fits max_msg_data message.msg fits, open_fd)

  -- A LOGIN message that is received as a string in the buffer, with a text, from a connection with a
  -- descriptor: `readcb` ends as `handleLogin` on this message does.
  pub readcb-login :
      (uninitialised input : Bytes) {json : Bytes} {code : ℤ} {st' : State dao.Store}
      → c_string (drain (length input) input uninitialised) ≡ ok json
      → unpack_message p json ≡ ok message
      → same_string message.msg [] ≡ false
      → length message.msg < max_msg_data
      → eq_ℤ (getfd bev) (negsuc 0) ≡ false
      → message.type ≡ login
      → handle_login dao p o getfd bev message st ≡ ok (value code, st')
      → readcb dao p getfd o bev uninitialised input st ≡ ok (value tt, st')
  readcb-login uninitialised input got unpacked some_text fits open_fd is_login done =
      readcb_run uninitialised input got unpacked some_text fits open_fd
      ∙ handle_all_message-login is_login done

  dispatch-chat :
      {m : Message} {st' : State dao.Store}
      → message.type ≡ text
      → handle_chat dao p o bev message st ≡ ok (value m, st')
      → dispatch dao p o getfd bev message st ≡ ok (value tt, st')
  unfolding dispatch
  dispatch-chat is_text done =
      let no_login : eq_ℤ message.type login ≡ false = ap (λ z. eq_ℤ z login) is_text in
      let no_logout : eq_ℤ message.type logout ≡ false = ap (λ z. eq_ℤ z logout) is_text in
      let no_register : eq_ℤ message.type register ≡ false = ap (λ z. eq_ℤ z register) is_text in
      let same : eq_ℤ message.type text ≡ true = ap (λ z. eq_ℤ z text) is_text in
      rw (no_login, no_logout, no_register, same, done)

  -- A TEXT message that is received as a string in the buffer, with a text, from a connection with a
  -- descriptor: `readcb` ends as `handleChat` on this message does.
  pub readcb-chat :
      (uninitialised input : Bytes) {json : Bytes} {m : Message} {st' : State dao.Store}
      → c_string (drain (length input) input uninitialised) ≡ ok json
      → unpack_message p json ≡ ok message
      → same_string message.msg [] ≡ false
      → length message.msg < max_msg_data
      → eq_ℤ (getfd bev) (negsuc 0) ≡ false
      → message.type ≡ text
      → handle_chat dao p o bev message st ≡ ok (value m, st')
      → readcb dao p getfd o bev uninitialised input st ≡ ok (value tt, st')
  readcb-chat uninitialised input got unpacked some_text fits open_fd is_text done =
      readcb_run uninitialised input got unpacked some_text fits open_fd
      ∙ all_run dao p o getfd bev message st (type_index_pos dao p o getfd bev message st 0 is_text)
      ∙ dispatch-chat is_text done
