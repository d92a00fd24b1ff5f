-- ===== src/Client/Answer.antt =====
-- The client's `read_cb` (client/client.c) on the server's answer to a login.
use chat_hub.Base.{
  ◌<◌, ◌≤◌, ◌≡◌, ◌∙◌, ap, true, false, [], ◌∷◌, ◌++◌, length, take, ℤ, is_pos, ◌==◌, arith,
  if◌then◌else◌, All, append_assoc, length-take,
}
use chat_hub.Run.{ok}
use chat_hub.Text.{codes, Bytes, show_ℤ}
use chat_hub.Text.Decimal.{atoll-show_ℤ}
use chat_hub.Config.{Message, login, max_buff, max_msg_data}
use chat_hub.Message.{Parson, unpack_message}
use chat_hub.Message.RoundTrip.{load_fits}
use chat_hub.Server.{answer, buffer_of}
use chat_hub.Server.Input.{c_string}
use chat_hub.Server.Input.Buffer.{c_string_text, take_past, take_all}
use chat_hub.Client.{print, welcome, Client, read_cb, login_answer}

pub c_string-taken :
    (i json t rest : Bytes)
    → i ≡ json ++ 0 ∷ t
    → length i ≤ max_buff
    → All (λ c. (c == 0) ≡ false) json
    → c_string (take max_buff i ++ rest) ≡ ok json
c_string-taken i json t rest e small all =
    ap (λ x. c_string (x ++ rest)) (take_all max_buff i small ∙ e)
    ∙ ap c_string (append_assoc json (0 ∷ t) rest)
    ∙ c_string_text json (t ++ rest) all

-- what the client keeps of an answer with `id`
unfoldable pub logged_in : Client → ℤ → Client
logged_in client id =
    if is_pos id
    then print (record client { user = record client.user { user_id = id }; is_login = true })
        (welcome client.user.username)
    else print (record client { user = record client.user { username = []; pass = [] } })
        (codes "Login error!" ++ 10 ∷ [])

login_answer_lem :
    (client : Client) (message : Message) (id : ℤ)
    → length (show_ℤ id) < max_msg_data
    → login_answer client (answer message login id) ≡ ok (logged_in client id)
unfolding login_answer answer logged_in
login_answer_lem client message id fits =
    rw (load_fits max_msg_data (show_ℤ id) fits, atoll-show_ℤ id)

module _ (p : Parson) (client : Client) (message : Message) (id : ℤ) where
  read_cb_run :
      {json : Bytes} (input : Bytes)
      → c_string
          (take max_buff input ++ (if length (take max_buff input) == max_buff then [] else 0 ∷ []))
        ≡ ok json
      → unpack_message p json ≡ ok (answer message login id)
      → length (show_ℤ id) < max_msg_data
      → read_cb p client input ≡ ok (logged_in client id)
  unfolding read_cb answer
  read_cb_run input got unpacked fits = rw (got, unpacked) (login_answer_lem client message id fits)

  -- The server's answer to a login, a LOGIN message with an id as its text, in a JSON text of less
  -- than 4096 bytes that is written as MAX_BUFF bytes and arrives in one piece: `read_cb` logs the
  -- client in under an id above 0 and greets, and for another forgets the name and the password and
  -- reports the error.
  pub read_cb-answer :
      (json beyond : Bytes)
      → All (λ c. (c == 0) ≡ false) json
      → length json < max_buff
      → unpack_message p json ≡ ok (answer message login id)
      → length (show_ℤ id) < max_msg_data
      → read_cb p client (buffer_of json beyond) ≡ ok (logged_in client id)
  unfolding buffer_of
  read_cb-answer json beyond all short unpacked fits =
      let (t, e) = take_past max_buff 0 json beyond short in
      read_cb_run _
        (c_string-taken _ json t _ e (omega (arith, length-take max_buff (json ++ 0 ∷ beyond))) all)
        unpacked fits
