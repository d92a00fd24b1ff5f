-- ===== src/Session/Examples.antt =====
-- A login at a concrete user, from the keyboard to the answer.
use chat_hub.Base.{false, true, ◌≡◌, refl, some, [], ◌∷◌, ◌++◌, pos, arith}
use chat_hub.Run.{ok}
use chat_hub.Text.{codes, same_string, show_ℤ, show_ℕ, show_digits}
use chat_hub.Config.{error_normal, Message, new_user, login, user_text}
use chat_hub.Config.RoundTrip.{IsName}
use chat_hub.Hashtable.{hash_init}
use chat_hub.Message.{root_value}
use chat_hub.Message.Codec.{codec, codec_laws, codec_text, words_text, word_text}
use chat_hub.Message.RoundTrip.{IsMessage, Packed, pack_message-Packed}
use chat_hub.Redis.Documented.{Db, put_field, put_fields, with_hash, with_counter}
use chat_hub.Redis.Memory.{memory_laws, empty_db}
use chat_hub.Dao.Keys.{users_key}
use chat_hub.Dao.Users.Accounts.{registered}
use chat_hub.Dao.Users.Accounts.Register.{new_account}
use chat_hub.Dao.Users.Presence.{present}
use chat_hub.Server.{State, Outside, answer}
use chat_hub.Client.{Client, new_client, stdin_cb}
use chat_hub.Client.Login.{request}
use chat_hub.Client.Typed.{requested, stdin_cb_cut}
use chat_hub.Session.Sent.{IsShort}
use chat_hub.Session.{Exchange, login_session, refused_session}

abbrev here : Outside
here = record { now = pos 3; junk = pos 0; beyond = 5 ∷ [] }

abbrev there : Outside
there = record { now = pos 9; junk = pos 0; beyond = 7 ∷ [] }

ann-IsName : IsName (codes "ann")
ann-IsName = record {
  word = record { some_byte = ground arith; solid = (refl, (refl, (refl, tt))) };
  short = omega arith;
}

secret-IsName : IsName (codes "secret")
secret-IsName = record {
  word = record {
    some_byte = ground arith;
    solid = (refl, (refl, (refl, (refl, (refl, (refl, tt))))));
  };
  short = omega arith;
}

-- the database after the registration of `ann`
abbrev one_user : Db
one_user =
    registered empty_db
      (record new_user { username = codes "ann"; pass = codes "secret"; register_time = pos 3 })
      (pos 9)

abbrev start : State Db
start = record { clients = hash_init 4; store = one_user; written = [] }

one_user_known : one_user.hash users_key (codes "ann") ≡ some (show_ℤ (pos 1))
unfolding registered put_field put_fields with_hash with_counter same_string
one_user_known = refl

abbrev login_request : Message
login_request = request here (codes "ann") (codes "secret") login

request-IsMessage : IsMessage codec_laws login_request
unfolding user_text show_ℤ show_ℕ show_digits
request-IsMessage = record {
  sender_text = codec_text (codes "ann");
  sender_fits = omega arith;
  msg_text = codec_text (user_text (codes "ann") (codes "secret") (pos 3));
  msg_fits = omega arith;
  msg_id_exact = omega arith;
  group_id_exact = omega arith;
  send_time_exact = omega arith;
  type_exact = omega arith;
}

reply-IsMessage : IsMessage codec_laws (answer login_request login (pos 1))
unfolding answer user_text show_ℤ show_ℕ show_digits
reply-IsMessage = record {
  sender_text = codec_text (codes "ann");
  sender_fits = omega arith;
  msg_text = codec_text (show_ℤ (pos 1));
  msg_fits = omega arith;
  msg_id_exact = omega arith;
  group_id_exact = omega arith;
  send_time_exact = omega arith;
  type_exact = omega arith;
}

request-IsShort : IsShort codec login_request
unfolding root_value user_text show_ℤ show_ℕ show_digits words_text word_text
request-IsShort = omega arith

reply-IsShort : IsShort codec (answer login_request login (pos 1))
unfolding root_value answer show_ℤ show_ℕ show_digits words_text word_text
reply-IsShort = omega arith

login_session_example :
    (done : Client) × Exchange memory_laws codec_laws here there new_client start
      (λ b. pos b)
      8
      ann-IsName
      secret-IsName
      request-IsMessage
      request-IsShort
      (0 ∷ [])
      []
      (present one_user (pos 1) (pos 1) (pos 8) (pos 9))
      done
    × (done.is_login ≡ true)
    × (done.user
        ≡ record new_user { user_id = pos 1; username = codes "ann"; pass = codes "secret" })
unfolding new_account
login_session_example =
    login_session memory_laws codec_laws here there new_client start (λ b. pos b) 8 ann-IsName
      secret-IsName request-IsMessage request-IsShort (0 ∷ []) [] refl (omega arith) tt refl
      one_user_known (new_account empty_db _ (pos 9)) refl (omega arith) reply-IsMessage
      reply-IsShort

abbrev guess_request : Message
guess_request = request here (codes "ann") (codes "guess") login

guess-IsName : IsName (codes "guess")
guess-IsName = record {
  word = record { some_byte = ground arith; solid = (refl, (refl, (refl, (refl, (refl, tt))))) };
  short = omega arith;
}

guess_request-IsMessage : IsMessage codec_laws guess_request
unfolding user_text show_ℤ show_ℕ show_digits
guess_request-IsMessage = record {
  sender_text = codec_text (codes "ann");
  sender_fits = omega arith;
  msg_text = codec_text (user_text (codes "ann") (codes "guess") (pos 3));
  msg_fits = omega arith;
  msg_id_exact = omega arith;
  group_id_exact = omega arith;
  send_time_exact = omega arith;
  type_exact = omega arith;
}

refusal-IsMessage : IsMessage codec_laws (answer guess_request login error_normal)
unfolding answer user_text show_ℤ show_ℕ show_digits
refusal-IsMessage = record {
  sender_text = codec_text (codes "ann");
  sender_fits = omega arith;
  msg_text = codec_text (show_ℤ error_normal);
  msg_fits = omega arith;
  msg_id_exact = omega arith;
  group_id_exact = omega arith;
  send_time_exact = omega arith;
  type_exact = omega arith;
}

guess_request-IsShort : IsShort codec guess_request
unfolding root_value user_text show_ℤ show_ℕ show_digits words_text word_text
guess_request-IsShort = omega arith

refusal-IsShort : IsShort codec (answer guess_request login error_normal)
unfolding root_value answer show_ℤ show_ℕ show_digits words_text word_text
refusal-IsShort = omega arith

refused_session_example :
    (done : Client) × Exchange memory_laws codec_laws here there new_client start
      (λ b. pos b)
      8
      ann-IsName
      guess-IsName
      guess_request-IsMessage
      guess_request-IsShort
      (0 ∷ [])
      []
      one_user
      done
    × (done.is_login ≡ false)
    × (done.user ≡ record new_user { username = []; pass = [] })
unfolding new_account same_string
refused_session_example =
    refused_session memory_laws codec_laws here there new_client start (λ b. pos b) 8 ann-IsName
      guess-IsName guess_request-IsMessage guess_request-IsShort (0 ∷ []) [] refl (omega arith) tt
      refl one_user_known (new_account empty_db _ (pos 9)) refl refusal-IsMessage refusal-IsShort

key-IsName : IsName (codes "key")
key-IsName = record {
  word = record { some_byte = ground arith; solid = (refl, (refl, (refl, tt))) };
  short = omega arith;
}

simon-IsName : IsName (codes "simon")
simon-IsName = record {
  word = record { some_byte = ground arith; solid = (refl, (refl, (refl, (refl, (refl, tt))))) };
  short = omega arith;
}

-- the request of `simon` with a password of three bytes
abbrev cut_request : Message
cut_request = request here (codes "sim") (codes "key") login

cut_request-IsMessage : IsMessage codec_laws cut_request
unfolding user_text show_ℤ show_ℕ show_digits
cut_request-IsMessage = record {
  sender_text = codec_text (codes "sim");
  sender_fits = omega arith;
  msg_text = codec_text (user_text (codes "sim") (codes "key") (pos 3));
  msg_fits = omega arith;
  msg_id_exact = omega arith;
  group_id_exact = omega arith;
  send_time_exact = omega arith;
  type_exact = omega arith;
}

cut_packed : Packed codec cut_request
cut_packed = pack_message-Packed codec_laws cut_request cut_request-IsMessage

stdin_cb_cut_example :
    stdin_cb codec here new_client (b'1' ∷ 10 ∷ []) (codes "simon" ++ 10 ∷ 0 ∷ []) (codes "key")
    ≡ ok (requested codec here new_client (codes "sim") (codes "key") cut_packed.text)
stdin_cb_cut_example =
    stdin_cb_cut codec here new_client (0 ∷ []) refl simon-IsName key-IsName (omega arith)
      cut_packed
