-- ===== src/Session/Accounts/Examples.antt =====
-- A registration, a login and a logout that arrive at the server.
use chat_hub.Base.{
  ◌<◌, ◌≤◌, ◌^◌, ◌≡◌, ◌⊎◌, ◌++◌, refl, [], ◌∷◌, List, map, ℤ, pos, abs, length, arith,
}
use chat_hub.Run.{fault, null_pointer}
use chat_hub.Text.{codes, show_ℤ, show_ℕ, show_digits, same_string}
use chat_hub.Text.Decimal.{length-show_ℤ}
use chat_hub.Config.{Message, max_msg_data, user_text}
use chat_hub.Config.RoundTrip.{msg2user-user_text}
use chat_hub.Hashtable.{hash_init}
use chat_hub.Message.Codec.{codec, codec_laws, codec_text, words_text, word_text}
use chat_hub.Message.{root_value}
use chat_hub.Message.RoundTrip.{IsMessage, pack_message-Packed}
use chat_hub.Redis.Documented.{Db}
use chat_hub.Redis.Memory.{memory, memory_laws, empty_db}
use chat_hub.Dao.Interface.{redis_dao}
use chat_hub.Server.{State, answer}
use chat_hub.Server.Samples.{outside, ann_message, ann-IsName, secret-IsName, answer-IsMessage}
use chat_hub.Server.Accounts.{Ask, to_register, to_login, to_logout, type_of, Request, replies}
use chat_hub.Server.Accounts.Requests.{IsRequest}
use chat_hub.Session.Sent.{IsShort}
use chat_hub.Session.Accounts.{Arrival, IsArrival, receive_all, Exchanged, receive_all_from_empty}

abbrev message_of : Ask → Message
message_of ask = record (ann_message (codes "secret")) { type = type_of ask }

abbrev ann_asks : Ask → Request
ann_asks ask = record {
  outside = outside;
  from = 8;
  message = message_of ask;
  ask = ask;
  name = codes "ann";
  pass = codes "secret";
  time = pos 3;
}

type_small : (ask : Ask) → abs (type_of ask) ≤ 2 ^ 53
type_small to_register = omega arith
type_small to_login = omega arith
type_small to_logout = omega arith

short_answer : (id : ℤ) → abs id < 2 ^ 31 → length (show_ℤ id) < max_msg_data
short_answer id small = omega (arith, length-show_ℤ id 9 (omega arith))

ann-IsRequest : (ask : Ask) → IsRequest codec_laws (ann_asks ask)
unfolding answer
ann-IsRequest ask = record {
  read =
      msg2user-user_text ann-IsName secret-IsName (pos 3) (message_of ask) (pos 0) (omega arith)
        refl;
  typed = refl;
  packs = λ id small.
      answer-IsMessage (codes "secret") (type_of ask) id (type_small ask) (short_answer id small);
}

message-IsMessage : (ask : Ask) → IsMessage codec_laws (message_of ask)
unfolding user_text show_ℤ show_ℕ show_digits
message-IsMessage ask = record {
  sender_text = codec_text (codes "ann");
  sender_fits = omega arith;
  msg_text = codec_text (user_text (codes "ann") (codes "secret") (pos 3));
  msg_fits = omega arith;
  msg_id_exact = omega arith;
  group_id_exact = omega arith;
  send_time_exact = omega arith;
  type_exact = type_small ask;
}

message-IsShort : (ask : Ask) → IsShort codec (message_of ask)
unfolding root_value user_text show_ℤ show_ℕ show_digits words_text word_text
message-IsShort to_register = omega arith
message-IsShort to_login = omega arith
message-IsShort to_logout = omega arith

abbrev arrival : Ask → Arrival
arrival ask = record {
  request = ann_asks ask;
  uninitialised = 5 ∷ 6 ∷ [];
  input = (pack_message-Packed codec_laws (message_of ask) (message-IsMessage ask)).text ++ 0 ∷ [];
}

arrival-IsArrival : (ask : Ask) → IsArrival codec_laws (λ b. pos 6) (arrival ask)
unfolding user_text show_ℤ show_ℕ show_digits same_string
arrival-IsArrival ask = record {
  is_request = ann-IsRequest ask;
  packed = pack_message-Packed codec_laws (message_of ask) (message-IsMessage ask);
  sent = refl;
  small = message-IsShort ask;
  some_text = refl;
  msg_fits = omega arith;
  connected = refl;
}

abbrev arrivals : List Arrival
arrivals = arrival to_register ∷ arrival to_login ∷ arrival to_logout ∷ []

abbrev start : State Db
start = record { clients = hash_init 4; store = empty_db; written = [] }

receive_all_from_empty_example :
    ((replies [] (map (λ a. a.request) arrivals) ≡ fault null_pointer)
      × (receive_all (redis_dao memory) codec (λ b. pos 6) arrivals start ≡ fault null_pointer))
    ⊎ Exchanged memory_laws codec_laws (λ b. pos 6) arrivals start
receive_all_from_empty_example =
    receive_all_from_empty memory_laws codec_laws (λ b. pos 6) arrivals start tt (λ name. refl) refl
      (
        arrival-IsArrival to_register,
        (arrival-IsArrival to_login, (arrival-IsArrival to_logout, tt)),
      )
      (omega arith)
