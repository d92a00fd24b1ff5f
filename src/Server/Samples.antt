-- ===== src/Server/Samples.antt =====
-- Users, messages and what is outside, for the examples of the server.
use chat_hub.Base.{abs, ◌≤◌, ◌<◌, ◌^◌, ◌≡◌, refl, [], ◌∷◌, length, ℤ, pos, arith}
use chat_hub.Run.{ok}
use chat_hub.Text.{Bytes, codes, show_ℤ, show_ℕ, show_digits}
use chat_hub.Config.{max_msg_data, User, Message, new_user, new_message, user_text, msg2user}
use chat_hub.Config.RoundTrip.{IsName, msg2user-user_text}
use chat_hub.Message.Codec.{codec_laws, codec_text}
use chat_hub.Message.RoundTrip.{IsMessage}
use chat_hub.Server.{Outside, answer}

abbrev pub outside : Outside
outside = record { now = pos 9; junk = pos 0; beyond = 7 ∷ [] }

abbrev pub ann : User
ann = record new_user { username = codes "ann"; pass = codes "secret"; register_time = pos 3 }

abbrev pub ann_message : Bytes → Message
ann_message pass = record new_message {
  sender_name = codes "ann";
  msg = user_text (codes "ann") pass (pos 3);
}

pub ann-IsName : IsName (codes "ann")
ann-IsName = record {
  word = record { some_byte = ground arith; solid = (refl, (refl, (refl, tt))) };
  short = omega arith;
}

pub secret-IsName : IsName (codes "secret")
secret-IsName = record {
  word = record {
    some_byte = ground arith;
    solid = (refl, (refl, (refl, (refl, (refl, (refl, tt))))));
  };
  short = omega arith;
}

pub answer-IsMessage :
    (pass : Bytes) (type id : ℤ)
    → abs type ≤ 2 ^ 53
    → length (show_ℤ id) < max_msg_data
    → IsMessage codec_laws (answer (ann_message pass) type id)
unfolding answer
answer-IsMessage pass type id h fits = record {
  sender_text = codec_text (codes "ann");
  sender_fits = omega arith;
  msg_text = codec_text (show_ℤ id);
  msg_fits = fits;
  msg_id_exact = omega arith;
  group_id_exact = omega arith;
  send_time_exact = omega arith;
  type_exact = h;
}

pub short_id : length (show_ℤ (pos 1)) < max_msg_data
unfolding show_ℤ show_ℕ show_digits
short_id = omega arith

pub reads_secret : msg2user (ann_message (codes "secret")) (pos 0) ≡ ok ann
reads_secret =
    msg2user-user_text ann-IsName secret-IsName (pos 3) (ann_message (codes "secret")) (pos 0)
      (omega arith) refl

abbrev pub hello : Message
hello = record new_message {
  group_id = pos 1;
  sender_name = codes "simon";
  msg = codes "hello";
  send_time = pos 3;
}

pub hello-IsMessage : IsMessage codec_laws hello
hello-IsMessage = record {
  sender_text = codec_text (codes "simon");
  sender_fits = omega arith;
  msg_text = codec_text (codes "hello");
  msg_fits = omega arith;
  msg_id_exact = omega arith;
  group_id_exact = omega arith;
  send_time_exact = omega arith;
  type_exact = omega arith;
}
