-- ===== src/Message/Examples.antt =====
-- The theorems on packed messages at concrete messages.
use chat_hub.Base.{List, ◌+◌, ◌≡◌, refl, some, [], ◌∷◌, pos, length, replicate, arith}
use chat_hub.Run.{out_of_bounds, ok, fault, null_pointer}
use chat_hub.Text.{Bytes, codes, same_string}
use chat_hub.Config.{Message, new_message}
use chat_hub.Message.{pack_message, unpack_message}
use chat_hub.Message.Codec.{codec, codec_laws, codec_text, words_text, words, lookup, word_text}
use chat_hub.Message.RoundTrip.{
  pack_message-unpack_message_long, IsMessage, unpack_message-pack_message,
  unpack_message_malformed,
}

abbrev hello : Message
hello = record new_message { group_id = pos 1; sender_name = codes "simon"; msg = codes "hello" }

hello-IsMessage : IsMessage codec_laws hello
hello-IsMessage = record {
  sender_text = codec_text (codes "simon");
  sender_fits = omega arith;
  msg_text = codec_text (codes "hello");
  msg_fits = omega arith;
  msg_id_exact = omega arith;
  group_id_exact = omega arith;
  send_time_exact = omega arith;
  type_exact = omega arith;
}

unpack_message-pack_message_example :
    (json : Bytes) × (pack_message codec hello ≡ ok (some json, length json + 1))
    × (unpack_message codec json ≡ ok hello)
unpack_message-pack_message_example = unpack_message-pack_message codec_laws hello hello-IsMessage

unpack_message_malformed_example : unpack_message codec (codes "hello") ≡ fault null_pointer
unpack_message_malformed_example = unpack_message_malformed codec codec_laws (codes "hello") refl

-- the text of an object with a name of 20 bytes
abbrev long_name : Bytes
long_name = replicate 20 b'a'

abbrev long_object : List Bytes
long_object = codes "senderName" ∷ (1 ∷ long_name) ∷ codes "msg" ∷ (1 ∷ codes "hello") ∷ []

abbrev long_text : Bytes
long_text = b'{' ∷ words_text long_object

pack_message-unpack_message_long_example :
    (m : Message) × (unpack_message codec long_text ≡ ok m)
    × (pack_message codec m ≡ fault out_of_bounds)
unfolding words_text word_text words lookup same_string
pack_message-unpack_message_long_example =
    pack_message-unpack_message_long codec long_text long_name (codes "hello") refl refl
      (omega arith)
