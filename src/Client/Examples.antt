-- ===== src/Client/Examples.antt =====
-- The theorems on the client at a concrete user and a concrete answer.
use chat_hub.Base.{◌≡◌, ◌<◌, refl, List, [], ◌∷◌, length, pos, arith}
use chat_hub.Run.{ok}
use chat_hub.Text.{Bytes, codes, show_ℤ, show_ℕ, show_digits, same_string}
use chat_hub.Config.{Message, new_message, login, max_buff}
use chat_hub.Message.{unpack_message}
use chat_hub.Message.Codec.{codec, words_text, word_text, words, lookup, words_text_positive}
use chat_hub.Server.{answer, buffer_of}
use chat_hub.Client.{new_client}
use chat_hub.Libevent.{dispatching}
use chat_hub.Client.Main.{Event, received, dispatch_events, callback}
use chat_hub.Client.Main.Sound.{IsSound, dispatch_events-IsSound}
use chat_hub.Client.Answer.{logged_in, read_cb-answer}

abbrev request : Message
request = record new_message { sender_name = codes "ann"; msg = codes "ann ann 9"; type = login }

-- the answer with the id 1
abbrev answer_object : List Bytes
answer_object =
    codes "msg"
    ∷ (1 ∷ b'1' ∷ [])
    ∷ codes "type"
    ∷ (0 ∷ 0 ∷ 2 ∷ [])
    ∷ codes "senderName"
    ∷ (1 ∷ codes "ann")
    ∷ codes "msgId"
    ∷ (0 ∷ 0 ∷ 0 ∷ [])
    ∷ codes "groupId"
    ∷ (0 ∷ 0 ∷ 0 ∷ [])
    ∷ codes "sendTime"
    ∷ (0 ∷ 0 ∷ 0 ∷ [])
    ∷ []

abbrev answer_text : Bytes
answer_text = b'{' ∷ words_text answer_object

answer_read : unpack_message codec answer_text ≡ ok (answer request login (pos 1))
unfolding unpack_message answer words_text word_text words lookup same_string show_ℤ show_ℕ
    show_digits
answer_read = refl

answer_short : length answer_text < max_buff
unfolding words_text word_text
answer_short = omega arith

one_short : length (show_ℤ (pos 1)) < 2048
unfolding show_ℤ show_ℕ show_digits
one_short = omega arith

-- the server's answer comes
abbrev events : List Event
events = received (buffer_of answer_text (7 ∷ [])) ∷ []

answer_comes :
    dispatch_events codec events new_client dispatching
    ≡ ok (logged_in new_client (pos 1), dispatching)
unfolding dispatch_events callback
answer_comes =
    rw
      (read_cb-answer codec new_client request (pos 1) answer_text (7 ∷ [])
        (refl, words_text_positive answer_object) answer_short answer_read one_short)
      refl

dispatch_events-IsSound_example : IsSound (logged_in new_client (pos 1))
dispatch_events-IsSound_example = dispatch_events-IsSound codec events answer_comes
