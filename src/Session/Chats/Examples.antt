-- ===== src/Session/Chats/Examples.antt =====
-- A chat line in a room with one other member.
use chat_hub.Base.{◌≡◌, refl, none, true, some, [], ◌∷◌, ◌++◌, map, set, replicate, pos, arith}
use chat_hub.Run.{ok}
use chat_hub.Exec.{value}
use chat_hub.Text.{Bytes, codes, show_ℤ}
use chat_hub.Text.Scan.{IsWord}
use chat_hub.Config.{Message, new_user}
use chat_hub.Hashtable.{hash_get, find, find_loop, hash_of, next_slot}
use chat_hub.Message.{root_value}
use chat_hub.Message.Codec.{codec, codec_laws, codec_text, words_text, word_text}
use chat_hub.Message.RoundTrip.{IsMessage}
use chat_hub.Redis.Documented.{Db}
use chat_hub.Redis.Memory.{memory, memory_laws}
use chat_hub.Dao.Interface.{redis_dao}
use chat_hub.Dao.Rooms.Members.{Member, online}
use chat_hub.Server.{State, Outside}
use chat_hub.Server.Input.{readcb}
use chat_hub.Server.Chat.{sends, stored}
use chat_hub.Client.{Client, new_client, print, stdin_cb, read_cb, message_line}
use chat_hub.Client.Chat.{chat, chat_line}
use chat_hub.Session.Sent.{IsShort}
use chat_hub.Session.Chats.{chat_session}

-- every user has the descriptor 5
abbrev room_db : Db
room_db = record {
  hash = λ k f. some (show_ℤ (pos 5));
  members = λ k. show_ℤ (pos 1) ∷ [];
  counter = λ k. 1;
}

member_1 : Member room_db 1
member_1 = record {
  positive = omega arith;
  small = omega arith;
  fd = pos 5;
  fits = refl;
  kept = refl;
}

-- the buffer 9 has the descriptor 5
abbrev start : State Db
start = record {
  clients = record {
    slots = set (replicate 8 none) 5 (some (record { key = pos 5; value = 9 }));
    cap = 8;
    size = 1;
  };
  store = room_db;
  written = [];
}

connected_5 : hash_get start.clients (pos 5) ≡ ok 9
unfolding hash_get find find_loop hash_of next_slot
connected_5 = refl

abbrev here : Outside
here = record { now = pos 3; junk = pos 0; beyond = 5 ∷ [] }

abbrev there : Outside
there = record { now = pos 9; junk = pos 0; beyond = 7 ∷ [] }

abbrev simon : Client
simon = record new_client { user = record new_user { username = codes "simon" }; is_login = true }

abbrev hello : Message
hello = chat here (codes "simon") 1 (codes "hello")

hello-IsWord : IsWord (codes "hello")
hello-IsWord = record {
  some_byte = ground arith;
  solid = (refl, (refl, (refl, (refl, (refl, tt)))));
}

hello-IsMessage : IsMessage codec_laws hello
hello-IsMessage = record {
  sender_text = codec_text (codes "simon");
  sender_fits = omega arith;
  msg_text = codec_text (codes "hello");
  msg_fits = omega arith;
  msg_id_exact = omega arith;
  group_id_exact = omega arith;
  send_time_exact = omega arith;
  type_exact = omega arith;
}

hello-IsShort : IsShort codec hello
unfolding root_value words_text word_text
hello-IsShort = omega arith

chat_session_example :
    (waiting : Client) × (request_bytes : Bytes) × (served : State Db) × (bytes : Bytes) × (stdin_cb
        codec here simon
        (chat_line 1 (codes "hello") ++ 10 ∷ 0 ∷ [])
        []
        []
      ≡ ok waiting)
    × (waiting.written ≡ request_bytes ∷ [])
    × (readcb (redis_dao memory) codec (λ b. pos b) there 8 [] request_bytes start
        ≡ ok (value tt, served))
    × (served.written ≡ sends 8 bytes (map (λ fd. 9) (online room_db (1 ∷ []) (member_1, tt))))
    × (served.store
        ≡ stored 8 room_db hello (map (λ fd. 9) (online room_db (1 ∷ []) (member_1, tt))))
    × ((other : Client) → read_cb codec other bytes ≡ ok (print other (message_line hello)))
unfolding member_1
chat_session_example =
    chat_session memory_laws codec_laws here there simon start (λ b. pos b) 8 (λ fd. 9) 1
      (codes "hello") (0 ∷ []) [] [] [] refl hello-IsWord (omega arith) hello-IsMessage
      hello-IsShort refl refl room_db (1 ∷ []) (member_1, tt) tt refl refl (connected_5, tt)
      (omega arith)
