-- ===== src/Server/Chat/Examples.antt =====
-- `handleChat` in a room with one other member.
use chat_hub.Base.{
  ℕ, ◌<◌, List, ◌≡◌, refl, none, some, [], ◌∷◌, ◌++◌, map, set, replicate, pos, arith,
}
use chat_hub.Run.{ok}
use chat_hub.Exec.{value}
use chat_hub.Text.{Bytes, show_ℤ}
use chat_hub.Config.{Message, new_message}
use chat_hub.Hashtable.{hash_get, find, find_loop, hash_of, next_slot}
use chat_hub.Message.Codec.{codec, codec_laws}
use chat_hub.Message.RoundTrip.{unpack_message-pack_message}
use chat_hub.Redis.Documented.{Db}
use chat_hub.Redis.Memory.{memory, memory_laws}
use chat_hub.Dao.Interface.{redis_dao}
use chat_hub.Dao.Rooms.Members.{Member, online}
use chat_hub.Server.{buffer_of, State, handle_chat}
use chat_hub.Server.Samples.{outside, hello, hello-IsMessage}
use chat_hub.Dao.Rooms.Log.{AreLogs}
use chat_hub.Server.Chat.Ordered.{count, Chat, IsChat, chat_all, inbox, expected}
use chat_hub.Server.Chat.Ordered.Runs.{inbox-chat_all}
use chat_hub.Server.Chat.Logs.{others, repeated, handle_chat-AreLogs}

-- every user has the descriptor 5
abbrev room_db : Db
room_db = record {
  hash = λ k f. some (show_ℤ (pos 5));
  members = λ k. show_ℤ (pos 1) ∷ [];
  counter = λ k. 1;
}

member_1 : Member room_db 1
member_1 = record {
  positive = omega arith;
  small = omega arith;
  fd = pos 5;
  fits = refl;
  kept = refl;
}

-- the buffer 9 has the descriptor 5
abbrev start : State Db
start = record {
  clients = record {
    slots = set (replicate 8 none) 5 (some (record { key = pos 5; value = 9 }));
    cap = 8;
    size = 1;
  };
  store = room_db;
  written = [];
}

abbrev hello_text : Bytes
hello_text = (unpack_message-pack_message codec_laws hello hello-IsMessage).0

connected_5 : hash_get start.clients (pos 5) ≡ ok 9
unfolding hash_get find find_loop hash_of next_slot
connected_5 = refl

-- what every room of `room_db` holds
abbrev five : Message
five = record new_message {
  sender_name = show_ℤ (pos 5);
  msg = show_ℤ (pos 5);
  send_time = pos 5;
  type = pos 5;
}

room_db-AreLogs : AreLogs room_db (λ room. five ∷ [])
room_db-AreLogs = record {
  log = λ room. record {
    counted = refl;
    kept = (record { msg_kept = refl; sender_kept = refl; time_kept = refl; type_kept = refl }, tt);
  };
}

handle_chat-AreLogs_example :
    (st' : State Db) × (handle_chat (redis_dao memory) codec outside 8 hello start
      ≡ ok (value hello, st'))
    × AreLogs st'.store (
        repeated
          (λ room. five ∷ [])
          (pos 1)
          (others 8 (map (λ fd. 9) (online room_db (1 ∷ []) (member_1, tt))))
          hello)
unfolding member_1
handle_chat-AreLogs_example =
    handle_chat-AreLogs codec memory_laws outside 8 hello (λ fd. 9)
      (unpack_message-pack_message codec_laws hello hello-IsMessage).1 refl start room_db (1 ∷ [])
      (member_1, tt) tt refl refl (connected_5, tt) (omega arith) (λ room. five ∷ [])
      room_db-AreLogs

-- the same message from a stranger and from the member
abbrev chat_from : ℕ → Chat
chat_from from = record { outside = outside; from = from; message = hello; json = hello_text }

hello-IsChat : (from : ℕ) → IsChat codec (pos 1) (chat_from from)
hello-IsChat from = record {
  size = _;
  packed = (unpack_message-pack_message codec_laws hello hello-IsMessage).1;
  timed = refl;
  to_room = refl;
}

-- the member gets the first
expected_lem :
    expected 9 (9 ∷ []) (chat_from 8 ∷ chat_from 9 ∷ []) ≡ buffer_of hello_text (7 ∷ []) ∷ []
unfolding expected count
expected_lem = refl

online_5 : online room_db (1 ∷ []) (member_1, tt) ≡ pos 5 ∷ []
unfolding member_1
online_5 = refl

inbox-chat_all_example :
    (s : Db) × (written : List (ℕ × Bytes)) × (chat_all
        (redis_dao memory)
        codec
        (chat_from 8 ∷ chat_from 9 ∷ [])
        start
      ≡ ok (value tt, record start { store = s; written = [] ++ written }))
    × ((b : ℕ) → 0 < b → inbox b written ≡ expected b (9 ∷ []) (chat_from 8 ∷ chat_from 9 ∷ []))
inbox-chat_all_example =
    inbox-chat_all codec memory_laws (pos 1) (λ fd. 9) (1 ∷ []) (pos 5 ∷ [])
      (chat_from 8 ∷ chat_from 9 ∷ []) (hello-IsChat 8, (hello-IsChat 9, tt)) start room_db
      (member_1, tt) online_5 tt refl refl (connected_5, tt) (omega arith)
