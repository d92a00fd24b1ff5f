-- ===== src/Server/Chat/Presence/Examples.antt =====
-- A login and a logout with a message behind it, in a room with two members.
use chat_hub.Base.{
  ◌≡◌, refl, none, some, [], ◌∷◌, map, set, replicate, ℤ, pos, negsuc, eq_ℤ, if◌then◌else◌, arith,
  ℕ,
}
use chat_hub.Run.{ok}
use chat_hub.Exec.{◌>>=◌}
use chat_hub.Text.{codes, show_ℤ, show_ℕ, show_digits, same_string}
use chat_hub.Config.{login, logout}
use chat_hub.Hashtable.{hash_get, find, find_loop, hash_of, next_slot}
use chat_hub.Message.Codec.{codec, codec_laws}
use chat_hub.Message.RoundTrip.{unpack_message-pack_message}
use chat_hub.Redis.Documented.{Db}
use chat_hub.Redis.Memory.{memory, memory_laws}
use chat_hub.Dao.Interface.{redis_dao}
use chat_hub.Dao.Keys.{user_key}
use chat_hub.Dao.Users.Accounts.{Account}
use chat_hub.Dao.Users.Presence.{present}
use chat_hub.Dao.Rooms.Members.{Member}
use chat_hub.Dao.Rooms.Presence.{online_with}
use chat_hub.Server.{State, handle_login, handle_logout, handle_chat, answer}
use chat_hub.Server.Samples.{
  outside, hello, hello-IsMessage, ann, ann_message, answer-IsMessage, short_id, reads_secret,
}
use chat_hub.Server.Chat.Presence.{
  AnswersAndSends, handle_chat-handle_login, handle_chat-handle_logout,
}

-- The users 1 and 2 are in every room, with the descriptors 4 and 5; the name `ann` is that of 1.
abbrev db : Db
db = record {
  hash = λ k f.
      if same_string f (codes "username")
      then some (codes "ann")
      else if same_string f (codes "pass")
      then some (codes "secret")
      else if same_string f (codes "sockfd")
      then some (if same_string k (user_key (pos 1)) then show_ℤ (pos 4) else show_ℤ (pos 5))
      else some (show_ℤ (pos 1));
  members = λ k. show_ℤ (pos 1) ∷ show_ℤ (pos 2) ∷ [];
  counter = λ k. 1;
}

account : Account db (codes "ann") (show_ℤ (pos 1))
unfolding same_string
account = record {
  id = 1;
  positive = omega arith;
  issued = omega arith;
  shown = refl;
  name_kept = refl;
  pass = codes "secret";
  pass_kept = refl;
}

member_1 : Member db 1
unfolding same_string show_ℤ show_ℕ show_digits
member_1 = record {
  positive = omega arith;
  small = omega arith;
  fd = pos 4;
  fits = refl;
  kept = refl;
}

member_2 : Member db 2
unfolding same_string show_ℤ show_ℕ show_digits
member_2 = record {
  positive = omega arith;
  small = omega arith;
  fd = pos 5;
  fits = refl;
  kept = refl;
}

-- the buffers 9 and 8 have the descriptors 5 and 6
abbrev start : State Db
start = record {
  clients = record {
    slots =
        set (set (replicate 8 none) 5 (some (record { key = pos 5; value = 9 }))) 6
          (some (record { key = pos 6; value = 8 }));
    cap = 8;
    size = 2;
  };
  store = db;
  written = [];
}

abbrev bev_of : ℤ → ℕ
bev_of fd = if eq_ℤ fd (pos 5) then 9 else 8

connected_5 : hash_get start.clients (pos 5) ≡ ok 9
unfolding hash_get find find_loop hash_of next_slot
connected_5 = refl

connected_6 : hash_get start.clients (pos 6) ≡ ok 8
unfolding hash_get find find_loop hash_of next_slot
connected_6 = refl

handle_chat-handle_login_example :
    AnswersAndSends memory_laws codec_laws outside
      (handle_login (redis_dao memory) codec outside (λ b. pos 6) 8 (ann_message (codes "secret"))
        >>= λ _. handle_chat (redis_dao memory) codec outside 9 hello)
      start
      8
      (answer (ann_message (codes "secret")) login (pos 1))
      9
      hello
      (unpack_message-pack_message codec_laws hello hello-IsMessage).0
      (map bev_of (online_with db 1 (pos 6) (1 ∷ 2 ∷ []) (member_1, (member_2, tt))))
      (present db (pos 1) (pos 1) (pos 6) (pos 9))
unfolding online_with member_1 member_2 account same_string
handle_chat-handle_login_example =
    handle_chat-handle_login memory_laws codec_laws outside 9 hello bev_of
      (unpack_message-pack_message codec_laws hello hello-IsMessage).1 refl start (1 ∷ 2 ∷ [])
      (member_1, (member_2, tt)) refl tt 8 (ann_message (codes "secret")) ann reads_secret refl refl
      account (omega arith) (λ b. pos 6) refl refl
      (answer-IsMessage (codes "secret") login (pos 1) (omega arith) short_id)
      (connected_6, (connected_5, tt)) (omega arith)

handle_chat-handle_logout_example :
    AnswersAndSends memory_laws codec_laws outside
      (handle_logout (redis_dao memory) codec outside 8 (ann_message (codes "secret")) >>= λ _.
        handle_chat (redis_dao memory) codec outside 8 hello)
      start
      8
      (answer (ann_message (codes "secret")) logout (pos 1))
      8
      hello
      (unpack_message-pack_message codec_laws hello hello-IsMessage).0
      (map bev_of (online_with db 1 (negsuc 0) (1 ∷ 2 ∷ []) (member_1, (member_2, tt))))
      (present db (pos 1) (pos 0) (negsuc 0) (pos 9))
unfolding online_with member_1 member_2 account same_string
handle_chat-handle_logout_example =
    handle_chat-handle_logout memory_laws codec_laws outside 8 hello bev_of
      (unpack_message-pack_message codec_laws hello hello-IsMessage).1 refl start (1 ∷ 2 ∷ [])
      (member_1, (member_2, tt)) refl tt 8 (ann_message (codes "secret")) ann reads_secret refl refl
      account (omega arith)
      (answer-IsMessage (codes "secret") logout (pos 1) (omega arith) short_id) (connected_5, tt)
      (omega arith)
