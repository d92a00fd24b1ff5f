-- ===== src/Dao/Examples.antt =====
-- The theorems of the database functions on a database in memory.
use chat_hub.Base.{some, none, if◌then◌else◌, ◌≡◌, refl, [], ◌∷◌, pos, arith}
use chat_hub.Text.{codes, show_ℤ, show_ℕ, show_digits, same_string}
use chat_hub.Dao.Keys.{user_key}
use chat_hub.Config.{Message, new_message, User, new_user}
use chat_hub.Redis.Documented.{Db}
use chat_hub.Redis.Memory.{memory, memory_laws, empty_db}
use chat_hub.Dao.Users.{logout_user}
use chat_hub.Dao.Users.Presence.{logout_user_unknown}
use chat_hub.Run.{fault, null_pointer}
use chat_hub.Redis.Returns.{Returns}
use chat_hub.Dao.Rooms.Log.{AreLogs, appended, save_message-AreLogs}
use chat_hub.Dao.Rooms.Saved.{IsTerminated, with_time}
use chat_hub.Dao.Rooms.{save_message, get_fd_byid}
use chat_hub.Dao.Rooms.Members.{Member, get_fd_byid_never_online}

abbrev ann : User
ann = record new_user { username = codes "ann"; pass = codes "secret" }

logout_user_unknown_example : logout_user memory ann (pos 9) empty_db ≡ fault null_pointer
logout_user_unknown_example = logout_user_unknown memory_laws empty_db tt refl ann (pos 9) refl refl

-- the room 3 lists the users 1, 2 and 4; only 1 has been online
abbrev half_known : Db
half_known = record {
  hash = λ k f. if same_string k (user_key (pos 1)) then some (show_ℤ (pos 5)) else none;
  members = λ k. show_ℤ (pos 1) ∷ show_ℤ (pos 2) ∷ show_ℤ (pos 4) ∷ [];
  counter = λ k. 4;
}

user_1-Member : Member half_known 1
unfolding same_string show_ℤ show_ℕ show_digits
user_1-Member = record {
  positive = omega arith;
  small = omega arith;
  fd = pos 5;
  fits = refl;
  kept = refl;
}

user_2_never_online : half_known.hash (user_key (pos 2)) (codes "sockfd") ≡ none
unfolding same_string show_ℤ show_ℕ show_digits
user_2_never_online = refl

get_fd_byid_never_online_example : get_fd_byid memory (pos 3) half_known ≡ fault null_pointer
get_fd_byid_never_online_example =
    get_fd_byid_never_online memory_laws half_known (pos 3) (1 ∷ []) 2 (4 ∷ []) tt refl refl
      (user_1-Member, tt) (omega arith, omega arith) ((omega arith, omega arith), tt)
      user_2_never_online

empty-AreLogs : AreLogs empty_db (λ room. [])
empty-AreLogs = record { log = λ room. record { counted = refl; kept = tt } }

abbrev hello : Message
hello = record new_message { sender_name = codes "ann"; msg = codes "hello" }

hello-IsTerminated : IsTerminated hello
hello-IsTerminated = record { sender_fits = omega arith; msg_fits = omega arith }

save_message-AreLogs_example :
    (d : Db) × Returns memory_laws
      (save_message memory (pos 3) hello (pos 9))
      empty_db
      (pos 1, with_time hello (pos 9))
      d
    × AreLogs d (appended (λ room. []) (pos 3) (with_time hello (pos 9)))
save_message-AreLogs_example =
    save_message-AreLogs memory_laws empty_db {s = empty_db} tt refl (λ room. []) (pos 3) hello
      (pos 9) empty-AreLogs hello-IsTerminated (omega arith)
