-- ===== src/Dao/Rooms/Examples.antt =====
-- The theorems of the chat rooms on a database in memory.
use mathlib.Core.List.{Permᴰ}
use chat_hub.Base.{
  ℤ, ◌≡◌, ap, All, Bool-cases, inl, inr, true, false, ◌++◌, not, ◌&&◌, ℕ, ◌<◌, ◌≢◌, refl, some,
  List, [], ◌∷◌, length, pos, arith,
}
use chat_hub.Text.Compare.{same_string_sound}
use chat_hub.Exec.{value, ◌>>=◌}
use chat_hub.Text.{Bytes, codes, show_ℤ, same_string, starts_with_digit}
use chat_hub.Redis.Documented.{Db, contains}
use chat_hub.Redis.Memory.{memory, memory_laws}
use chat_hub.Redis.Returns.{Returns}
use chat_hub.Dao.Keys.{chatroom_key}
use chat_hub.Redis.Keyspace.{starts_with, key_memory, key_memory_laws}
use chat_hub.Dao.Rooms.Deleted.{del_chatroom_lem, del_chatroom_longer}
use chat_hub.Run.{ok}
use chat_hub.Dao.Rooms.{del_chatroom, create_chatroom, get_fd_byid, leave_chatroom}
use chat_hub.Dao.Rooms.Members.{Member, online}
use chat_hub.Dao.Rooms.Created.{room_created, get_fd_byid-create_chatroom}
use chat_hub.Dao.Rooms.Left.{names, get_fd_byid-leave_chatroom}

-- every user has the descriptor 5; every room has the members `ms`
abbrev users_with : List Bytes → Db
users_with ms = record { hash = λ k f. some (show_ℤ (pos 5)); members = λ k. ms; counter = λ k. 1 }

abbrev known : (ms : List Bytes) (id : ℕ) → 0 < id → id < 9 → Member (users_with ms) id
known ms id positive small = record {
  positive = positive;
  small = omega arith;
  fd = pos 5;
  fits = refl;
  kept = refl;
}

abbrev users_db : Db
users_db = users_with []

abbrev member_1 : Member users_db 1
member_1 = known [] 1 (omega arith) (omega arith)

abbrev member_2 : Member users_db 2
member_2 = known [] 2 (omega arith) (omega arith)

different : ◌≢◌ {A = ℕ} 1 2
different = λ e. omega arith

get_fd_byid-create_chatroom_example :
    (ms : List Bytes) × (fds : List ℤ) × Permᴰ ms (show_ℤ (pos 1) ∷ show_ℤ (pos 2) ∷ [])
    × Permᴰ fds (online users_db (1 ∷ 2 ∷ []) (member_1, (member_2, tt)))
    × Returns memory_laws
        (create_chatroom memory (pos 1) (pos 2) >>= λ room. get_fd_byid memory room)
        users_db
        (some fds, length fds)
        (room_created users_db ms)
get_fd_byid-create_chatroom_example =
    get_fd_byid-create_chatroom memory_laws users_db {s = users_db} tt refl (omega arith) member_1
      member_2 different refl

-- both users are in the room
abbrev both_db : Db
both_db = users_with (names (1 ∷ 2 ∷ []))

abbrev both_1 : Member both_db 1
both_1 = known (names (1 ∷ 2 ∷ [])) 1 (omega arith) (omega arith)

abbrev both_2 : Member both_db 2
both_2 = known (names (1 ∷ 2 ∷ [])) 2 (omega arith) (omega arith)

get_fd_byid-leave_chatroom_example :
    Returns memory_laws (leave_chatroom memory (pos 1) (codes "ann")) both_db (pos 1) both_db
    × Returns memory_laws
        (leave_chatroom memory (pos 1) (codes "ann") >>= λ room. get_fd_byid memory room)
        both_db
        (
          some (online both_db (1 ∷ 2 ∷ []) (both_1, (both_2, tt))),
          length (online both_db (1 ∷ 2 ∷ []) (both_1, (both_2, tt))),
        )
        both_db
unfolding starts_with_digit
get_fd_byid-leave_chatroom_example =
    get_fd_byid-leave_chatroom memory_laws both_db {s = both_db} tt refl (pos 1) (1 ∷ 2 ∷ [])
      (both_1, (both_2, tt)) (codes "ann") refl refl

-- the rooms 1 and 12, with a message in the first
abbrev two_rooms : List Bytes
two_rooms = codes "chatroom:1" ∷ codes "chatroom:1:1" ∷ codes "users" ∷ codes "chatroom:12" ∷ []

short_member :
    (ks : List Bytes) (k : Bytes)
    → All (λ m. length m < 100) ks
    → contains ks k ≡ true
    → length k < 100
unfolding contains
short_member [] k all h = ground arith
short_member (m ∷ ks) k (short, all) h = elim (Bool-cases (same_string m k)) [
  | inl same ↦ omega (arith, ap length (same_string_sound m k same), short)
  | inr other ↦ short_member ks k all (ground arith)
]

two_rooms-short :
    (k : Bytes)
    → key_memory_laws.stored two_rooms k ≡ true
    → starts_with (chatroom_key (pos 1)) k ≡ true
    → length k < 100
unfolding key_memory_laws
two_rooms-short k h starts =
    short_member two_rooms k (omega arith, (omega arith, (omega arith, (omega arith, tt)))) h

del_chatroom_lem_example :
    (after : List Bytes) × (del_chatroom key_memory (pos 1) two_rooms ≡ ok (value (pos 1), after))
    × key_memory_laws.Ready after
    × ((k : Bytes)
        → key_memory_laws.stored after k
          ≡ (key_memory_laws.stored two_rooms k && not (starts_with (chatroom_key (pos 1)) k)))
unfolding key_memory_laws
del_chatroom_lem_example = del_chatroom_lem key_memory_laws two_rooms (pos 1) tt two_rooms-short

del_chatroom_longer_example :
    (after : List Bytes) × (del_chatroom key_memory (pos 1) two_rooms ≡ ok (value (pos 1), after))
    × ((t : Bytes) → key_memory_laws.stored after (chatroom_key (pos 12) ++ t) ≡ false)
unfolding key_memory_laws
del_chatroom_longer_example =
    del_chatroom_longer key_memory_laws two_rooms 1 2 tt two_rooms-short (omega arith) (omega arith)
