-- ===== src/Dao/Rooms/Refine/Examples.antt =====
-- Calls of the functions over chat rooms on a database in memory.
use mathlib.Core.List.Permᴰ as Order
use chat_hub.Base.{◌≡◌, refl, [], ◌∷◌, List, pos, arith}
use chat_hub.Text.{codes, same_string, show_ℤ, show_ℕ, show_digits}
use chat_hub.Config.{Message, new_message}
use chat_hub.Redis.Documented.{Db, contains, remove_member}
use chat_hub.Redis.Returns.{Returns}
use chat_hub.Redis.Memory.{memory, memory_laws, empty_db}
use chat_hub.Dao.Rooms.Refine.{Op, create, leave, exists, save, run, run_rooms, no_rooms}
use chat_hub.Dao.Rooms.Saved.{IsTerminated}
use chat_hub.Dao.Rooms.Refine.Stored.{Holds}
use chat_hub.Dao.Rooms.Refine.Runs.{run_from_no_rooms}

abbrev hello : Message
hello = record new_message { sender_name = codes "ann"; msg = codes "hello" }

hello-IsTerminated : IsTerminated hello
hello-IsTerminated = record { sender_fits = omega arith; msg_fits = omega arith }

abbrev calls : List Op
calls =
    create (pos 4) (pos 7)
    ∷ save (pos 1) hello (pos 9)
    ∷ create (pos 4) (pos 4)
    ∷ exists (pos 1) (codes "7")
    ∷ leave (pos 1) (codes "7")
    ∷ exists (pos 1) (codes "7")
    ∷ save (pos 1) hello (pos 10)
    ∷ []

-- the specification's answers
calls_lem :
    (run_rooms no_rooms calls).1 ≡ pos 1 ∷ pos 1 ∷ pos 2 ∷ pos 1 ∷ pos 1 ∷ pos 0 ∷ pos 2 ∷ []
unfolding run_rooms contains remove_member same_string show_ℤ show_ℕ show_digits
calls_lem = refl

empty-Holds : Holds empty_db no_rooms
empty-Holds = record {
  counted = refl;
  listed = λ room. Order.refl [];
  fresh = λ n above. refl;
  are_logs = record { log = λ room. record { counted = refl; kept = tt } };
}

run_from_no_rooms_example :
    (d : Db) × Returns memory_laws (run memory calls) empty_db (run_rooms no_rooms calls).1 d
    × Holds d (run_rooms no_rooms calls).0
run_from_no_rooms_example =
    run_from_no_rooms memory_laws calls {s = empty_db} tt empty-Holds (omega arith)
      (tt, (hello-IsTerminated, (tt, (tt, (tt, (tt, (hello-IsTerminated, tt)))))))
