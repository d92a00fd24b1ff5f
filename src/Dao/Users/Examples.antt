-- ===== src/Dao/Users/Examples.antt =====
-- The theorems of the users on a database in memory.
use chat_hub.Base.{◌≡◌, refl, some, List, [], ◌∷◌, pos, negsuc, arith}
use chat_hub.Run.{ok, fault, null_pointer, ◌>>=◌ as ◌and_then◌}
use chat_hub.Exec.{value}
use chat_hub.Text.{codes, show_ℤ, same_string}
use chat_hub.Config.{User, new_user, error_normal, error_user_exists}
use chat_hub.Redis.Documented.{Db}
use chat_hub.Redis.Returns.{Returns}
use chat_hub.Redis.Memory.{memory, memory_laws, empty_db}
use chat_hub.Dao.Keys.{users_key}
use chat_hub.Dao.Users.{register_user}
use chat_hub.Dao.Users.Wrapped.{wrapped, register_user_wraps}
use chat_hub.Dao.Users.Refine.{
  Op, register, login, online, logout, run, run_users, find_from, result,
}
use chat_hub.Dao.Users.Refine.Runs.{run_from_empty}

abbrev calls : List Op
calls =
    register (codes "ann") (codes "secret") (pos 3)
    ∷ register (codes "bob") (codes "word") (pos 4)
    ∷ register (codes "ann") (codes "other") (pos 5)
    ∷ login (codes "bob") (codes "word")
    ∷ online (pos 2) (pos 7) (pos 6)
    ∷ login (codes "ann") (codes "other")
    ∷ logout (codes "bob") (pos 8)
    ∷ []

-- the specification's answers
calls_lem :
    run_users [] calls
    ≡ ok (pos 1 ∷ pos 2 ∷ error_user_exists ∷ pos 2 ∷ pos 2 ∷ error_normal ∷ pos 2 ∷ [])
unfolding run_users find_from same_string
calls_lem = refl

-- a logout that nobody has registered for
unknown_lem : run_users [] (logout (codes "eve") (pos 8) ∷ []) ≡ fault null_pointer
unfolding run_users find_from
unknown_lem = refl

run_from_empty_example :
    result (run memory calls empty_db) ≡ (run_users [] calls and_then λ xs. ok (value xs))
run_from_empty_example =
    run_from_empty memory_laws calls {s = empty_db} tt (λ name. refl) refl (omega arith)

abbrev ann : User
ann = record new_user { username = codes "ann"; pass = codes "secret" }

-- the counter has reached the greatest `int`
abbrev full_db : Db
full_db = record empty_db { counter = λ k. 2147483647 }

register_user_wraps_example :
    Returns memory_laws
      (register_user memory ann (pos 9))
      full_db
      (negsuc 2147483647)
      (wrapped full_db ann (pos 9))
    × ((wrapped full_db ann (pos 9)).hash users_key (codes "ann")
        ≡ some (show_ℤ (negsuc 2147483647)))
register_user_wraps_example =
    register_user_wraps memory_laws full_db {s = full_db} tt refl ann (pos 9) refl (omega arith)
      (omega arith)
