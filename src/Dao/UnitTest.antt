-- ===== src/Dao/UnitTest.antt =====
-- The test in the last comment of server/dao.c, and what it prints.
use chat_hub.Base.{◌≡◌, refl, List, [], ◌∷◌, ◌++◌, ℤ, pos, eq_ℤ, if◌then◌else◌}
use chat_hub.Run.{Run, ok}
use chat_hub.Exec.{Exec, Exit, value, pure, lift, ◌>>=◌}
use chat_hub.Text.{
  Bytes, codes, show_ℤ, show_ℕ, show_digits, same_string, scan_word, scan_int, store_string,
}
use chat_hub.Config.{User, new_message, user_text, msg2user, error_user_exists, max_msg_data}
use chat_hub.Redis.{Redis}
use chat_hub.Redis.Memory.{memory, empty_db}
use chat_hub.Redis.Documented.{with_hash, put_fields, put_field, with_counter, Db}
use chat_hub.Dao.Users.{register_user, is_user_exists, get_next_userid}

module _ (r : Redis) where
  test_register : User → ℤ → Exec r.Store Bytes
  test_register user now = do
    id ← register_user r user now
    pure (
        if eq_ℤ id error_user_exists
        then codes "ussername exists." ++ 10 ∷ []
        else codes "register succeed, your userId is: " ++ show_ℤ id ++ 10 ∷ [])

  -- from `new_messgae` to the call of `test_register`, at the time `now`
  unit_test : ℤ → ℤ → Exec r.Store (List Bytes)
  unit_test now junk = do
    format ← lift (store_string max_msg_data (user_text (codes "simon") (codes "1111") now))
    user ← lift (msg2user (record new_message { msg = format }) junk)
    line ← test_register (record user { last_online_time = now }) now
    pure ((codes "format: " ++ format ++ 10 ∷ []) ∷ line ∷ [])

abbrev lines : Run (Exit (List Bytes) × Db) → List Bytes
lines (ok (value ls, d)) = ls
lines _ = []

-- The name of `simon` is new in an empty database.
first_run :
    lines (unit_test memory (pos 7) (pos 0) empty_db)
    ≡ (codes "format: simon 1111 7" ++ 10 ∷ [])
      ∷ (codes "register succeed, your userId is: 1" ++ 10 ∷ [])
      ∷ []
unfolding unit_test test_register register_user is_user_exists get_next_userid user_text msg2user
    scan_word scan_int show_ℤ show_ℕ show_digits same_string with_hash put_fields put_field
    with_counter
first_run = refl
