-- ===== src/Dao/Users/Refine.antt =====
-- The user functions of server/dao.c against their specification: a list of names and passwords.
pub mod Stored
pub mod Runs
use chat_hub.Base.{
  ℕ, suc, ◌+◌, Option, none, some, List, [], ◌∷◌, ◌++◌, length, ℤ, pos, if◌then◌else◌,
}
use chat_hub.Run.{Run, ok, fault, null_pointer, ◌>>=◌ as ◌and_then◌}
use chat_hub.Exec.{Exec, Exit, pure, ◌>>=◌}
use chat_hub.Text.{Bytes, same_string}
use chat_hub.Config.{User, new_user, error_normal, error_user_exists, error_user_notexists}
use chat_hub.Redis.{Redis}
use chat_hub.Dao.Users.{register_user, login_user, set_online, logout_user}

-- a call, with the name and the password of its user, the descriptor and the time
pub data Op : Type 0 where
  register : (name pass : Bytes) (now : ℤ) → Op
  login : (name pass : Bytes) → Op
  online : (id fd now : ℤ) → Op
  logout : (name : Bytes) (now : ℤ) → Op

abbrev pub named : Bytes → Bytes → User
named name pass = record new_user { username = name; pass = pass }

module _ (r : Redis) where
  abbrev pub call : Op → Exec r.Store ℤ
  call (register name pass now) = register_user r (named name pass) now
  call (login name pass) = login_user r (named name pass)
  call (online id fd now) = set_online r (record new_user { user_id = id }) fd now
  call (logout name now) = logout_user r (named name []) now

  abbrev pub run : List Op → Exec r.Store (List ℤ)
  run [] = pure []
  run (op ∷ ops) = do x ← call op; xs ← run ops; pure (x ∷ xs)

-- The specification: the names and the passwords in the order of registration. The id of a user is the
-- place in the list, from 1 on.
abbrev pub Users : Type 0
Users = List (Bytes × Bytes)

-- the id and the password under a name, where the list starts with the id `n`
unfoldable pub find_from : ℕ → Users → Bytes → Option (ℕ × Bytes)
find_from n [] name = none
find_from n ((m, p) ∷ us) name =
    let rest = find_from (suc n) us name in if same_string name m then some (n, p) else rest

abbrev pub registered_as : Users → Bytes → Bytes → Option (ℕ × Bytes) → Users × ℤ
registered_as us name pass none = (us ++ (name, pass) ∷ [], pos (suc (length us)))
registered_as us name pass (some found) = (us, error_user_exists)

abbrev pub logged_in : Bytes → Option (ℕ × Bytes) → ℤ
logged_in pass none = error_user_notexists
logged_in pass (some (id, p)) = if same_string pass p then pos id else error_normal

abbrev pub logged_out : Option (ℕ × Bytes) → Run ℤ
logged_out none = fault null_pointer
logged_out (some (id, p)) = ok (pos id)

abbrev pub step_users : Users → Op → Run (Users × ℤ)
step_users us (register name pass now) = ok (registered_as us name pass (find_from 1 us name))
step_users us (login name pass) = ok (us, logged_in pass (find_from 1 us name))
step_users us (online id fd now) = ok (us, id)
step_users us (logout name now) = logged_out (find_from 1 us name) and_then λ id. ok (us, id)

unfoldable pub run_users : Users → List Op → Run (List ℤ)
run_users us [] = ok []
run_users us (op ∷ ops) =
    step_users us op and_then λ s. run_users s.0 ops and_then λ xs. ok (s.1 ∷ xs)

-- what a function returns, without the database
abbrev pub result : {A S : Type 0} → Run (Exit A × S) → Run (Exit A)
result (ok (x, s)) = ok x
result (fault e) = fault e
