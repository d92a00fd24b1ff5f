-- ===== src/Dao/Rooms/Refine.antt =====
-- The functions of server/dao.c over chat rooms against their specification: for each room a list of
-- members and a list of messages.
pub mod Stored
pub mod Runs
mod Examples
use chat_hub.Base.{ℕ, suc, ◌+◌, List, [], ◌∷◌, length, ℤ, pos, eq_ℤ, if◌then◌else◌}
use chat_hub.Exec.{Exec, pure, ◌>>=◌}
use chat_hub.Text.{Bytes, show_ℤ}
use chat_hub.Config.{Message}
use chat_hub.Redis.{Redis}
use chat_hub.Redis.Documented.{contains, remove_member}
use chat_hub.Dao.Rooms.{create_chatroom, leave_chatroom, is_user_exists_inchatroom, save_message}
use chat_hub.Dao.Rooms.Log.{appended}
use chat_hub.Dao.Rooms.Saved.{IsTerminated, with_time}

-- a call with its arguments, and the time
pub data Op : Type 0 where
  create : (user_id1 user_id2 : ℤ) → Op
  leave : (room : ℤ) (name : Bytes) → Op
  exists : (room : ℤ) (name : Bytes) → Op
  save : (room : ℤ) (message : Message) (now : ℤ) → Op

-- the message of a call holds a NUL in both arrays
abbrev pub CanSave : Op → Type 0
CanSave (create a b) = Unit
CanSave (leave room name) = Unit
CanSave (exists room name) = Unit
CanSave (save room message now) = IsTerminated message

module _ (r : Redis) where
  abbrev pub call : Op → Exec r.Store ℤ
  call (create a b) = create_chatroom r a b
  call (leave room name) = leave_chatroom r room name
  call (exists room name) = is_user_exists_inchatroom r room name
  call (save room message now) = do saved ← save_message r room message now; pure saved.0

  abbrev pub run : List Op → Exec r.Store (List ℤ)
  run [] = pure []
  run (op ∷ ops) = do x ← call op; xs ← run ops; pure (x ∷ xs)

-- The specification: the rooms have the numbers from 1 to `count`.
pub record Rooms : Type 0 where
  pub count : ℕ
  pub members : ℤ → List Bytes
  pub logs : ℤ → List Message

abbrev pub no_rooms : Rooms
no_rooms = record { count = 0; members = λ room. []; logs = λ room. [] }

abbrev pub changed : (ℤ → List Bytes) → ℤ → List Bytes → ℤ → List Bytes
changed members room ms room' = if eq_ℤ room' room then ms else members room'

-- the ids of two users, once each
abbrev pub pair : ℤ → ℤ → List Bytes
pair a b = if eq_ℤ a b then show_ℤ a ∷ [] else show_ℤ a ∷ show_ℤ b ∷ []

abbrev pub step : Rooms → Op → Rooms × ℤ
step rs (create a b) = (
  record rs { count = suc rs.count; members = changed rs.members (pos (suc rs.count)) (pair a b) },
  pos (suc rs.count),
)
step rs (leave room name) =
    (record rs { members = changed rs.members room (remove_member (rs.members room) name) }, room)
step rs (exists room name) = (rs, if contains (rs.members room) name then pos 1 else pos 0)
step rs (save room message now) = (
  record rs { logs = appended rs.logs room (with_time message now) },
  pos (length (rs.logs room) + 1),
)

unfoldable pub run_rooms : Rooms → List Op → Rooms × List ℤ
run_rooms rs [] = (rs, [])
run_rooms rs (op ∷ ops) =
    let next = step rs op in let rest = run_rooms next.0 ops in (rest.0, next.1 ∷ rest.1)
