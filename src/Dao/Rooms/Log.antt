-- ===== src/Dao/Rooms/Log.antt =====
-- The messages of the rooms (`save_message` of server/dao.c), as one list of messages for each room.
use chat_hub.Base.{
  ℕ, suc, ◌+◌, ◌<◌, ◌≤◌, ◌^◌, ◌≡◌, ◌≢◌, refl, ◌∙◌, ap, sym, false, some, List, [], ◌∷◌, ◌++◌,
  length, length-append, ℤ, pos, eq_ℤ, eq_ℤ_iff, if◌then◌else◌, Bool-cases, inl, inr, arith,
  append_assoc,
}
use chat_hub.Text.{Bytes, codes, same_string, show_ℤ, scan_int, starts_with_digit}
use chat_hub.Text.Compare.{
  same_string_refl, same_string-false, same_string-append, same_string_sound,
}
use chat_hub.Text.Decimal.{scan_int-show_ℤ, show_ℤ-injective}
use chat_hub.Config.{Message}
use chat_hub.Redis.{Redis}
use chat_hub.Redis.Documented.{Db, Documented, put_field, put_fields, with_hash, with_counter}
use chat_hub.Redis.Returns.{Returns, Returns-cast}
use chat_hub.Dao.Keys.{message_key, next_msg_id}
use chat_hub.Dao.Rooms.{save_message}
use chat_hub.Dao.Rooms.Saved.{
  IsTerminated, with_time, message_saved, save_message_lem, counter-message_saved,
}

append_cancel : (p s t : Bytes) → p ++ s ≡ p ++ t → s ≡ t
append_cancel p s t e = same_string_sound s t (
    sym (same_string-append p s t) ∙ ap (λ x. same_string x (p ++ t)) e ∙ same_string_refl (p ++ t))

-- a number with text behind it that does not go on with a digit
number_text :
    (a b : ℤ) (s t : Bytes)
    → starts_with_digit s ≡ false
    → starts_with_digit t ≡ false
    → show_ℤ a ++ s ≡ show_ℤ b ++ t
    → (a ≡ b) × (s ≡ t)
number_text a b s t hs ht e =
    let same = sym (scan_int-show_ℤ a s hs) ∙ ap scan_int e ∙ scan_int-show_ℤ b t ht in ground arith

pub message_key-injective :
    (room room' a b : ℤ) → message_key room a ≡ message_key room' b → (room ≡ room') × (a ≡ b)
unfolding starts_with_digit
message_key-injective room room' a b e =
    let numbers : show_ℤ room ++ (b':' ∷ show_ℤ a) ≡ show_ℤ room' ++ (b':' ∷ show_ℤ b) =
      sym (append_assoc (show_ℤ room) (codes ":") (show_ℤ a))
      ∙ append_cancel (codes "chatroom:") (show_ℤ room ++ codes ":" ++ show_ℤ a)
          (show_ℤ room' ++ codes ":" ++ show_ℤ b) e
      ∙ append_assoc (show_ℤ room') (codes ":") (show_ℤ b) in
    let (same, rest) =
      number_text room room' (b':' ∷ show_ℤ a) (b':' ∷ show_ℤ b) refl refl numbers in
    (same, show_ℤ-injective a b (append_cancel (codes ":") (show_ℤ a) (show_ℤ b) rest))

pub next_msg_id-injective : (room room' : ℤ) → next_msg_id room ≡ next_msg_id room' → room ≡ room'
unfolding starts_with_digit
next_msg_id-injective room room' e =
    (number_text room room' (codes ":next_msg_id") (codes ":next_msg_id") refl refl (
      append_cancel (codes "chatroom:") (show_ℤ room ++ codes ":next_msg_id")
        (show_ℤ room' ++ codes ":next_msg_id") e)).0

-- the message that the database holds under an id of a room
pub record IsKept (d : Db) (room id : ℤ) (m : Message) : Type 0 where
  pub msg_kept : d.hash (message_key room id) (codes "msg") ≡ some m.msg
  pub sender_kept : d.hash (message_key room id) (codes "senderName") ≡ some m.sender_name
  pub time_kept : d.hash (message_key room id) (codes "sendTime") ≡ some (show_ℤ m.send_time)
  pub type_kept : d.hash (message_key room id) (codes "type") ≡ some (show_ℤ m.type)

-- the messages of a room from an id on
abbrev pub AreKept : Db → ℤ → ℕ → List Message → Type 0
AreKept d room n [] = Unit
AreKept d room n (m ∷ ms) = IsKept d room (pos (suc n)) m × AreKept d room (suc n) ms

-- The specification of a room: its messages in their order, under the ids from 1 on.
pub record IsLog (d : Db) (room : ℤ) (ms : List Message) : Type 0 where
  pub counted : d.counter (next_msg_id room) ≡ length ms
  pub kept : AreKept d room 0 ms

module _ (d : Db) (room : ℤ) (m : Message) where
  abbrev new_id : ℤ
  new_id = pos (d.counter (next_msg_id room) + 1)

  message_saved-IsKept : IsKept (message_saved d room m) room new_id m
  unfolding message_saved with_hash with_counter put_fields put_field same_string
  message_saved-IsKept = record {
    msg_kept = rw (same_string_refl (message_key room new_id)) refl;
    sender_kept = rw (same_string_refl (message_key room new_id)) refl;
    time_kept = rw (same_string_refl (message_key room new_id)) refl;
    type_kept = rw (same_string_refl (message_key room new_id)) refl;
  }

  message_saved_hash :
      (k f : Bytes) → k ≢ message_key room new_id → (message_saved d room m).hash k f ≡ d.hash k f
  unfolding message_saved with_hash with_counter put_fields put_field
  message_saved_hash k f other = rw (same_string-false k (message_key room new_id) other) refl

  message_saved_counter :
      (room' : ℤ)
      → room' ≢ room
      → (message_saved d room m).counter (next_msg_id room') ≡ d.counter (next_msg_id room')
  unfolding message_saved with_hash with_counter
  message_saved_counter room' other =
      rw
        (same_string-false (next_msg_id room') (next_msg_id room)
          (λ e. other (next_msg_id-injective room' room e)))
        refl

  IsKept-saved :
      {room' id : ℤ} {m' : Message}
      → IsKept d room' id m'
      → (room' ≡ room → id ≢ new_id)
      → IsKept (message_saved d room m) room' id m'
  IsKept-saved {room'} {id} h other =
      let off : message_key room' id ≢ message_key room new_id =
        λ e. let both = message_key-injective room' room id new_id e in other both.0 both.1 in
      record {
        msg_kept = message_saved_hash _ _ off ∙ h.msg_kept;
        sender_kept = message_saved_hash _ _ off ∙ h.sender_kept;
        time_kept = message_saved_hash _ _ off ∙ h.time_kept;
        type_kept = message_saved_hash _ _ off ∙ h.type_kept;
      }

  AreKept-saved :
      (room' : ℤ) (n : ℕ) (ms : List Message)
      → AreKept d room' n ms
      → (room' ≡ room → n + length ms ≤ d.counter (next_msg_id room))
      → AreKept (message_saved d room m) room' n ms
  AreKept-saved room' n [] kept old = tt
  AreKept-saved room' n (x ∷ ms) (here, kept) old = (
    IsKept-saved here (λ same e. let below = old same in ground arith),
    AreKept-saved room' (suc n) ms kept (λ same. let below = old same in omega arith),
  )

AreKept-append :
    (d : Db) (room : ℤ) (n id : ℕ) (ms : List Message) (m : Message)
    → AreKept d room n ms
    → id ≡ suc (n + length ms)
    → IsKept d room (pos id) m
    → AreKept d room n (ms ++ m ∷ [])
AreKept-append d room n id [] m kept e last =
    let first : id ≡ suc n = omega arith in (rw first at last, tt)
AreKept-append d room n id (x ∷ ms) m (here, kept) e last =
    (here, AreKept-append d room (suc n) id ms m kept (omega arith) last)

abbrev pub appended : (ℤ → List Message) → ℤ → Message → ℤ → List Message
appended logs room m room' = if eq_ℤ room' room then logs room ++ m ∷ [] else logs room'

module _ (d : Db) (logs : ℤ → List Message) (are_logs : (room : ℤ) → IsLog d room (logs room))
    (room : ℤ) (m : Message) where
  same_room : IsLog (message_saved d room m) room (logs room ++ m ∷ [])
  same_room =
      let log = are_logs room in
      record {
        counted =
            counter-message_saved d room m
            ∙ omega (arith, log.counted, length-append (logs room) (m ∷ []));
        kept =
            AreKept-append _ room 0 (d.counter (next_msg_id room) + 1) (logs room) m
              (AreKept-saved d room m room 0 (logs room) log.kept
                (λ same. omega (arith, log.counted)))
              (omega (arith, log.counted)) (message_saved-IsKept d room m);
      }

  other_room : (room' : ℤ) → room' ≢ room → IsLog (message_saved d room m) room' (logs room')
  other_room room' other =
      let log = are_logs room' in
      record {
        counted = message_saved_counter d room m room' other ∙ log.counted;
        kept = AreKept-saved d room m room' 0 (logs room') log.kept (λ same. absurd (other same));
      }

  pub saved-IsLog : (room' : ℤ) → IsLog (message_saved d room m) room' (appended logs room m room')
  saved-IsLog room' = elim (Bool-cases (eq_ℤ room' room)) [
    | inl same ↦ rw (same, (eq_ℤ_iff room' room).0 same) same_room
    | inr other ↦ rw other (other_room room' (λ e. let here = (eq_ℤ_iff room' room).1 e in cc))
  ]

-- The specification of a database: the messages of every room.
pub record AreLogs (d : Db) (logs : ℤ → List Message) : Type 0 where
  pub log : (room : ℤ) → IsLog d room (logs room)

-- `save_message` on a ready server whose rooms hold the lists `logs`, while the room has fewer messages
-- than the greatest `int`, for a message whose two arrays hold a NUL: it returns the new number of the
-- room's messages as the id, and the message with the time `now` if it had none; the server then holds
-- the lists in which this message, with its text, sender, time and type, is the last of its room, and
-- every other message of every room is there under the id that it had.
pub save_message-AreLogs :
    {r : Redis} (laws : Documented r) (d : Db) {s : r.Store}
    → laws.Ready s
    → laws.db s ≡ d
    → (logs : ℤ → List Message) (room : ℤ) (m : Message) (now : ℤ) → AreLogs d logs
    → IsTerminated m
    → length (logs room) + 1 < 2 ^ 31
    → (d' : Db) × Returns laws
        (save_message r room m now)
        s
        (pos (length (logs room) + 1), with_time m now)
        d'
      × AreLogs d' (appended logs room (with_time m now))
save_message-AreLogs laws d ready e logs room m now are_logs fits small =
    let same : d.counter (next_msg_id room) ≡ length (logs room) = (are_logs.log room).counted in
    (
      message_saved d room (with_time m now),
      Returns-cast laws (save_message_lem laws d ready e room (omega (arith, same)) m now fits)
          (ap (λ n. (pos (n + 1), with_time m now)) same) refl,
      record { log = saved-IsLog d logs are_logs.log room (with_time m now) },
    )
