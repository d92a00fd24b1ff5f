-- ===== src/Dao/Rooms/Saved.antt =====
-- `save_message` (server/dao.c): the message under the next id of its room.
use chat_hub.Base.{
  ℕ, Option, ap, ◌+◌, ◌<◌, ◌^◌, length, if◌then◌else◌, is_pos, Bool-cases, inl, inr, ◌≡◌, [], ◌∷◌,
  ℤ, pos, to_int, to_int_pos, refl, arith,
}
use chat_hub.Text.{Bytes, codes, show_ℤ}
use chat_hub.Text.Compare.{same_string_refl}
use chat_hub.Config.{Message, error_normal, max_chars, max_msg_data}
use chat_hub.Message.{Parson, pack_message}
use chat_hub.Message.RoundTrip.{load_fits}
use chat_hub.Run.{ok}
use chat_hub.Redis.{Redis, reply_integer}
use chat_hub.Redis.Documented.{
  Db, Documented, put_fields, with_hash, with_counter, msg_ids, message_hash,
}
use chat_hub.Redis.Returns.{
  Returns, Returns-pure, Returns-bind, Returns-at_error, Returns-cast, Returns-lift,
}
use chat_hub.Redis.Commands.{hmset_at, incr_at}
use chat_hub.Exec.{pure}
use chat_hub.Dao.Keys.{message_key, next_msg_id}
use chat_hub.Dao.Rooms.{save_message, get_next_msgid, stamp}

-- the two arrays of a message hold a NUL
pub record IsTerminated (m : Message) : Type 0 where
  pub sender_fits : length m.sender_name < max_chars
  pub msg_fits : length m.msg < max_msg_data

IsTerminated-stamp : (m : Message) (now : ℤ) → IsTerminated m → IsTerminated (stamp m now)
unfolding stamp
IsTerminated-stamp m now fits = elim (Bool-cases (is_pos m.send_time)) [
  | inl timed ↦ rw timed fits
  | inr other ↦ rw other (record { sender_fits = fits.sender_fits; msg_fits = fits.msg_fits })
]

-- a message that can be packed
pub pack_message-IsTerminated :
    (p : Parson) (m : Message) {x : Option Bytes × ℕ} → pack_message p m ≡ ok x → IsTerminated m
unfolding pack_message
pack_message-IsTerminated p m packed = record {
  sender_fits = ground (arith);
  msg_fits = ground (arith);
}

-- the specification of the time: that of the message, or the clock's
abbrev pub with_time : Message → ℤ → Message
with_time m now = record m { send_time = if is_pos m.send_time then m.send_time else now }

stamp_lem : (m : Message) (now : ℤ) → stamp m now ≡ with_time m now
unfolding stamp
stamp_lem m now = elim (Bool-cases (is_pos m.send_time)) [ inl p ↦ rw p refl | inr p ↦ rw p refl ]

-- what `save_message` leaves
unfoldable pub message_saved : Db → ℤ → Message → Db
message_saved d room m =
    let id = d.counter (next_msg_id room) + 1 in
    let counted = with_counter d (next_msg_id room) id in
    with_hash counted (
      put_fields counted.hash (message_key room (pos id)) (
        (codes "msg", m.msg)
        ∷ (codes "senderName", m.sender_name)
        ∷ (codes "sendTime", show_ℤ m.send_time)
        ∷ (codes "type", show_ℤ m.type)
        ∷ []))

pub counter-message_saved :
    (d : Db) (room : ℤ) (m : Message)
    → (message_saved d room m).counter (next_msg_id room) ≡ d.counter (next_msg_id room) + 1
unfolding message_saved with_hash with_counter
counter-message_saved d room m = rw (same_string_refl (next_msg_id room))

module _ {r : Redis} (laws : Documented r) (d : Db) {s : r.Store} (ready : laws.Ready s)
    (e : laws.db s ≡ d) (room : ℤ) (free : d.counter (next_msg_id room) + 1 < 2 ^ 31) where
  get_next_msgid_lem :
      Returns laws
        (get_next_msgid r room)
        s
        (pos (d.counter (next_msg_id room) + 1))
        (with_counter d (next_msg_id room) (d.counter (next_msg_id room) + 1))
  unfolding get_next_msgid
  get_next_msgid_lem =
      let n = d.counter (next_msg_id room) + 1 in
      Returns-cast laws
        (Returns-at_error laws error_normal (
          Returns-bind laws (λ reply. pure (to_int (reply_integer reply)))
            (incr_at laws d ready e (msg_ids room) (omega arith))
            λ s1 r1 e1. Returns-pure laws _ s1 r1 e1))
        (to_int_pos n free) refl

  save_message-stamp :
      (m : Message) (now : ℤ)
      → IsTerminated m
      → Returns laws
          (save_message r room m now)
          s
          (pos (d.counter (next_msg_id room) + 1), stamp m now)
          (message_saved d room (stamp m now))
  unfolding save_message message_saved with_counter
  save_message-stamp m now fits =
      let kept = IsTerminated-stamp m now fits in
      Returns-bind laws _ get_next_msgid_lem λ s1 r1 e1.
        Returns-at_error laws (error_normal, stamp m now)
          (Returns-bind laws _
            (Returns-lift laws _ _ s1 (load_fits max_chars _ kept.sender_fits) r1 e1)
            λ s2 r2 e2.
              Returns-bind laws _
                (Returns-lift laws _ _ s2 (load_fits max_msg_data _ kept.msg_fits) r2 e2)
                λ s3 r3 e3.
                  Returns-bind laws _ (hmset_at laws _ r3 e3 (message_hash room _) _)
                    λ s4 r4 e4. Returns-pure laws _ s4 r4 e4)

  -- For a message whose two arrays hold a NUL, the next id of the room is returned, with the message, which has the time `now` where it had
  -- none, and the message is stored under the id.
  pub save_message_lem :
      (m : Message) (now : ℤ)
      → IsTerminated m
      → Returns laws
          (save_message r room m now)
          s
          (pos (d.counter (next_msg_id room) + 1), with_time m now)
          (message_saved d room (with_time m now))
  save_message_lem m now fits =
      Returns-cast laws (save_message-stamp m now fits)
        (ap (λ x. (pos (d.counter (next_msg_id room) + 1), x)) (stamp_lem m now))
        (ap (message_saved d room) (stamp_lem m now))
