-- ===== src/Dao/Rooms/Refine/Stored.antt =====
-- The database that stores the rooms of the specification, and how each function keeps it.
use mathlib.Core.List.{Permᴰ}
use mathlib.Core.Path.{subst}
use chat_hub.Base.{
  ℕ, suc, ◌<◌, ◌≡◌, refl, sym, ◌∙◌, ap, false, List, [], ◌∷◌, ℤ, pos, eq_ℤ, eq_ℤ_iff, Bool-cases,
  inl, inr, arith,
}
use chat_hub.Text.{Bytes, codes, same_string, show_ℤ}
use chat_hub.Text.Compare.{same_string_refl, same_string-false, same_string-append}
use chat_hub.Text.Decimal.{show_ℤ-injective}
use chat_hub.Config.{Message}
use chat_hub.Redis.Documented.{
  Db, with_members, with_counter, with_hash, add_members, add_member, contains, remove_member,
}
use chat_hub.Redis.Order.{Perm-nil, remove_member-Perm}
use chat_hub.Dao.Keys.{chatroom_key, next_msg_id, next_chatroom_id}
use chat_hub.Dao.Rooms.Created.{next_room, room_created}
use chat_hub.Dao.Rooms.Left.{left}
use chat_hub.Dao.Rooms.Saved.{message_saved}
use chat_hub.Dao.Rooms.Log.{AreKept, AreLogs, appended, saved-IsLog}
use chat_hub.Dao.Rooms.Refine.{Rooms, changed, pair}

-- the database stores the rooms, their members in some order, and their messages, and no room above the
-- count
pub record Holds (d : Db) (rs : Rooms) : Type 0 where
  pub counted : d.counter next_chatroom_id ≡ rs.count
  pub listed : (room : ℤ) → Permᴰ (d.members (chatroom_key room)) (rs.members room)
  pub fresh : (n : ℕ) → rs.count < n → rs.members (pos n) ≡ []
  pub are_logs : AreLogs d rs.logs

-- messages depend on the hashes and on the counters of messages
AreKept-same :
    (d d' : Db) (room : ℤ) (n : ℕ) (ms : List Message)
    → ((k f : Bytes) → d'.hash k f ≡ d.hash k f)
    → AreKept d room n ms
    → AreKept d' room n ms
AreKept-same d d' room n [] same kept = tt
AreKept-same d d' room n (m ∷ ms) same (here, kept) = (
  record {
    msg_kept = same _ _ ∙ here.msg_kept;
    sender_kept = same _ _ ∙ here.sender_kept;
    time_kept = same _ _ ∙ here.time_kept;
    type_kept = same _ _ ∙ here.type_kept;
  },
  AreKept-same d d' room (suc n) ms same kept,
)

AreLogs-same :
    (d d' : Db) {logs : ℤ → List Message}
    → ((k f : Bytes) → d'.hash k f ≡ d.hash k f)
    → ((room : ℤ) → d'.counter (next_msg_id room) ≡ d.counter (next_msg_id room))
    → AreLogs d logs
    → AreLogs d' logs
AreLogs-same d d' {logs} same_hash same_counter a = record {
  log = λ room.
      let log = a.log room in
      record {
        counted = same_counter room ∙ log.counted;
        kept = AreKept-same d d' room 0 (logs room) same_hash log.kept;
      };
}

-- the sets of two rooms
chatroom_key-false :
    (room room' : ℤ)
    → eq_ℤ room room' ≡ false
    → same_string (chatroom_key room) (chatroom_key room') ≡ false
chatroom_key-false room room' h =
    same_string-append (codes "chatroom:") (show_ℤ room) (show_ℤ room')
    ∙ same_string-false (show_ℤ room) (show_ℤ room')
        (λ e. let same = (eq_ℤ_iff room room').1 (show_ℤ-injective room room' e) in cc)

members-changed :
    (d : Db) (members : ℤ → List Bytes) (room : ℤ) (ms ms' : List Bytes)
    → ((z : ℤ) → Permᴰ (d.members (chatroom_key z)) (members z))
    → Permᴰ ms ms'
    → (room' : ℤ)
    → Permᴰ
        ((with_members d (chatroom_key room) ms).members (chatroom_key room'))
        (changed members room ms' room')
unfolding with_members
members-changed d members room ms ms' listed same room' = elim (Bool-cases (eq_ℤ room' room)) [
  | inl here ↦ rw (here, (eq_ℤ_iff room' room).0 here, same_string_refl (chatroom_key room)) same
  | inr other ↦ rw (other, chatroom_key-false room' room other) (listed room')
]

add_members-pair : (a b : ℤ) → add_members [] (show_ℤ a ∷ show_ℤ b ∷ []) ≡ pair a b
unfolding add_members add_member contains
add_members-pair a b = elim (Bool-cases (eq_ℤ a b)) [
  | inl same ↦ rw (same, (eq_ℤ_iff a b).0 same, same_string_refl (show_ℤ b))
  | inr other ↦ rw (
    other,
    same_string-false (show_ℤ a) (show_ℤ b)
        (λ e. let same = (eq_ℤ_iff a b).1 (show_ℤ-injective a b e) in cc),
  )
]

changed-fresh :
    (members : ℤ → List Bytes) (room : ℤ) (ms : List Bytes) (n : ℕ)
    → members (pos n) ≡ []
    → (room ≡ pos n → ms ≡ [])
    → changed members room ms (pos n) ≡ []
changed-fresh members room ms n h new = elim (Bool-cases (eq_ℤ (pos n) room)) [
  | inl same ↦ rw same (new (sym ((eq_ℤ_iff (pos n) room).0 same)))
  | inr other ↦ rw other h
]

module _ (d : Db) (rs : Rooms) (h : Holds d rs) where
  module _ (a b : ℤ) (ms : List Bytes)
      (order : Permᴰ ms (
        add_members
          (d.members (chatroom_key (pos (next_room d))))
          (show_ℤ a ∷ show_ℤ b ∷ []))) where
    created_count : (room_created d ms).counter next_chatroom_id ≡ suc rs.count
    unfolding room_created with_members with_counter
    created_count = rw same_string_refl (omega (arith, h.counted))

    created_logs : AreLogs (room_created d ms) rs.logs
    unfolding room_created with_members with_counter same_string
    created_logs = AreLogs-same d _ (λ k f. refl) (λ room. refl) h.are_logs

    -- the new room had no members
    none_before : d.members (chatroom_key (pos (next_room d))) ≡ []
    none_before =
        Perm-nil (h.listed (pos (next_room d))) (h.fresh (next_room d) (omega (arith, h.counted)))

    created_set : Permᴰ ms (pair a b)
    created_set = rw (none_before, add_members-pair a b) at order

    created_members :
        (room : ℤ)
        → Permᴰ
            ((room_created d ms).members (chatroom_key room))
            (changed rs.members (pos (suc rs.count)) (pair a b) room)
    unfolding room_created with_counter
    created_members room =
        let number : next_room d ≡ suc rs.count = omega (arith, h.counted) in
        subst
          (λ n.
            Permᴰ ((room_created d ms).members (chatroom_key room))
              (changed rs.members (pos n) (pair a b) room))
          number
          (members-changed (with_counter d next_chatroom_id (next_room d)) rs.members
            (pos (next_room d)) ms (pair a b) h.listed created_set room)

    pub Holds-created : Holds (room_created d ms) (record rs {
      count = suc rs.count;
      members = changed rs.members (pos (suc rs.count)) (pair a b);
    })
    Holds-created = record {
      counted = created_count;
      listed = created_members;
      fresh = λ n above.
          changed-fresh rs.members (pos (suc rs.count)) (pair a b) n (h.fresh n (omega arith))
            (λ same. ground arith);
      are_logs = created_logs;
    }

  pub Holds-left :
      (room : ℤ) (name : Bytes) (ms : List Bytes)
      → Permᴰ ms (remove_member (d.members (chatroom_key room)) name)
      → Holds
          (left d room ms)
          (record rs { members = changed rs.members room (remove_member (rs.members room) name) })
  unfolding with_members remove_member
  Holds-left room name ms order = record {
    counted = h.counted;
    listed =
        members-changed d rs.members room _ _ h.listed
          (Permᴰ.trans order (remove_member-Perm name (h.listed room)));
    fresh = λ n above. changed-fresh rs.members room _ n (h.fresh n above) (λ same.
        ap (λ z. remove_member (rs.members z) name) same
        ∙ ap (λ ms. remove_member ms name) (h.fresh n above));
    are_logs = AreLogs-same d _ (λ k f. refl) (λ z. refl) h.are_logs;
  }

  pub Holds-saved :
      (room : ℤ) (m : Message)
      → Holds (message_saved d room m) (record rs { logs = appended rs.logs room m })
  unfolding message_saved with_hash with_counter same_string
  Holds-saved room m = record {
    counted = h.counted;
    listed = h.listed;
    fresh = h.fresh;
    are_logs = record { log = saved-IsLog d rs.logs h.are_logs.log room m };
  }
