-- ===== src/Dao/Rooms/Left.antt =====
-- Leaving a chat room (`leave_chatrooom`, `is_user_exists_inchatroom` of server/dao.c).
use mathlib.Core.Path.{fun_ext}
use mathlib.Core.List.{Permᴰ}
use chat_hub.Base.{
  ℕ, ◌≡◌, ◌≢◌, refl, ◌∙◌, ap, sym, false, Bool-cases, inl, inr, some, List, [], ◌∷◌, map, All,
  length, ℤ, pos, to_int, if◌then◌else◌, arith,
}
use chat_hub.Exec.{pure, ◌>>=◌}
use chat_hub.Text.{Bytes, same_string, show_ℤ, starts_with_digit}
use chat_hub.Text.Compare.{same_string_refl, same_string_iff, same_string-false, same_string_sound}
use chat_hub.Text.Decimal.{show_ℤ-starts_with_digit}
use chat_hub.Config.{error_normal}
use chat_hub.Redis.{Redis, reply_integer}
use chat_hub.Redis.Documented.{Db, Documented, with_members, remove_member, contains, room_set}
use chat_hub.Redis.Returns.{
  Returns, Returns-pure, Returns-bind, Returns-at_error, Returns-cast, bit_int,
}
use chat_hub.Redis.Order.{contains-Perm}
use chat_hub.Redis.Commands.{srem_at, sismember_at}
use chat_hub.Dao.Keys.{chatroom_key}
use chat_hub.Dao.Rooms.{leave_chatroom, is_user_exists_inchatroom, get_fd_byid}
use chat_hub.Dao.Rooms.Members.{Member, online, shown, get_fd_byid-online}

contains-remove_member :
    (ms : List Bytes) (v w : Bytes)
    → contains (remove_member ms v) w ≡ (if same_string w v then false else contains ms w)
unfolding remove_member contains
contains-remove_member [] v w = ground arith
contains-remove_member (m ∷ ms) v w = ground (
  arith,
  contains-remove_member ms v w,
  same_string_iff m v,
  same_string_iff w v,
  same_string_iff m w,
)

-- the database where the set of a room lists `ms`
abbrev pub left : Db → ℤ → List Bytes → Db
left d room ms = with_members d (chatroom_key room) ms

abbrev pub names : List ℕ → List Bytes
names [] = []
names (id ∷ ids) = show_ℤ (pos id) ∷ names ids

shown-names : (ids : List ℕ) → map some (names ids) ≡ shown ids
shown-names [] = refl
shown-names (id ∷ ids) = ap (λ l. some (show_ℤ (pos id)) ∷ l) (shown-names ids)

-- a name that no digit starts is no id
contains-names :
    (ids : List ℕ) (name : Bytes)
    → starts_with_digit name ≡ false
    → contains (names ids) name ≡ false
unfolding contains
contains-names [] name h = refl
contains-names (id ∷ ids) name h =
    let off : show_ℤ (pos id) ≢ name =
      λ e. let same = sym (show_ℤ-starts_with_digit id) ∙ ap starts_with_digit e ∙ h in cc in
    rw (same_string-false (show_ℤ (pos id)) name off, contains-names ids name h)

with_members_same :
    (d : Db) (key : Bytes) (ms : List Bytes) → ms ≡ d.members key → with_members d key ms ≡ d
unfolding with_members
with_members_same d key ms e =
    ap (λ (f : Bytes → List Bytes). record d { members = f })
      (fun_ext λ k. elim (Bool-cases (same_string k key)) [
        | inl p ↦ rw p (e ∙ ap d.members (sym (same_string_sound k key p)))
        | inr p ↦ rw p
      ])

module _ {r : Redis} (laws : Documented r) (d : Db) {s : r.Store} (ready : laws.Ready s)
    (e : laws.db s ≡ d) (room : ℤ) where
  -- `leave_chatrooom` returns the room, whose set then has what it had but the name, in some order; it
  -- is unchanged where it did not have the name.
  pub leave_chatroom_lem :
      (name : Bytes)
      → (ms : List Bytes) × Permᴰ ms (remove_member (d.members (chatroom_key room)) name)
        × (contains (d.members (chatroom_key room)) name ≡ false
            → ms ≡ d.members (chatroom_key room))
        × Returns laws (leave_chatroom r room name) s room (left d room ms)
  unfolding leave_chatroom
  leave_chatroom_lem name =
      let (ms, order, same, removed) = srem_at laws d ready e (room_set room) name in
      (
        ms,
        order,
        same,
        Returns-at_error laws error_normal (
            Returns-bind laws (λ reply. pure room) removed
              λ s1 r1 e1. Returns-pure laws _ s1 r1 e1),
      )

  pub is_user_exists_inchatroom_lem :
      (name : Bytes)
      → Returns laws
          (is_user_exists_inchatroom r room name)
          s
          (if contains (d.members (chatroom_key room)) name then pos 1 else pos 0)
          d
  unfolding is_user_exists_inchatroom
  is_user_exists_inchatroom_lem name =
      Returns-cast laws
        (Returns-at_error laws error_normal (
          Returns-bind laws (λ reply. pure (to_int (reply_integer reply)))
            (sismember_at laws d ready e (room_set room) name)
            λ s1 r1 e1. Returns-pure laws _ s1 r1 e1))
        (bit_int (contains (d.members (chatroom_key room)) name)) refl

module _ {r : Redis} (laws : Documented r) (d : Db) {s : r.Store} (ready : laws.Ready s)
    (e : laws.db s ≡ d) (room : ℤ) where
  after_leaving :
      (ms : List Bytes) (name other : Bytes)
      → Permᴰ ms (remove_member (d.members (chatroom_key room)) name)
      → (if contains ((left d room ms).members (chatroom_key room)) other then pos 1 else pos 0) ≡ (
          if same_string other name
          then pos 0
          else (if contains (d.members (chatroom_key room)) other then pos 1 else pos 0))
  unfolding with_members
  after_leaving ms name other order = rw same_string_refl (
      rw (contains-Perm other order, contains-remove_member)
        (elim (Bool-cases (same_string other name)) [ inl p ↦ rw p | inr p ↦ rw p ]))

  -- After `leave_chatrooom` under a name, `is_user_exists_inchatroom` returns 0 for this name, and for
  -- any other text 1 where the set of the room has it and 0 where not.
  pub is_user_exists_inchatroom-leave_chatroom :
      (name other : Bytes)
      → (ms : List Bytes) × Returns laws
          (leave_chatroom r room name >>= λ _. is_user_exists_inchatroom r room other)
          s
          (if same_string other name
            then pos 0
            else (if contains (d.members (chatroom_key room)) other then pos 1 else pos 0))
          (left d room ms)
  is_user_exists_inchatroom-leave_chatroom name other =
      let (ms, order, same, removed) = leave_chatroom_lem laws d ready e room name in
      (
        ms,
        Returns-bind laws _ removed λ s1 r1 e1.
            Returns-cast laws (is_user_exists_inchatroom_lem laws (left d room ms) r1 e1 room other)
              (after_leaving ms name other order) refl,
      )

  -- Where the set of a room holds ids of users, as `create_chatroom` stores them, who are known with
  -- a descriptor each, and a name does not start with a digit: `leave_chatrooom` under the name
  -- returns the room and changes nothing in the database, and `get_fd_byid` goes on to return every
  -- descriptor above 0 of the room.
  pub get_fd_byid-leave_chatroom :
      (ids : List ℕ) (ms : All (Member d) ids) (name : Bytes)
      → d.members (chatroom_key room) ≡ names ids
      → starts_with_digit name ≡ false
      → Returns laws (leave_chatroom r room name) s room d
        × Returns laws
            (leave_chatroom r room name >>= λ left_room. get_fd_byid r left_room)
            s
            (some (online d ids ms), length (online d ids ms))
            d
  get_fd_byid-leave_chatroom ids ms name kept h =
      let (ms', order, same, removed) = leave_chatroom_lem laws d ready e room name in
      let absent = ap (λ l. contains l name) kept ∙ contains-names ids name h in
      let back =
        Returns-cast laws removed refl
          (with_members_same d (chatroom_key room) ms' (same absent)) in
      (
        back,
        Returns-bind laws _ back λ s1 r1 e1.
            get_fd_byid-online laws d room ids ms r1 e1 (ap (map some) kept ∙ shown-names ids),
      )
