-- ===== src/Dao/Rooms/Created.antt =====
-- A new chat room (`create_chatroom` of server/dao.c), as `get_fd_byid` reads it.
use mathlib.Core.List.{Permᴰ}
use mathlib.Core.List.Permᴰ as Order
use chat_hub.Base.{
  List, Bool-cases, inl, inr, is_pos, ℕ, ◌+◌, ◌<◌, ◌^◌, ◌≡◌, ◌≢◌, ◌∙◌, refl, ap, some, [], ◌∷◌, map,
  length, ℤ, pos, to_int, to_int_pos, arith,
}
use chat_hub.Exec.{Exec, pure, ◌>>=◌}
use chat_hub.Text.{Bytes, show_ℤ}
use chat_hub.Text.Compare.{same_string_refl, same_string-false}
use chat_hub.Text.Decimal.{show_ℤ-injective}
use chat_hub.Config.{error_normal}
use chat_hub.Redis.{Redis, Reply, reply_integer, command, sadd}
use chat_hub.Redis.Documented.{
  Db, Documented, with_members, with_counter, add_members, add_member, contains, chatroom_ids,
  room_set,
}
use chat_hub.Redis.Returns.{
  Returns, Returns-pure, Returns-bind, Returns-then, Returns-at_error, Returns-cast, Returns-check,
}
use chat_hub.Redis.Order.{Perm-pair}
use chat_hub.Redis.Commands.{incr_at, sadd_at}
use chat_hub.Dao.Keys.{chatroom_key, next_chatroom_id}
use chat_hub.Dao.Rooms.{create_chatroom, get_next_chatroomid, get_fd_byid}
use chat_hub.Dao.Rooms.Members.{Member, online, get_fd_byid-online}

abbrev pub next_room : Db → ℕ
next_room d = d.counter next_chatroom_id + 1

-- what `create_chatroom` leaves, where the set of the new room then lists `ms`
unfoldable pub room_created : Db → List Bytes → Db
room_created d ms =
    with_members (with_counter d next_chatroom_id (next_room d)) (chatroom_key (pos (next_room d)))
      ms

room_created_members :
    (d : Db) (ms : List Bytes) → (room_created d ms).members (chatroom_key (pos (next_room d))) ≡ ms
unfolding room_created with_members with_counter
room_created_members d ms = rw same_string_refl

two_added : (a b : ℤ) → a ≢ b → add_members [] (show_ℤ a ∷ show_ℤ b ∷ []) ≡ show_ℤ a ∷ show_ℤ b ∷ []
unfolding add_members add_member contains
two_added a b other =
    rw (same_string-false (show_ℤ a) (show_ℤ b) (λ e. other (show_ℤ-injective a b e)))

-- a user whom the database knows is known in the database with the room
Member-created : {d : Db} (ms : List Bytes) {id : ℕ} → Member d id → Member (room_created d ms) id
unfolding room_created with_members with_counter
Member-created ms m = record {
  positive = m.positive;
  small = m.small;
  fd = m.fd;
  fits = m.fits;
  kept = m.kept;
}

-- the descriptors of two members do not depend on their order
online_swap :
    (d : Db) {a b : ℕ} (ma : Member d a) (mb : Member d b)
    → Permᴰ (online d (b ∷ a ∷ []) (mb, (ma, tt))) (online d (a ∷ b ∷ []) (ma, (mb, tt)))
online_swap d {b = b} ma mb = elim (Bool-cases (is_pos ma.fd)) [
  | inl x ↦ elim (Bool-cases (is_pos mb.fd)) [
    | inl y ↦ rw (x, y) (Permᴰ.swap refl refl)
    | inr y ↦ rw (x, y) (Order.refl (ma.fd ∷ []))
  ]
  | inr x ↦ rw x (Order.refl (online d (b ∷ []) (mb, tt)))
]

module _ {r : Redis} (laws : Documented r) (d : Db) {s : r.Store} (ready : laws.Ready s)
    (e : laws.db s ≡ d) (room_left : next_room d < 2 ^ 31) where
  get_next_chatroomid_lem :
      Returns laws
        (get_next_chatroomid r)
        s
        (pos (next_room d))
        (with_counter d next_chatroom_id (next_room d))
  unfolding get_next_chatroomid
  get_next_chatroomid_lem =
      Returns-cast laws
        (Returns-at_error laws error_normal (
          Returns-bind laws (λ reply. pure (to_int (reply_integer reply)))
            (incr_at laws d ready e chatroom_ids (omega arith))
            λ s1 r1 e1. Returns-pure laws _ s1 r1 e1))
        (to_int_pos (next_room d) room_left) refl

  abbrev added : ℤ → ℤ → Exec r.Store Reply
  added a b = command r (sadd (chatroom_key (pos (next_room d))) (show_ℤ a ∷ show_ℤ b ∷ []))

  abbrev room : Exec r.Store ℤ
  room = pure (pos (next_room d))

  -- `create_chatroom` returns the next number of a room, whose set then has the two ids besides what it
  -- had, in some order.
  pub create_chatroom_lem :
      (a b : ℤ)
      → (ms : List Bytes) × Permᴰ ms
          (add_members (d.members (chatroom_key (pos (next_room d)))) (show_ℤ a ∷ show_ℤ b ∷ []))
        × Returns laws (create_chatroom r a b) s (pos (next_room d)) (room_created d ms)
  unfolding create_chatroom room_created with_counter
  create_chatroom_lem a b =
      let counted = get_next_chatroomid_lem in
      let checked = Returns-check laws _ counted.after refl counted.ready_after counted.contents in
      let (n, ms, order, last) =
        sadd_at laws _ checked.ready_after checked.contents (room_set (pos (next_room d)))
          (show_ℤ a ∷ show_ℤ b ∷ []) in
      (
        ms,
        order,
        Returns-at_error laws error_normal (
            Returns-then laws _ counted (
              Returns-then laws (λ x. added a b >>= λ y. room) checked
                (Returns-then laws (λ y. room) last
                  (Returns-pure laws _ last.after last.ready_after last.contents)))),
      )

  -- A room for two users with stored descriptors, while no members are stored under the next number of a
  -- room, which an `int` holds: `create_chatroom` and then `get_fd_byid` on its result return those of
  -- the two descriptors that are above 0, in one of the two orders, with their number. The database
  -- then has the counter of rooms raised and the two ids in the set of the room, in some order.
  pub get_fd_byid-create_chatroom :
      {a b : ℕ} (ma : Member d a) (mb : Member d b)
      → a ≢ b
      → d.members (chatroom_key (pos (next_room d))) ≡ []
      → (ms : List Bytes) × (fds : List ℤ) × Permᴰ ms (show_ℤ (pos a) ∷ show_ℤ (pos b) ∷ [])
        × Permᴰ fds (online d (a ∷ b ∷ []) (ma, (mb, tt)))
        × Returns laws
            (create_chatroom r (pos a) (pos b) >>= λ room. get_fd_byid r room)
            s
            (some fds, length fds)
            (room_created d ms)
  unfolding Member-created
  get_fd_byid-create_chatroom {a} {b} ma mb other fresh =
      let (ms, order, made) = create_chatroom_lem (pos a) (pos b) in
      let d' = room_created d ms in
      let ma' = Member-created ms ma in
      let mb' = Member-created ms mb in
      let both : Permᴰ ms (show_ℤ (pos a) ∷ show_ℤ (pos b) ∷ []) =
        rw (fresh, two_added (pos a) (pos b) (λ same. other (cc))) at order in
      elim (Perm-pair both) [
        | inl e ↦ (
          ms,
          online d (a ∷ b ∷ []) (ma, (mb, tt)),
          both,
          Order.refl _,
          Returns-bind laws _ made λ s1 r1 e1.
              get_fd_byid-online laws d' (pos (next_room d)) (a ∷ b ∷ []) (ma', (mb', tt)) r1 e1
                (ap (map some) (room_created_members d ms ∙ e)),
        )
        | inr e ↦ (
          ms,
          online d (b ∷ a ∷ []) (mb, (ma, tt)),
          both,
          online_swap d ma mb,
          Returns-bind laws _ made λ s1 r1 e1.
              get_fd_byid-online laws d' (pos (next_room d)) (b ∷ a ∷ []) (mb', (ma', tt)) r1 e1
                (ap (map some) (room_created_members d ms ∙ e)),
        )
      ]
