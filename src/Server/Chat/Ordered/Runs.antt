-- ===== src/Server/Chat/Ordered/Runs.antt =====
-- The messages that reach a connection (`handleChat` of server/server.c).

use native.Mathlib.Nat.{suc-mul}
use chat_hub.Base.{
  ℕ, ◌+◌, ◌*◌, ◌<◌, ◌≤◌, ◌^◌, ◌≡◌, refl, ◌∙◌, ap, some, List, [], ◌∷◌, ◌++◌, map, length, All, ℤ,
  append_assoc, append-nil, arith,
}
use chat_hub.Run.{ok}
use chat_hub.Exec.{value}
use chat_hub.Text.{Bytes}
use chat_hub.Message.{Parson}
use chat_hub.Hashtable.{hash_get}
use chat_hub.Redis.{Redis}
use chat_hub.Redis.Documented.{Db, Documented}
use chat_hub.Dao.Interface.{redis_dao}
use chat_hub.Dao.Keys.{next_msg_id, chatroom_key}
use chat_hub.Dao.Rooms.Members.{Member, online, shown}
use chat_hub.Server.{State, handle_chat}
use chat_hub.Server.Chat.{sends, stored}
use chat_hub.Server.Chat.Room.{handle_chat-online}
use chat_hub.Server.Chat.Ordered.{
  SameUsers, stored-SameUsers, counter-stored, members_same, online_same, Chat, IsChat, text_of,
  chat_all, all_sends, inbox, expected, inbox-all_sends,
}

length-map : (f : ℤ → ℕ) (fds : List ℤ) → length (map f fds) ≡ length fds
length-map f [] = refl
length-map f (fd ∷ fds) = omega (arith, length-map f fds)

module _ {r : Redis} (p : Parson) (laws : Documented r) (room : ℤ) (bev_of : ℤ → ℕ) (ids : List ℕ)
    (fds : List ℤ) where
  -- one message: the texts that are written, and a database with the users and the members of before
  record Handled (st : State r.Store) (d : Db) (c : Chat) : Type 0 where
    store : r.Store
    run :
        handle_chat (redis_dao r) p c.outside c.from c.message st
        ≡ ok (
          value c.message,
          record st {
            store = store;
            written = st.written ++ sends c.from (text_of c) (map bev_of fds);
          },
        )
    ready_after : laws.Ready store
    same_users : SameUsers d (laws.db store)
    counted : (laws.db store).counter (next_msg_id room) ≤ d.counter (next_msg_id room) + length fds

  handled :
      (c : Chat)
      → IsChat p room c
      → (st : State r.Store) (d : Db) (ms : All (Member d) ids) → online d ids ms ≡ fds
      → laws.Ready st.store
      → laws.db st.store ≡ d
      → map some (d.members (chatroom_key room)) ≡ shown ids
      → All (λ fd. hash_get st.clients fd ≡ ok (bev_of fd)) fds
      → d.counter (next_msg_id room) + length fds < 2 ^ 31
      → Handled st d c
  handled c chat st d ms same ready e listed found free =
      let number = ap (λ z. d.counter (next_msg_id z)) chat.to_room in
      let (s, run, ready_after, contents) =
        handle_chat-online p laws c.outside c.from c.message bev_of chat.packed chat.timed st d ids
          ms ready e (ap (λ z. map some (d.members (chatroom_key z))) chat.to_room ∙ listed)
          (rw same found) (omega (arith, number, ap length same)) in
      record {
        store = s;
        run =
            run
            ∙ ap
                (λ l. ok (
                  value c.message,
                  record st {
                    store = s;
                    written = st.written ++ sends c.from (text_of c) (map bev_of l);
                  },
                ))
                same;
        ready_after = ready_after;
        same_users =
            rw contents (stored-SameUsers c.from d c.message (map bev_of (online d ids ms)));
        counted = omega (
          arith,
          counter-stored c.from d c.message (map bev_of (online d ids ms)),
          ap (λ (x : Db). x.counter (next_msg_id room)) contents,
          ap
              (λ z.
                (stored c.from d c.message (map bev_of (online d ids ms))).counter (next_msg_id z))
              chat.to_room,
          number,
          length-map bev_of (online d ids ms),
          ap length same,
        );
      }

  chat_all_lem :
      (cs : List Chat)
      → All (IsChat p room) cs
      → (st : State r.Store) (d : Db) (ms : All (Member d) ids) → online d ids ms ≡ fds
      → laws.Ready st.store
      → laws.db st.store ≡ d
      → map some (d.members (chatroom_key room)) ≡ shown ids
      → All (λ fd. hash_get st.clients fd ≡ ok (bev_of fd)) fds
      → d.counter (next_msg_id room) + length cs * length fds < 2 ^ 31
      → (s : r.Store) × (chat_all (redis_dao r) p cs st
          ≡ ok (
            value tt,
            record st { store = s; written = st.written ++ all_sends (map bev_of fds) cs },
          ))
  chat_all_lem [] all st d ms same ready e listed found free = (st.store, rw append-nil)
  chat_all_lem (c ∷ cs) (chat, all) st d ms same ready e listed found free =
      let product = suc-mul (length cs) (length fds) in
      let h = handled c chat st d ms same ready e listed found (omega (arith, product)) in
      let after = record st {
        store = h.store;
        written = st.written ++ sends c.from (text_of c) (map bev_of fds);
      } in
      let (s, run) =
        chat_all_lem cs all after (laws.db h.store) (members_same h.same_users ids ms)
          (online_same h.same_users ids ms ∙ same) h.ready_after refl
          (ap (map some) (h.same_users.sets room) ∙ listed) found
          (omega (arith, product, h.counted)) in
      (
        s,
        rw (h.run, run)
            (ap (λ w. ok (value tt, record st { store = s; written = w }))
              (append_assoc st.written (sends c.from (text_of c) (map bev_of fds))
                (all_sends (map bev_of fds) cs))),
      )

  -- Messages that have their time and are packed, to one room whose members all have an id that an `int`
  -- holds and a stored descriptor, from any connections and in any order: `handleChat` returns for
  -- each, and what it writes to a connection is, in this order, the text of each message that does
  -- not come from it, once for each descriptor above 0 of the room that the table holds it for.
  -- `bev_of` is what the table holds for the descriptors `fds` above 0; the room's counter must have
  -- room for as many ids below the greatest `int` as there are messages times descriptors.
  pub inbox-chat_all :
      (cs : List Chat)
      → All (IsChat p room) cs
      → (st : State r.Store) (d : Db) (ms : All (Member d) ids) → online d ids ms ≡ fds
      → laws.Ready st.store
      → laws.db st.store ≡ d
      → map some (d.members (chatroom_key room)) ≡ shown ids
      → All (λ fd. hash_get st.clients fd ≡ ok (bev_of fd)) fds
      → d.counter (next_msg_id room) + length cs * length fds < 2 ^ 31
      → (s : r.Store) × (written : List (ℕ × Bytes)) × (chat_all (redis_dao r) p cs st
          ≡ ok (value tt, record st { store = s; written = st.written ++ written }))
        × ((b : ℕ) → 0 < b → inbox b written ≡ expected b (map bev_of fds) cs)
  inbox-chat_all cs all st d ms same ready e listed found free =
      let (s, run) = chat_all_lem cs all st d ms same ready e listed found free in
      (s, all_sends (map bev_of fds) cs, run, λ b h. inbox-all_sends b (map bev_of fds) cs h)
