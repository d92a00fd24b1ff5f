-- ===== src/Server/Chat.antt =====
-- `handleChat` (server/server.c): who receives a message, and how often it is stored.
pub mod Room
pub mod Presence
pub mod Logs
pub mod Ordered
mod Examples
use chat_hub.Base.{
  ℕ, ◌+◌, ◌<◌, ◌^◌, ◌≡◌, ◌∙◌, ap, true, false, List, [], ◌∷◌, ◌++◌, map, ℤ, pos, is_pos, ◌==◌,
  if◌then◌else◌, arith, length, Bool-cases, inl, inr, append_assoc, append-nil, All, some,
}
use chat_hub.Run.{ok}
use chat_hub.Exec.{value}
use chat_hub.Text.{Bytes}
use chat_hub.Config.{Message}
use chat_hub.Message.{Parson, pack_message}
use chat_hub.Hashtable.{hash_get}
use chat_hub.Redis.{Redis}
use chat_hub.Dao.Interface.{Dao, redis_dao}
use chat_hub.Redis.Documented.{Db, Documented}
use chat_hub.Redis.Returns.{Returns-cast}
use chat_hub.Dao.Keys.{next_msg_id}
use chat_hub.Dao.Rooms.{save_message}
use chat_hub.Dao.Rooms.Saved.{
  pack_message-IsTerminated, with_time, message_saved, save_message_lem, counter-message_saved,
}
use chat_hub.Server.{State, Outside, chat_loop, send_to, write_json, buffer_of}

-- The specification: what is written for the buffers `bevs` of the room, with 0 for a member who is
-- not connected to this server, and how often the message is stored.
unfoldable pub sends : ℕ → Bytes → List ℕ → List (ℕ × Bytes)
sends from bytes [] = []
sends from bytes (b ∷ bs) =
    let rest = sends from bytes bs in
    if b == from then rest else if b == 0 then rest else (b, bytes) ∷ rest

unfoldable pub stored : ℕ → Db → Message → List ℕ → Db
stored from d m [] = d
stored from d m (b ∷ bs) =
    let same = stored from d m bs in
    let more = stored from (message_saved d m.group_id m) m bs in if b == from then same else more

module _ (dao : Dao) (p : Parson) (o : Outside) (from : ℕ) (m : Message)
    (st : State dao.Store) where
  loop_skip :
      (fd : ℤ) (fds : List ℤ) {b : ℕ}
      → hash_get st.clients fd ≡ ok b
      → (b == from) ≡ true
      → chat_loop dao p o from (fd ∷ fds) m st ≡ chat_loop dao p o from fds m st
  unfolding chat_loop
  loop_skip fd fds found me = rw (found, me)

  loop_step :
      (fd : ℤ) (fds : List ℤ) {b : ℕ} {st' : State dao.Store} {id : ℤ} {s : dao.Store}
      → hash_get st.clients fd ≡ ok b
      → (b == from) ≡ false
      → send_to dao p o b m st ≡ ok (value tt, st')
      → dao.save_message m.group_id m o.now st'.store ≡ ok (value (id, m), s)
      → chat_loop dao p o from (fd ∷ fds) m st
        ≡ chat_loop dao p o from fds m (record st' { store = s })
  unfolding chat_loop
  loop_step fd fds found other sent saved = rw (found, other, sent, saved)

  send_to_lem :
      (b : ℕ) {json : Bytes} {size : ℕ}
      → pack_message p m ≡ ok (some json, size)
      → send_to dao p o b m st
        ≡ ok (
          value tt,
          record st {
            written =
                if b == 0 then st.written else st.written ++ (b, buffer_of json o.beyond) ∷ [];
          },
        )
  unfolding send_to write_json
  send_to_lem b packed = elim (Bool-cases (b == 0)) [
    | inl null ↦ rw null
    | inr live ↦ rw (live, packed)
  ]

with_time_same : (m : Message) (now : ℤ) → is_pos m.send_time ≡ true → with_time m now ≡ m
with_time_same m now timed = rw timed

module _ (from : ℕ) (bytes : Bytes) (b : ℕ) (bs : List ℕ) where
  sends_skip : (b == from) ≡ true → sends from bytes bs ≡ sends from bytes (b ∷ bs)
  unfolding sends
  sends_skip me = rw me

  sends_step :
      (w : List (ℕ × Bytes))
      → (b == from) ≡ false
      → (if b == 0 then w else w ++ (b, bytes) ∷ []) ++ sends from bytes bs
        ≡ w ++ sends from bytes (b ∷ bs)
  unfolding sends
  sends_step w other = elim (Bool-cases (b == 0)) [
    | inl null ↦ rw (other, null)
    | inr live ↦ rw (other, live, append_assoc w ((b, bytes) ∷ []) (sends from bytes bs))
  ]

module _ (from : ℕ) (d : Db) (m : Message) (b : ℕ) (bs : List ℕ) where
  stored_skip : (b == from) ≡ true → stored from d m bs ≡ stored from d m (b ∷ bs)
  unfolding stored
  stored_skip me = rw me

  stored_step :
      (b == from) ≡ false
      → stored from (message_saved d m.group_id m) m bs ≡ stored from d m (b ∷ bs)
  unfolding stored
  stored_step other = rw other

module _ {r : Redis} (p : Parson) (laws : Documented r) (o : Outside) (from : ℕ) (m : Message)
    (bev_of : ℤ → ℕ) where
  -- The loop ends with the message as it was, the writes `w` and the database `d`; the table of
  -- clients stays.
  pub record Delivers (fds : List ℤ) (st : State r.Store) (w : List (ℕ × Bytes)) (d : Db)
      : Type 0 where
    pub store : r.Store
    pub run :
        chat_loop (redis_dao r) p o from fds m st
        ≡ ok (value m, record st { store = store; written = w })
    pub ready_after : laws.Ready store
    pub contents : laws.db store ≡ d

  Delivers-skip :
      (fd : ℤ) (fds : List ℤ) {st : State r.Store} {w w' : List (ℕ × Bytes)} {d d' : Db}
      → hash_get st.clients fd ≡ ok (bev_of fd)
      → (bev_of fd == from) ≡ true
      → Delivers fds st w d
      → w ≡ w'
      → d ≡ d'
      → Delivers (fd ∷ fds) st w' d'
  Delivers-skip fd fds {st} found me rest same_w same_d = record {
    store = rest.store;
    run =
        loop_skip (redis_dao r) p o from m st fd fds found me
        ∙ rest.run
        ∙ ap (λ w. ok (value m, record st { store = rest.store; written = w })) same_w;
    ready_after = rest.ready_after;
    contents = rest.contents ∙ same_d;
  }

  Delivers-step :
      (fd : ℤ) (fds : List ℤ) {st : State r.Store} {w1 w w' : List (ℕ × Bytes)} {d d' : Db} {id : ℤ}
      {s : r.Store}
      → hash_get st.clients fd ≡ ok (bev_of fd)
      → (bev_of fd == from) ≡ false
      → send_to (redis_dao r) p o (bev_of fd) m st ≡ ok (value tt, record st { written = w1 })
      → save_message r m.group_id m o.now st.store ≡ ok (value (id, m), s)
      → Delivers fds (record st { store = s; written = w1 }) w d
      → w ≡ w'
      → d ≡ d'
      → Delivers (fd ∷ fds) st w' d'
  Delivers-step fd fds {st} found other sent saved rest same_w same_d = record {
    store = rest.store;
    run =
        loop_step (redis_dao r) p o from m st fd fds found other sent saved
        ∙ rest.run
        ∙ ap (λ w. ok (value m, record st { store = rest.store; written = w })) same_w;
    ready_after = rest.ready_after;
    contents = rest.contents ∙ same_d;
  }

  -- A message that has its time and is packed: the loop over the descriptors `fds`, for which the
  -- table holds `bev_of`, writes the text to every connected buffer but the sender's, in their
  -- order, and stores the message once for each member but the sender, also for those who are not
  -- connected. The room's counter must have room for as many ids below the greatest `int`.
  pub chat_loop-Delivers :
      {json : Bytes} {size : ℕ}
      → pack_message p m ≡ ok (some json, size)
      → is_pos m.send_time ≡ true
      → (fds : List ℤ) (st : State r.Store) {d : Db} → laws.Ready st.store
      → laws.db st.store ≡ d
      → All (λ fd. hash_get st.clients fd ≡ ok (bev_of fd)) fds
      → d.counter (next_msg_id m.group_id) + length fds < 2 ^ 31
      → Delivers fds st
          (st.written ++ sends from (buffer_of json o.beyond) (map bev_of fds))
          (stored from d m (map bev_of fds))
  unfolding chat_loop sends stored
  chat_loop-Delivers packed timed [] st ready e found free = record {
    store = st.store;
    run = rw (append-nil st.written);
    ready_after = ready;
    contents = e;
  }
  chat_loop-Delivers {json} packed timed (fd ∷ fds) st {d} ready e (here, there) free =
      elim (Bool-cases (bev_of fd == from)) [
        | inl me ↦
            Delivers-skip fd fds here me
              (chat_loop-Delivers packed timed fds st ready e there (omega arith))
              (ap (λ s. st.written ++ s) (sends_skip from _ (bev_of fd) (map bev_of fds) me))
              (stored_skip from d m (bev_of fd) (map bev_of fds) me)
        | inr other ↦
            let saved =
              Returns-cast laws
                (save_message_lem laws d ready e m.group_id (omega arith) m o.now
                  (pack_message-IsTerminated p m packed))
                (ap (λ x. (pos (d.counter (next_msg_id m.group_id) + 1), x))
                  (with_time_same m o.now timed))
                (ap (message_saved d m.group_id) (with_time_same m o.now timed)) in
            Delivers-step fd fds here other
              (send_to_lem (redis_dao r) p o from m st (bev_of fd) packed) saved.run
              (chat_loop-Delivers packed timed fds _ saved.ready_after saved.contents there
                (omega (arith, counter-message_saved d m.group_id m)))
              (sends_step from _ (bev_of fd) (map bev_of fds) st.written other)
              (stored_step from d m (bev_of fd) (map bev_of fds) other)
      ]
