-- ===== src/Dao/Rooms/Refine/Runs.antt =====
-- Sequences of calls of the functions over chat rooms return what the specification returns.
use chat_hub.Base.{
  ℕ, suc, All, ◌+◌, ◌<◌, ◌≤◌, ◌^◌, ◌≡◌, refl, ap, List, [], ◌∷◌, length, length-append, ℤ, pos,
  eq_ℤ, if◌then◌else◌, Bool-cases, inl, inr, arith,
}
use chat_hub.Exec.{Exec, pure}
use chat_hub.Config.{Message}
use chat_hub.Redis.{Redis}
use chat_hub.Redis.Documented.{Db, Documented}
use chat_hub.Redis.Returns.{Returns, Returns-pure, Returns-bind, Returns-cast}
use chat_hub.Redis.Order.{contains-Perm}
use chat_hub.Dao.Rooms.Created.{room_created, create_chatroom_lem}
use chat_hub.Dao.Rooms.Left.{left, leave_chatroom_lem, is_user_exists_inchatroom_lem}
use chat_hub.Dao.Rooms.Saved.{with_time, message_saved, save_message_lem}
use chat_hub.Dao.Rooms.Log.{appended}
use chat_hub.Dao.Rooms.Refine.{
  Op, CanSave, create, leave, exists, save, call, run, Rooms, no_rooms, step, run_rooms,
}
use chat_hub.Dao.Rooms.Refine.Stored.{Holds, Holds-created, Holds-left, Holds-saved}

-- no more than `k` rooms, and no more than `k` messages in a room
record IsSmall (rs : Rooms) (k : ℕ) : Type 0 where
  rooms : rs.count ≤ k
  messages : (room : ℤ) → length (rs.logs room) ≤ k

appended-small :
    (logs : ℤ → List Message) (room : ℤ) (m : Message) (k : ℕ)
    → ((z : ℤ) → length (logs z) ≤ k)
    → (z : ℤ) → length (appended logs room m z) ≤ suc k
appended-small logs room m k small z = elim (Bool-cases (eq_ℤ z room)) [
  | inl same ↦ rw same (omega (arith, length-append (logs room) (m ∷ []), small room))
  | inr other ↦ rw other (omega (arith, small z))
]

step-IsSmall : (rs : Rooms) (k : ℕ) (op : Op) → IsSmall rs k → IsSmall (step rs op).0 (suc k)
step-IsSmall rs k (create a b) small = record {
  rooms = omega (arith, small.rooms);
  messages = λ z. omega (arith, small.messages z);
}
step-IsSmall rs k (leave room name) small = record {
  rooms = omega (arith, small.rooms);
  messages = λ z. omega (arith, small.messages z);
}
step-IsSmall rs k (exists room name) small = record {
  rooms = omega (arith, small.rooms);
  messages = λ z. omega (arith, small.messages z);
}
step-IsSmall rs k (save room m now) small = record {
  rooms = omega (arith, small.rooms);
  messages = appended-small rs.logs room (with_time m now) k small.messages;
}

module _ {r : Redis} (laws : Documented r) where
  -- a function returns the result of the specification's step, and leaves a database that holds its rooms
  record Follows (m : Exec r.Store ℤ) (s : r.Store) (next : Rooms × ℤ) : Type 0 where
    db_after : Db
    returns : Returns laws m s next.1 db_after
    holds : Holds db_after next.0

  call-Follows :
      (op : Op) (d : Db) (rs : Rooms) (k : ℕ) {s : r.Store}
      → Holds d rs
      → IsSmall rs k
      → k + 1 < 2 ^ 31
      → CanSave op
      → laws.Ready s
      → laws.db s ≡ d
      → Follows (call r op) s (step rs op)
  call-Follows (create a b) d rs k h small bound can ready e =
      let (ms, order, made) =
        create_chatroom_lem laws d ready e (omega (arith, h.counted, small.rooms)) a b in
      record {
        db_after = room_created d ms;
        returns = Returns-cast laws made (ap pos (omega (arith, h.counted))) refl;
        holds = Holds-created d rs h a b ms order;
      }
  call-Follows (leave room name) d rs k h small bound can ready e =
      let (ms, order, same, removed) = leave_chatroom_lem laws d ready e room name in
      record {
        db_after = left d room ms;
        returns = removed;
        holds = Holds-left d rs h room name ms order;
      }
  call-Follows (exists room name) d rs k h small bound can ready e = record {
    db_after = d;
    returns =
        Returns-cast laws (is_user_exists_inchatroom_lem laws d ready e room name)
          (ap (λ found. if found then pos 1 else pos 0) (contains-Perm name (h.listed room))) refl;
    holds = h;
  }
  call-Follows (save room m now) d rs k h small bound terminated ready e =
      let counted = (h.are_logs.log room).counted in
      record {
        db_after = message_saved d room (with_time m now);
        returns =
            Returns-bind laws (λ saved. pure saved.0)
              (save_message_lem laws d ready e room (omega (arith, counted, small.messages room)) m
                now terminated)
              λ s1 r1 e1.
                Returns-cast laws (Returns-pure laws _ s1 r1 e1) (ap (λ n. pos (n + 1)) counted)
                  refl;
        holds = Holds-saved d rs h room (with_time m now);
      }

  run_refines :
      (ops : List Op) (d : Db) (rs : Rooms) (k : ℕ) {s : r.Store}
      → Holds d rs
      → IsSmall rs k
      → k + length ops < 2 ^ 31
      → All CanSave ops
      → laws.Ready s
      → laws.db s ≡ d
      → (d' : Db) × Returns laws (run r ops) s (run_rooms rs ops).1 d'
        × Holds d' (run_rooms rs ops).0
  unfolding run_rooms
  run_refines [] d rs k {s} h small bound all ready e = (d, Returns-pure laws [] s ready e, h)
  run_refines (op ∷ ops) d rs k {s} h small bound (can, all) ready e =
      let f = call-Follows op d rs k h small (omega arith) can ready e in
      let after = f.returns in
      let (d', rest, holds) =
        run_refines ops f.db_after (step rs op).0 (suc k) f.holds (step-IsSmall rs k op small)
          (omega arith) all after.ready_after after.contents in
      (
        d',
        record {
          after = rest.after;
          run = rw (after.run, rest.run);
          ready_after = rest.ready_after;
          contents = rest.contents;
        },
        holds,
      )

  -- From a database without rooms on, for every sequence of less than 2 ^ 31 calls of `create_chatroom`,
  -- `leave_chatrooom`, `is_user_exists_inchatroom` and `save_message`, the last on messages with a
  -- NUL in both arrays: the functions return what the specification returns, that is, the next number
  -- for a new room, the room that is left, whether the set of the room has the text, and the place of
  -- the message in its room; and the database then holds the members of the specification, in some
  -- order, and its messages, room by room.
  pub run_from_no_rooms :
      (ops : List Op) {s : r.Store}
      → laws.Ready s
      → Holds (laws.db s) no_rooms
      → length ops < 2 ^ 31
      → All CanSave ops
      → (d : Db) × Returns laws (run r ops) s (run_rooms no_rooms ops).1 d
        × Holds d (run_rooms no_rooms ops).0
  run_from_no_rooms ops {s} ready h bound can =
      run_refines ops (laws.db s) no_rooms 0 h
        (record { rooms = omega arith; messages = λ room. omega arith }) (omega arith) can ready
        refl
