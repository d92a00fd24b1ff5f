-- ===== src/Dao/Rooms/Members.antt =====
-- `get_fd_byid`: the descriptors of a chat room.
use mathlib.Core.List.{map-append}
use chat_hub.Base.{
  ℕ, ◌<◌, ◌^◌, ◌≡◌, refl, ap, ◌∙◌, true, Option, none, some, List, [], ◌∷◌, ◌++◌, map, All, length,
  ℤ, pos, to_int, to_int_pos, is_pos, if◌then◌else◌, append-nil, append_assoc, Bool-cases, inl, inr,
  arith,
}
use chat_hub.Text.{Bytes, codes, show_ℤ, atoll}
use chat_hub.Text.Decimal.{atoll-show_ℤ}
use chat_hub.Run.{ok, fault, null_pointer}
use chat_hub.Redis.{Redis, str, array}
use chat_hub.Redis.Documented.{bulk, Db, Documented, user_hash, room_set}
use chat_hub.Redis.Returns.{
  Returns, Returns-pure, Returns-bind, Returns-at_error, Returns-cast, Returns-lift,
}
use chat_hub.Redis.Commands.{smembers_at, hget_at}
use chat_hub.Dao.Keys.{user_key, chatroom_key}
use chat_hub.Dao.Rooms.{user_ids, collect_fds, get_fd_byid}

-- a member with an id that an `int` holds, and the descriptor that the database has for it
pub record Member (d : Db) (id : ℕ) : Type 0 where
  pub positive : 0 < id
  pub small : id < 2 ^ 31
  pub fd : ℤ
  pub fits : to_int fd ≡ fd
  pub kept : d.hash (user_key (pos id)) (codes "sockfd") ≡ some (show_ℤ fd)

-- the descriptors of the members who are online: those above 0
abbrev pub online : (d : Db) (ids : List ℕ) → All (Member d) ids → List ℤ
online d [] ms = []
online d (id ∷ ids) (m, ms) =
    let rest = online d ids ms in if is_pos m.fd then m.fd ∷ rest else rest

abbrev pub shown : List ℕ → List (Option Bytes)
shown [] = []
shown (id ∷ ids) = some (show_ℤ (pos id)) ∷ shown ids

-- an id that an `int` holds, above 0
abbrev pub IsId : ℕ → Type 0
IsId id = (0 < id) × (id < 2 ^ 31)

user_ids-shown : (ids : List ℕ) → All IsId ids → user_ids (shown ids) ≡ ok (map pos ids)
unfolding user_ids
user_ids-shown [] all = refl
user_ids-shown (id ∷ ids) (here, all) =
    let positive : is_pos (pos id) ≡ true = ground (arith, here.0) in
    rw (atoll-show_ℤ (pos id), user_ids-shown ids all, to_int_pos id here.1, positive)

members-IsId : (d : Db) (ids : List ℕ) → All (Member d) ids → All IsId ids
members-IsId d [] ms = tt
members-IsId d (id ∷ ids) (m, ms) = ((m.positive, m.small), members-IsId d ids ms)

-- members, one more id, and others
ids-IsId :
    (d : Db) (ids : List ℕ) (id : ℕ) (others : List ℕ)
    → All (Member d) ids
    → IsId id
    → All IsId others
    → All IsId (ids ++ id ∷ others)
ids-IsId d [] id others ms here all = (here, all)
ids-IsId d (n ∷ ids) id others (m, ms) here all =
    ((m.positive, m.small), ids-IsId d ids id others ms here all)

module _ {r : Redis} (laws : Documented r) (d : Db) where
  collect_fds-online :
      (ids : List ℕ) (ms : All (Member d) ids) (acc : List ℤ) {s : r.Store}
      → laws.Ready s
      → laws.db s ≡ d
      → Returns laws
          (collect_fds r (map pos ids) acc)
          s
          (some (acc ++ online d ids ms), length (acc ++ online d ids ms))
          d
  unfolding collect_fds
  collect_fds-online [] ms acc {s} ready e =
      Returns-cast laws (Returns-pure laws (some acc, length acc) s ready e) (rw append-nil) refl
  collect_fds-online (id ∷ ids) (m, ms) acc {s} ready e =
      let same : to_int (atoll (show_ℤ m.fd)) ≡ m.fd = ap to_int (atoll-show_ℤ m.fd) ∙ m.fits in
      Returns-at_error laws (none, length acc)
        (Returns-bind laws _
          (Returns-cast laws {a' = str (show_ℤ m.fd)}
            (hget_at laws d ready e (user_hash (pos id)) (codes "sockfd")) (ap bulk m.kept) refl)
          λ s1 r1 e1.
            Returns-bind laws
              (λ t.
                let fd = to_int (atoll t) in
                collect_fds r (map pos ids) (if is_pos fd then acc ++ fd ∷ [] else acc))
              (Returns-lift laws _ (show_ℤ m.fd) s1 refl r1 e1)
              λ s2 r2 e2. rw same (elim (Bool-cases (is_pos m.fd)) [
                | inl p ↦ rw p (
                    Returns-cast laws (collect_fds-online ids ms (acc ++ m.fd ∷ []) r2 e2)
                      (ap (λ (l : List ℤ). (some l, length l))
                        (append_assoc acc (m.fd ∷ []) (online d ids ms)))
                      refl)
                | inr p ↦ rw p (collect_fds-online ids ms acc r2 e2)
              ]))

  -- For a room whose members all have an id that an `int` holds and a stored descriptor,
  -- `get_fd_byid` returns the descriptors above 0, in the order of the members, with their number,
  -- and changes nothing.
  pub get_fd_byid-online :
      (room : ℤ) (ids : List ℕ) (ms : All (Member d) ids) {s : r.Store}
      → laws.Ready s
      → laws.db s ≡ d
      → map some (d.members (chatroom_key room)) ≡ shown ids
      → Returns laws (get_fd_byid r room) s (some (online d ids ms), length (online d ids ms)) d
  unfolding get_fd_byid
  get_fd_byid-online room ids ms ready e listed =
      Returns-at_error laws (none, 0)
        (Returns-bind laws _
          (Returns-cast laws {a' = array (shown ids)} (smembers_at laws d ready e (room_set room))
            (ap array listed) refl)
          λ s1 r1 e1.
            Returns-bind laws _
              (Returns-lift laws _ (map pos ids) s1 (user_ids-shown ids (members-IsId d ids ms)) r1
                e1)
              λ s2 r2 e2. collect_fds-online ids ms [] r2 e2)

  -- A user who has never been online (no descriptor is stored) makes the loop read through a NULL
  -- reply string, whatever it has collected before.
  collect_fds_never_online :
      (id : ℤ) (ids acc : List ℤ) {s : r.Store}
      → laws.Ready s
      → laws.db s ≡ d
      → d.hash (user_key id) (codes "sockfd") ≡ none
      → collect_fds r (id ∷ ids) acc s ≡ fault null_pointer
  unfolding collect_fds
  collect_fds_never_online id ids acc {s} ready e never =
      let law = laws.hget_law s (codes "sockfd") (user_hash id) ready in
      let reply = ap (λ (x : Db). bulk (x.hash (user_key id) (codes "sockfd"))) e ∙ ap bulk never in
      rw (law.run, reply)

  -- also behind members who are known
  collect_fds_behind :
      (ids : List ℕ) (id : ℤ) (others acc : List ℤ) {s : r.Store}
      → All (Member d) ids
      → laws.Ready s
      → laws.db s ≡ d
      → d.hash (user_key id) (codes "sockfd") ≡ none
      → collect_fds r (map pos ids ++ id ∷ others) acc s ≡ fault null_pointer
  unfolding collect_fds
  collect_fds_behind [] id others acc ms ready e never =
      collect_fds_never_online id others acc ready e never
  collect_fds_behind (n ∷ ids) id others acc {s} (m, ms) ready e never =
      let found =
        Returns-cast laws {a' = str (show_ℤ m.fd)}
          (hget_at laws d ready e (user_hash (pos n)) (codes "sockfd")) (ap bulk m.kept) refl in
      let same : to_int (atoll (show_ℤ m.fd)) ≡ m.fd = ap to_int (atoll-show_ℤ m.fd) ∙ m.fits in
      rw (found.run, same)
        (let rest =
            collect_fds_behind ids id others (if is_pos m.fd then acc ++ m.fd ∷ [] else acc) ms
              found.ready_after found.contents never in
          rw rest)

  -- A room whose set lists ids above 0 that an `int` holds: users with a stored descriptor, then one who has
  -- never been online, for whom none is stored, then any others. `get_fd_byid` reads through a NULL
  -- reply string.
  pub get_fd_byid_never_online :
      (room : ℤ) (ids : List ℕ) (id : ℕ) (others : List ℕ) {s : r.Store}
      → laws.Ready s
      → laws.db s ≡ d
      → map some (d.members (chatroom_key room)) ≡ shown (ids ++ id ∷ others)
      → All (Member d) ids
      → IsId id
      → All IsId others
      → d.hash (user_key (pos id)) (codes "sockfd") ≡ none
      → get_fd_byid r room s ≡ fault null_pointer
  unfolding get_fd_byid
  get_fd_byid_never_online room ids id others {s} ready e listed ms here all never =
      let reply =
        Returns-cast laws {a' = array (shown (ids ++ id ∷ others))}
          (smembers_at laws d ready e (room_set room)) (ap array listed) refl in
      let numbers =
        user_ids-shown (ids ++ id ∷ others) (ids-IsId d ids id others ms here all)
        ∙ ap ok (map-append pos ids (id ∷ others)) in
      let stops =
        collect_fds_behind ids (pos id) (map pos others) [] ms reply.ready_after reply.contents
          never in
      rw (reply.run, numbers, stops)
