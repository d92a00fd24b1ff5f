-- ===== src/Server/Chat/Ordered.antt =====
-- Chat messages that `handleChat` (server/server.c) handles one after the other in a room: who gets what,
-- and in which order.
pub mod Runs
use chat_hub.Base.{
  ℕ, suc, ◌+◌, ◌<◌, ◌≤◌, ◌≡◌, refl, ◌∙◌, true, some, List, [], ◌∷◌, ◌++◌, length, All, replicate, ℤ,
  pos, is_pos, ◌==◌, if◌then◌else◌, Bool-cases, inl, inr, arith,
}
use chat_hub.Run.{ok}
use chat_hub.Exec.{Exec, pure, ◌>>=◌}
use chat_hub.Text.{Bytes, codes, same_string}
use chat_hub.Config.{Message}
use chat_hub.Message.{Parson, pack_message}
use chat_hub.Redis.Documented.{Db, put_field, put_fields, with_hash, with_counter}
use chat_hub.Dao.Interface.{Dao}
use chat_hub.Dao.Keys.{next_msg_id, chatroom_key, user_key}
use chat_hub.Dao.Rooms.Members.{Member, online}
use chat_hub.Dao.Rooms.Saved.{message_saved, counter-message_saved}
use chat_hub.Server.{State, Outside, handle_chat, buffer_of}
use chat_hub.Server.Chat.{sends, stored}

-- the users and the members of the rooms are those of `d`
record SameUsers (d d' : Db) : Type 0 where
  users : (id : ℤ) (f : Bytes) → d'.hash (user_key id) f ≡ d.hash (user_key id) f
  sets : (room : ℤ) → d'.members (chatroom_key room) ≡ d.members (chatroom_key room)

saved-SameUsers : (d : Db) (room : ℤ) (m : Message) → SameUsers d (message_saved d room m)
unfolding message_saved with_hash with_counter put_fields put_field same_string
saved-SameUsers d room m = record { users = λ id f. refl; sets = λ z. refl }

stored-SameUsers :
    (from : ℕ) (d : Db) (m : Message) (bs : List ℕ) → SameUsers d (stored from d m bs)
unfolding stored
stored-SameUsers from d m [] = record { users = λ id f. refl; sets = λ z. refl }
stored-SameUsers from d m (b ∷ bs) = elim (Bool-cases (b == from)) [
  | inl me ↦ rw me (stored-SameUsers from d m bs)
  | inr other ↦
      let first = saved-SameUsers d m.group_id m in
      let rest = stored-SameUsers from (message_saved d m.group_id m) m bs in
      rw other (record {
        users = λ id f. rest.users id f ∙ first.users id f;
        sets = λ z. rest.sets z ∙ first.sets z;
      })
]

counter-stored :
    (from : ℕ) (d : Db) (m : Message) (bs : List ℕ)
    → (stored from d m bs).counter (next_msg_id m.group_id)
      ≤ d.counter (next_msg_id m.group_id) + length bs
unfolding stored
counter-stored from d m [] = omega arith
counter-stored from d m (b ∷ bs) = elim (Bool-cases (b == from)) [
  | inl me ↦ rw me (omega (arith, counter-stored from d m bs))
  | inr other ↦ rw other (
      omega (
        arith,
        counter-stored from (message_saved d m.group_id m) m bs,
        counter-message_saved d m.group_id m,
      ))
]

module _ {d d' : Db} (same : SameUsers d d') where
  Member-same : {id : ℕ} → Member d id → Member d' id
  Member-same {id} m = record {
    positive = m.positive;
    small = m.small;
    fd = m.fd;
    fits = m.fits;
    kept = same.users (pos id) (codes "sockfd") ∙ m.kept;
  }

  members_same : (ids : List ℕ) → All (Member d) ids → All (Member d') ids
  members_same [] ms = tt
  members_same (id ∷ ids) (m, ms) = (Member-same m, members_same ids ms)

  online_same :
      (ids : List ℕ) (ms : All (Member d) ids)
      → online d' ids (members_same ids ms) ≡ online d ids ms
  unfolding members_same Member-same
  online_same [] ms = refl
  online_same (id ∷ ids) (m, ms) = rw (online_same ids ms)

-- a message from a connection, with what is outside when it comes and the text that is sent on
pub record Chat : Type 0 where
  pub outside : Outside
  pub from : ℕ
  pub message : Message
  pub json : Bytes

abbrev pub text_of : Chat → Bytes
text_of c = buffer_of c.json c.outside.beyond

-- the server on the messages
abbrev pub chat_all : (dao : Dao) → Parson → List Chat → Exec (State dao.Store) (Unit {0})
chat_all dao p [] = pure tt
chat_all dao p (c ∷ cs) = do _ ← handle_chat dao p c.outside c.from c.message; chat_all dao p cs

-- a message to the room that has its time and is packed
pub record IsChat (p : Parson) (room : ℤ) (c : Chat) : Type 0 where
  pub size : ℕ
  pub packed : pack_message p c.message ≡ ok (some c.json, size)
  pub timed : is_pos c.message.send_time ≡ true
  pub to_room : c.message.group_id ≡ room

abbrev all_sends : List ℕ → List Chat → List (ℕ × Bytes)
all_sends bevs [] = []
all_sends bevs (c ∷ cs) = sends c.from (text_of c) bevs ++ all_sends bevs cs

-- what is written to one connection
unfoldable pub inbox : ℕ → List (ℕ × Bytes) → List Bytes
inbox b [] = []
inbox b ((a, t) ∷ ws) = let rest = inbox b ws in if a == b then t ∷ rest else rest

unfoldable pub count : ℕ → List ℕ → ℕ
count b [] = 0
count b (a ∷ bs) = let rest = count b bs in if a == b then suc rest else rest

-- the messages of the others, in their order, once for each place that a connection has in the room
unfoldable pub expected : ℕ → List ℕ → List Chat → List Bytes
expected b bevs [] = []
expected b bevs (c ∷ cs) =
    let rest = expected b bevs cs in
    if c.from == b then rest else replicate (count b bevs) (text_of c) ++ rest

inbox-append : (b : ℕ) (ws vs : List (ℕ × Bytes)) → inbox b (ws ++ vs) ≡ inbox b ws ++ inbox b vs
unfolding inbox
inbox-append b [] vs = refl
inbox-append b ((a, t) ∷ ws) vs = ground (arith, inbox-append b ws vs)

inbox-sends :
    (b from : ℕ) (t : Bytes) (bs : List ℕ)
    → 0 < b
    → inbox b (sends from t bs) ≡ (if from == b then [] else replicate (count b bs) t)
unfolding inbox sends count
inbox-sends b from t [] h = ground arith
inbox-sends b from t (a ∷ bs) h = ground (arith, inbox-sends b from t bs h)

inbox-all_sends :
    (b : ℕ) (bevs : List ℕ) (cs : List Chat)
    → 0 < b
    → inbox b (all_sends bevs cs) ≡ expected b bevs cs
unfolding expected inbox
inbox-all_sends b bevs [] h = refl
inbox-all_sends b bevs (c ∷ cs) h = ground (
  arith,
  inbox-append b (sends c.from (text_of c) bevs) (all_sends bevs cs),
  inbox-sends b c.from (text_of c) bevs h,
  inbox-all_sends b bevs cs h,
)
