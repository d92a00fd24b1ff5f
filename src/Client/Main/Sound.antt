-- ===== src/Client/Main/Sound.antt =====
-- The client's state over a run of its event loop (client/client.c).
use chat_hub.Base.{
  to_int, pos, ℕ, ◌<◌, ◌≡◌, refl, Bool, true, false, List, [], ◌∷◌, length, take, ltb, is_pos, eq_ℤ,
  if◌then◌else◌, arith, Bool-cases, inl, inr, ◌/◌, ◌%◌, ◌==◌,
}
use chat_hub.Run.{Run, ok, fault, deref, ◌>>=◌}
use chat_hub.Libevent.{Status, dispatching, leaving, stopped}
use chat_hub.Text.{Bytes, load_string, cut_at, strncpy, atoll}
use chat_hub.Config.{Message, max_chars, max_buff, max_msg_data, login, text}
use chat_hub.Message.{Parson, pack_message, unpack_message}
use chat_hub.Server.{Outside}
use chat_hub.Server.Input.{c_string}
use chat_hub.Client.{
  Client, new_client, print, print_help, send_msg, send_chat, send_login, stdin_cb, login_answer,
  show_message, read_cb, event_cb, scan_chat, chat_msg, user_msg,
}
use chat_hub.Client.Typed.{length-take_le}
use chat_hub.Client.Main.{
  Event, typed, received, notified, interrupted, timer, callback, dispatch_events,
}

-- A client that is logged in has an id above 0, and its name is a string of its array.
pub record IsSound (client : Client) : Type 0 where
  pub has_id : (if client.is_login then is_pos client.user.user_id else true) ≡ true
  pub named : length client.user.username < max_chars

module _ {A : Type 0} where
  -- the result, where there is one, satisfies `P`
  abbrev Ensures : (A → Type 0) → Run A → Type 0
  Ensures P (ok a) = P a
  Ensures P (fault e) = Unit

module _ {A B : Type 0} where
  Ensures-bind :
      (P : B → Type 0) (m : Run A) (f : A → Run B)
      → ((a : A) → Ensures P (f a))
      → Ensures P (m >>= f)
  Ensures-bind P (ok a) f h = h a
  Ensures-bind P (fault e) f h = tt

  Ensures-then :
      (Q : A → Type 0) (P : B → Type 0) (m : Run A) (f : A → Run B)
      → Ensures Q m
      → ((a : A) → Q a → Ensures P (f a))
      → Ensures P (m >>= f)
  Ensures-then Q P (ok a) f q h = h a q
  Ensures-then Q P (fault e) f q h = tt

module _ {A : Type 0} where
  Ensures-if :
      (P : A → Type 0) (b : Bool) (m n : Run A)
      → Ensures P m
      → Ensures P n
      → Ensures P (if b then m else n)
  Ensures-if P true m n hm hn = hm
  Ensures-if P false m n hm hn = hn

load_string-Ensures : (size : ℕ) (s : Bytes) → Ensures (λ t. length t < size) (load_string size s)
load_string-Ensures size s = elim (Bool-cases (ltb (length s) size)) [
  | inl short ↦ rw short (let h : length s < size = ground arith in h)
  | inr long ↦ rw long tt
]

written-IsSound :
    {client : Client} (w : List Bytes) → IsSound client → IsSound (record client { written = w })
written-IsSound w sound = record { has_id = sound.has_id; named = sound.named }

print-IsSound : {client : Client} (s : Bytes) → IsSound client → IsSound (print client s)
print-IsSound s sound = record { has_id = sound.has_id; named = sound.named }

print_help-IsSound : {client : Client} → IsSound client → IsSound (print_help client)
unfolding print_help
print_help-IsSound sound = print-IsSound _ sound

module _ (p : Parson) (o : Outside) where
  send_msg-IsSound :
      (client : Client) (m : Message) → IsSound client → Ensures IsSound (send_msg p o client m)
  unfolding send_msg
  send_msg-IsSound client m sound =
      Ensures-bind IsSound (pack_message p m) _
        λ json. Ensures-bind IsSound (deref json.0) _ λ s. written-IsSound _ sound

  send_chat-IsSound :
      (client : Client) (buf : Bytes) → IsSound client → Ensures IsSound (send_chat p o client buf)
  unfolding send_chat
  send_chat-IsSound client buf sound = Ensures-bind IsSound (scan_chat o buf) _ λ r.
      Ensures-bind IsSound (chat_msg o client.user.username r.1 r.0) _
        λ m. send_msg-IsSound client m sound

  send_login-IsSound :
      (client : Client) (name password : Bytes)
      → IsSound client
      → Ensures IsSound (send_login p o client name password)
  unfolding send_login
  send_login-IsSound client name password sound =
      Ensures-then (λ t. length t < max_chars) IsSound
        (load_string max_chars (cut_at 10 (strncpy max_chars name))) _
        (load_string-Ensures max_chars (cut_at 10 (strncpy max_chars name)))
        λ kept short.
          Ensures-bind IsSound (load_string max_chars (cut_at 10 (strncpy max_chars password))) _
            λ line.
              Ensures-bind IsSound
                (user_msg o (take (length line) kept) (strncpy max_chars password) login) _
                λ m. send_msg-IsSound _ m (record {
                  has_id = sound.has_id;
                  named = omega (arith, length-take_le (length line) kept);
                })

  stdin_cb-IsSound :
      (client : Client) (line name password : Bytes)
      → IsSound client
      → Ensures IsSound (stdin_cb p o client line name password)
  unfolding stdin_cb
  stdin_cb-IsSound client line name password sound =
      Ensures-bind IsSound (load_string max_buff (cut_at 10 (take max_buff line))) _ λ buf.
        Ensures-if IsSound client.is_login _ _ (send_chat-IsSound client buf sound) (
          Ensures-if IsSound (eq_ℤ (to_int (atoll buf)) (pos 1)) _ _
            (send_login-IsSound _ name password (print-IsSound _ sound))
            (print_help-IsSound (print-IsSound _ sound)))

login_answer-IsSound :
    (client : Client) (m : Message) → IsSound client → Ensures IsSound (login_answer client m)
unfolding login_answer
login_answer-IsSound client m sound = Ensures-bind IsSound (load_string max_msg_data m.msg) _ λ msg.
    elim (Bool-cases (is_pos (atoll msg))) [
      | inl positive ↦ rw positive (record { has_id = positive; named = sound.named })
      | inr refused ↦ rw refused (record { has_id = sound.has_id; named = omega arith })
    ]

show_message-IsSound :
    (client : Client) (m : Message) → IsSound client → Ensures IsSound (show_message client m)
unfolding show_message
show_message-IsSound client m sound =
    Ensures-bind IsSound (load_string max_chars m.sender_name) _
      λ name. Ensures-bind IsSound (load_string max_msg_data m.msg) _ λ msg. print-IsSound _ sound

module _ (p : Parson) where
  read_cb-IsSound :
      (client : Client) (input : Bytes) → IsSound client → Ensures IsSound (read_cb p client input)
  unfolding read_cb
  read_cb-IsSound client input sound = Ensures-bind IsSound (c_string _) _ λ buf.
      Ensures-bind IsSound (unpack_message p buf) _ λ m.
        Ensures-if IsSound (eq_ℤ m.type login) _ _ (login_answer-IsSound client m sound)
          (Ensures-if IsSound (eq_ℤ m.type text) _ _ (show_message-IsSound client m sound) sound)

event_cb-IsSound :
    (client : Client) (events : ℕ) → IsSound client → IsSound (event_cb client events)
unfolding event_cb
event_cb-IsSound client events sound = elim (Bool-cases ((events / 128) % 2 == 1)) [
  | inl connected ↦ rw connected (print_help-IsSound sound)
  | inr other ↦ elim (Bool-cases (events == 0)) [
    | inl silent ↦ rw (other, silent) sound
    | inr raised ↦ rw (other, raised) (record { has_id = sound.has_id; named = sound.named })
  ]
]

module _ (p : Parson) where
  -- the client of a result is sound
  abbrev Sound : Run (Client × Status) → Type 0
  Sound = Ensures (λ r. IsSound r.0)

  callback-Sound :
      (e : Event) (client : Client) (status : Status)
      → IsSound client
      → Sound (callback p e client status)
  unfolding callback
  callback-Sound (typed o line name password) client status sound =
      Ensures-then IsSound (λ r. IsSound r.0) (stdin_cb p o client line name password) _
        (stdin_cb-IsSound p o client line name password sound) (λ c s. s)
  callback-Sound (received input) client status sound =
      Ensures-then IsSound (λ r. IsSound r.0) (read_cb p client input) _
        (read_cb-IsSound p client input sound) (λ c s. s)
  callback-Sound (notified events) client status sound = event_cb-IsSound client events sound
  callback-Sound interrupted client status sound = sound
  callback-Sound timer client status sound = sound

  dispatch_events-Sound :
      (es : List Event) (client : Client) (status : Status)
      → IsSound client
      → Sound (dispatch_events p es client status)
  unfolding dispatch_events
  dispatch_events-Sound [] client status sound = sound
  dispatch_events-Sound (e ∷ es) client stopped sound = sound
  dispatch_events-Sound (e ∷ es) client dispatching sound =
      Ensures-then (λ r. IsSound r.0) (λ r. IsSound r.0) (callback p e client dispatching) _
        (callback-Sound e client dispatching sound) (λ r s. dispatch_events-Sound es r.0 r.1 s)
  dispatch_events-Sound (e ∷ es) client leaving sound =
      Ensures-then (λ r. IsSound r.0) (λ r. IsSound r.0) (callback p e client leaving) _
        (callback-Sound e client leaving sound) (λ r s. dispatch_events-Sound es r.0 r.1 s)

  -- Whatever is typed, whatever the server sends and in whatever order: where the event loop returns, a
  -- client that is logged in has an id above 0, and its name is a string of less than MAX_CHARS bytes.
  pub dispatch_events-IsSound :
      (es : List Event) {client : Client} {status : Status}
      → dispatch_events p es new_client dispatching ≡ ok (client, status)
      → IsSound client
  dispatch_events-IsSound es {client} {status} e = rw e at (
      dispatch_events-Sound es new_client dispatching
        (record { has_id = refl; named = omega arith }))
