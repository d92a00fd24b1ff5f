-- ===== src/Client/Chat.antt =====
-- A chat line in client/client.c: what `stdin_cb` makes of it, and what `read_cb` prints of one.
use chat_hub.Base.{
  sym, append-nil, some, eq_ℤ, lt→ltb, ℕ, zero, suc, ◌/◌, ◌%◌, ◌+◌, ◌<◌, ◌^◌, ◌≡◌, ◌∙◌, refl, ap,
  true, false, [], ◌∷◌, ◌++◌, length, take, ◌==◌, ltb, if◌then◌else◌, Bool-cases, inl, inr, pos,
  arith, All, to_int_pos, length-append, length-take,
}
use chat_hub.Run.{ok}
use chat_hub.Text.{
  Bytes, is_space, cut_at, load_string, scan_word, show_ℤ, show_ℕ, show_digits, starts_with_digit,
}
use chat_hub.Text.Decimal.{scan_int-show_ℤ, length-show_ℤ}
use chat_hub.Text.Scan.{IsWord, scan_word-append}
use chat_hub.Config.{Message, new_message, text, login, max_chars, max_buff, max_msg_data}
use chat_hub.Message.{Parson, unpack_message}
use chat_hub.Message.RoundTrip.{Packed, load_fits, strncpy_fits}
use chat_hub.Server.{Outside, buffer_of}
use chat_hub.Server.Input.{c_string}
use chat_hub.Server.Input.Buffer.{take_past}
use chat_hub.Client.{
  Client, print, stdin_cb, send_chat, scan_chat, scan_msg, chat_msg, send_msg, read_cb,
  show_message, message_line,
}
use chat_hub.Client.Typed.{cut_at-line, send_msg_lem}
use chat_hub.Client.Answer.{c_string-taken}

append-All :
    (s t : Bytes)
    → All (λ c. is_space c ≡ false) s
    → All (λ c. is_space c ≡ false) t
    → All (λ c. is_space c ≡ false) (s ++ t)
append-All [] t hs ht = ht
append-All (c ∷ s) t (h, hs) ht = (h, append-All s t hs ht)

digit_solid : (n : ℕ) → n < 10 → is_space (b'0' + n) ≡ false
digit_solid n h = ground arith

show_digits-All : (f n : ℕ) → All (λ c. is_space c ≡ false) (show_digits f n)
unfolding show_digits
show_digits-All zero n = tt
show_digits-All (suc f) n = elim (Bool-cases (ltb n 10)) [
  | inl small ↦ rw small (digit_solid n (ground arith), tt)
  | inr great ↦ rw great (
      append-All (show_digits f (n / 10)) _ (show_digits-All f (n / 10))
        (digit_solid (n % 10) (omega arith), tt))
]

-- the text of a chat line: the room, a colon and a word
abbrev pub chat_line : ℕ → Bytes → Bytes
chat_line room word = show_ℤ (pos room) ++ b':' ∷ word

chat_line-All :
    (room : ℕ) (word : Bytes)
    → All (λ c. is_space c ≡ false) word
    → All (λ c. is_space c ≡ false) (chat_line room word)
unfolding show_ℤ show_ℕ
chat_line-All room word all =
    append-All (show_digits (suc room) room) (b':' ∷ word) (show_digits-All (suc room) room)
      (refl, all)

length-chat_line :
    (room : ℕ) (word : Bytes)
    → room < 2 ^ 31
    → length word < max_msg_data
    → length (chat_line room word) < max_buff
length-chat_line room word small fits = omega (
  arith,
  length-append (show_ℤ (pos room)) (b':' ∷ word),
  length-show_ℤ (pos room) 9 (omega arith),
)

module _ (o : Outside) (room : ℕ) (word : Bytes) (is_word : IsWord word) where
  word_read : scan_word word ≡ some (word, [])
  word_read = ap scan_word (sym (append-nil word)) ∙ scan_word-append word [] is_word tt

  scan_msg_lem : length word < max_msg_data → scan_msg (b':' ∷ word) ≡ ok word
  scan_msg_lem fits = rw (scan_msg, word_read, lt→ltb (length word) max_msg_data fits)

  scan_chat_lem :
      room < 2 ^ 31
      → length word < max_msg_data
      → scan_chat o (chat_line room word) ≡ ok (pos room, word)
  unfolding scan_chat starts_with_digit
  scan_chat_lem small fits = rw (
    scan_chat,
    scan_int-show_ℤ (pos room) (b':' ∷ word) refl,
    scan_msg_lem fits,
    to_int_pos room small,
  )

-- the message of a chat line
abbrev pub chat : Outside → Bytes → ℕ → Bytes → Message
chat o name room word = record new_message {
  msg = word;
  sender_name = name;
  type = text;
  send_time = o.now;
  group_id = pos room;
}

module _ (p : Parson) (o : Outside) (client : Client) where
  chat_msg_lem :
      (room : ℕ) (word : Bytes)
      → length client.user.username < max_chars
      → length word < max_msg_data
      → chat_msg o client.user.username word (pos room) ≡ ok (chat o client.user.username room word)
  unfolding chat_msg
  chat_msg_lem room word named fits = rw (
    load_fits max_chars client.user.username named,
    lt→ltb (length word) max_msg_data fits,
    strncpy_fits max_chars client.user.username named,
  )

  send_chat_run :
      (line : Bytes) {room : ℕ} {word : Bytes} {m : Message}
      → scan_chat o line ≡ ok (pos room, word)
      → chat_msg o client.user.username word (pos room) ≡ ok m
      → send_chat p o client line ≡ send_msg p o client m
  unfolding send_chat
  send_chat_run line scanned made = rw (scanned, made)

  stdin_cb_chat :
      (typed name password : Bytes) {line : Bytes}
      → client.is_login ≡ true
      → load_string max_buff (cut_at 10 (take max_buff typed)) ≡ ok line
      → stdin_cb p o client typed name password ≡ send_chat p o client line
  unfolding stdin_cb
  stdin_cb_chat typed name password logged read = rw (read, logged)

  load-chat_line :
      (room : ℕ) (word rest : Bytes)
      → IsWord word
      → room < 2 ^ 31
      → length word < max_msg_data
      → load_string max_buff (cut_at 10 (take max_buff (chat_line room word ++ 10 ∷ rest)))
        ≡ ok (chat_line room word)
  load-chat_line room word rest is_word small fits =
      let short = length-chat_line room word small fits in
      let (t, e) = take_past max_buff 10 (chat_line room word) rest short in
      ap (λ s. load_string max_buff (cut_at 10 s)) e
      ∙ ap (load_string max_buff)
          (cut_at-line (chat_line room word) t (chat_line-All room word is_word.solid))
      ∙ load_fits max_buff (chat_line room word) short

  -- A client that is logged in under a name of at most 19 bytes, and a line with the number of a room, a
  -- colon and a word of less than 2048 bytes: `stdin_cb` writes the text of the TEXT message with them,
  -- with its NUL.
  pub stdin_cb-chat :
      (room : ℕ) (word rest name password : Bytes)
      → client.is_login ≡ true
      → length client.user.username < max_chars
      → IsWord word
      → room < 2 ^ 31
      → length word < max_msg_data
      → (packed : Packed p (chat o client.user.username room word))
      → stdin_cb p o client (chat_line room word ++ 10 ∷ rest) name password
        ≡ ok (record client { written = client.written ++ (packed.text ++ 0 ∷ []) ∷ [] })
  stdin_cb-chat room word rest name password logged named is_word small fits packed =
      stdin_cb_chat (chat_line room word ++ 10 ∷ rest) name password logged
        (load-chat_line room word rest is_word small fits)
      ∙ send_chat_run (chat_line room word) (scan_chat_lem o room word is_word small fits)
          (chat_msg_lem room word named fits)
      ∙ send_msg_lem p o client packed

  read_cb_chat :
      (input : Bytes) {json : Bytes} {m : Message}
      → c_string
          (take max_buff input ++ (if length (take max_buff input) == max_buff then [] else 0 ∷ []))
        ≡ ok json
      → unpack_message p json ≡ ok m
      → eq_ℤ m.type login ≡ false
      → eq_ℤ m.type text ≡ true
      → length m.sender_name < max_chars
      → length m.msg < max_msg_data
      → read_cb p client input ≡ ok (print client (message_line m))
  unfolding read_cb show_message
  read_cb_chat input {m = m} got unpacked other is_text named fits = rw (
    got,
    unpacked,
    other,
    is_text,
    load_fits max_chars m.sender_name named,
    load_fits max_msg_data m.msg fits,
  )

  -- A TEXT message that has been written as MAX_BUFF bytes and arrives in one piece is printed.
  pub read_cb-chat :
      (m : Message) (packed : Packed p m) (beyond : Bytes)
      → length packed.text < max_buff
      → eq_ℤ m.type login ≡ false
      → eq_ℤ m.type text ≡ true
      → length m.sender_name < max_chars
      → length m.msg < max_msg_data
      → read_cb p client (buffer_of packed.text beyond) ≡ ok (print client (message_line m))
  unfolding buffer_of
  read_cb-chat m packed beyond short other is_text named fits =
      let (t, e) = take_past max_buff 0 packed.text beyond short in
      read_cb_chat _
        (c_string-taken _ packed.text t _ e
          (omega (arith, length-take max_buff (packed.text ++ 0 ∷ beyond))) packed.solid)
        packed.reads_back other is_text named fits
