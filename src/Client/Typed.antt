-- ===== src/Client/Typed.antt =====
-- The login that `stdin_cb` (client/client.c) sends for what is typed.
use chat_hub.Base.{
  zero, ◌≢◌, ℕ, suc, ◌+◌, ◌<◌, ◌≤◌, ◌^◌, ◌≡◌, ◌∙◌, refl, ap, false, [], ◌∷◌, ◌++◌, length, take,
  ◌==◌, abs, arith, All,
}
use chat_hub.Run.{ok}
use chat_hub.Text.{
  Bytes, codes, is_space, cut_at, load_string, strncpy, atoll, scan_int, skip_spaces, scan_sign,
  scan_digits, scan_unsigned, starts_with_digit,
}
use chat_hub.Config.{Message, login, max_chars}
use chat_hub.Config.RoundTrip.{IsName}
use chat_hub.Message.{Parson}
use chat_hub.Message.RoundTrip.{Packed, load_fits, strncpy_fits}
use chat_hub.Server.{Outside}
use chat_hub.Server.Input.Buffer.{take_past, take_all}
use chat_hub.Client.{Client, print, user_msg, send_msg, send_login, stdin_cb}
use chat_hub.Client.Login.{request, user_msg_lem}

no_line : (c : ℕ) → is_space c ≡ false → (c == 10) ≡ false
no_line c h = ground arith

pub cut_at-line :
    (s rest : Bytes) → All (λ c. is_space c ≡ false) s → cut_at 10 (s ++ 10 ∷ rest) ≡ s
unfolding cut_at
cut_at-line [] rest all = refl
cut_at-line (c ∷ s) rest (h, all) = rw (no_line c h, cut_at-line s rest all)

cut_at-word : (s : Bytes) → All (λ c. is_space c ≡ false) s → cut_at 10 s ≡ s
unfolding cut_at
cut_at-word [] all = refl
cut_at-word (c ∷ s) (h, all) = rw (no_line c h, cut_at-word s all)

take-suc : (s rest : Bytes) → take (suc (length s)) (s ++ 0 ∷ rest) ≡ s ++ 0 ∷ []
take-suc [] rest = refl
take-suc (c ∷ s) rest = ap (λ l. c ∷ l) (take-suc s rest)

take_string : (s rest : Bytes) → take (length s + 1) (s ++ 0 ∷ rest) ≡ s ++ 0 ∷ []
take_string s rest =
    ap (λ n. take n (s ++ 0 ∷ rest)) {y = suc (length s)} (omega arith) ∙ take-suc s rest

not_empty : (s : Bytes) → s ≢ [] → 0 < length s
not_empty [] some_byte = absurd (some_byte refl)
not_empty (c ∷ s) some_byte = omega arith

take_some : (n : ℕ) (s : Bytes) → s ≢ [] → 0 < n → take n s ≢ []
take_some zero s some_byte h = absurd (omega arith)
take_some (suc n) [] some_byte h = absurd (some_byte refl)
take_some (suc n) (c ∷ s) some_byte h = λ e. ground arith

pub length-take_le : (n : ℕ) (s : Bytes) → length (take n s) ≤ length s
length-take_le zero s = omega arith
length-take_le (suc n) [] = omega arith
length-take_le (suc n) (c ∷ s) = omega (arith, length-take_le n s)

take-All :
    (n : ℕ) (s : Bytes) → All (λ c. is_space c ≡ false) s → All (λ c. is_space c ≡ false) (take n s)
take-All zero s all = tt
take-All (suc n) [] all = tt
take-All (suc n) (c ∷ s) (h, all) = (h, take-All n s all)

module _ {name : Bytes} (is_name : IsName name) where
  load-typed :
      (rest : Bytes)
      → load_string max_chars (cut_at 10 (strncpy max_chars (name ++ 10 ∷ rest))) ≡ ok name
  load-typed rest =
      let (t, e) = take_past max_chars 10 name rest is_name.short in
      rw (e, cut_at-line name t is_name.word.solid) (load_fits max_chars name is_name.short)

  some_bytes : 0 < length name
  some_bytes = not_empty name is_name.word.some_byte

  take-IsName : (n : ℕ) → 0 < n → IsName (take n name)
  take-IsName n h = record {
    word = record {
      some_byte = λ e. take_some n name is_name.word.some_byte h e;
      solid = take-All n name is_name.word.solid;
    };
    short =
        let small : length name < max_chars = is_name.short in omega (arith, length-take_le n name);
  }

  load-password : load_string max_chars (cut_at 10 (strncpy max_chars name)) ≡ ok name
  load-password =
      rw (strncpy_fits max_chars name is_name.short, cut_at-word name is_name.word.solid)
        (load_fits max_chars name is_name.short)

-- the prompt
abbrev prompt : Bytes
prompt = codes "Username(less than 20 words):" ++ 10 ∷ []

module _ (p : Parson) (o : Outside) where
  stdin_cb_one :
      (client : Client) (typed password : Bytes)
      → client.is_login ≡ false
      → stdin_cb p o client (b'1' ∷ 10 ∷ []) typed password
        ≡ send_login p o (print client prompt) typed password
  unfolding stdin_cb cut_at atoll scan_int scan_unsigned starts_with_digit skip_spaces scan_sign
      scan_digits
  stdin_cb_one client typed password out = rw out refl

  pub send_msg_lem :
      (client : Client) {m : Message} (packed : Packed p m)
      → send_msg p o client m
        ≡ ok (record client { written = client.written ++ (packed.text ++ 0 ∷ []) ∷ [] })
  unfolding send_msg
  send_msg_lem client packed = rw (packed.made, take_string packed.text o.beyond)

  send_login_run :
      (client : Client) (typed password : Bytes) {name pass kept : Bytes} {m : Message}
      → load_string max_chars (cut_at 10 (strncpy max_chars typed)) ≡ ok name
      → load_string max_chars (cut_at 10 (strncpy max_chars password)) ≡ ok pass
      → strncpy max_chars password ≡ pass
      → take (length pass) name ≡ kept
      → user_msg o kept pass login ≡ ok m
      → send_login p o client typed password
        ≡ send_msg p o
            (record client { user = record client.user { username = kept; pass = pass } })
            m
  unfolding send_login
  send_login_run client typed password read typed_pass copied cut made =
      rw (read, typed_pass, copied, cut, made)

module _ (p : Parson) (o : Outside) (client : Client) where
  -- the client after its request
  abbrev pub requested : Bytes → Bytes → Bytes → Client
  requested name pass text = record client {
    user = record client.user { username = name; pass = pass };
    written = client.written ++ (text ++ 0 ∷ []) ∷ [];
    printed = client.printed ++ prompt ∷ [];
  }

  stdin_cb_kept :
      {name pass kept : Bytes} (rest : Bytes)
      → client.is_login ≡ false
      → IsName name
      → IsName pass
      → take (length pass) name ≡ kept
      → IsName kept
      → abs o.now < 10 ^ 19
      → (packed : Packed p (request o kept pass login))
      → stdin_cb p o client (b'1' ∷ 10 ∷ []) (name ++ 10 ∷ rest) pass
        ≡ ok (requested kept pass packed.text)
  stdin_cb_kept {name} {pass} {kept} rest out is_name is_pass cut is_kept in_range packed =
      stdin_cb_one p o client (name ++ 10 ∷ rest) pass out
      ∙ send_login_run p o (print client prompt) (name ++ 10 ∷ rest) pass (load-typed is_name rest)
          (load-password is_pass) (strncpy_fits max_chars pass is_pass.short) cut
          (user_msg_lem o kept pass login is_kept is_pass in_range)
      ∙ send_msg_lem p o _ packed

  -- A client that is not logged in, `1`, and a name and a password of 1 to 19 bytes without white space:
  -- the name is cut to the length of the password. `stdin_cb` writes the text of the LOGIN message with
  -- the cut name and the password, with its NUL, and keeps both.
  pub stdin_cb_cut :
      {name pass : Bytes} (rest : Bytes)
      → client.is_login ≡ false
      → IsName name
      → IsName pass
      → abs o.now < 10 ^ 19
      → (packed : Packed p (request o (take (length pass) name) pass login))
      → stdin_cb p o client (b'1' ∷ 10 ∷ []) (name ++ 10 ∷ rest) pass
        ≡ ok (requested (take (length pass) name) pass packed.text)
  stdin_cb_cut {name} {pass} rest out is_name is_pass =
      stdin_cb_kept rest out is_name is_pass refl
        (take-IsName is_name (length pass) (some_bytes is_pass))

  -- A name that is not longer than the password is sent whole.
  pub stdin_cb-login :
      {name pass : Bytes} (rest : Bytes)
      → client.is_login ≡ false
      → IsName name
      → IsName pass
      → length name ≤ length pass
      → abs o.now < 10 ^ 19
      → (packed : Packed p (request o name pass login))
      → stdin_cb p o client (b'1' ∷ 10 ∷ []) (name ++ 10 ∷ rest) pass
        ≡ ok (requested name pass packed.text)
  stdin_cb-login {name} {pass} rest out is_name is_pass short =
      stdin_cb_kept rest out is_name is_pass (take_all (length pass) name short) is_name
