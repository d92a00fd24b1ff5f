-- ===== src/Config/RoundTrip.antt =====
-- A user that `user2msg` writes is read back by `msg2user`, and names that do not fit overflow.
use chat_hub.Base.{
  ◌<◌, ◌≤◌, ◌^◌, ◌≡◌, refl, ◌≢◌, false, some, [], ◌∷◌, ◌++◌, length, length-append, ltb, lt→ltb,
  pos, abs, ℤ, eq_ℤ-false, arith,
}
use chat_hub.Run.{ok, fault, out_of_bounds}
use chat_hub.Text.{Bytes, same_string, show_ℤ}
use chat_hub.Text.Decimal.{scan_int-show_ℤ_end, scan_int-space, length-show_ℤ}
use chat_hub.Text.Scan.{IsWord, IsGap, scan_word-append, scan_word-space}
use chat_hub.Config.{
  User, Message, new_user, new_message, max_chars, max_msg_data, user_text, user2msg, scan_time,
  scan_pass, scan_user, msg2user,
}

-- a name or a password that the protocol can carry
pub record IsName (w : Bytes) : Type 0 where
  pub word : IsWord w
  pub short : length w < max_chars

module _ {name pass : Bytes} (hn : IsName name) (hp : IsName pass) (time : ℤ) where
  scan_time-show : (junk : ℤ) → scan_time name pass (32 ∷ show_ℤ time) junk ≡ (name, pass, time)
  unfolding scan_time
  scan_time-show junk =
      rw (scan_time, scan_int-space 32 (show_ℤ time) refl, scan_int-show_ℤ_end time)

  scan_pass-rest :
      (junk : ℤ) → scan_pass name (32 ∷ (pass ++ 32 ∷ show_ℤ time)) junk ≡ ok (name, pass, time)
  unfolding scan_pass
  scan_pass-rest junk = rw (
    scan_pass,
    scan_word-space 32 (pass ++ 32 ∷ show_ℤ time) refl,
    scan_word-append pass (32 ∷ show_ℤ time) hp.word refl,
    lt→ltb (length pass) max_chars hp.short,
    scan_time-show junk,
  )

  -- The text of a user is scanned into its parts.
  pub scan_user-user_text :
      (junk : ℤ) → scan_user (user_text name pass time) junk ≡ ok (name, pass, time)
  unfolding user_text scan_user
  scan_user-user_text junk = rw (
    scan_user,
    scan_word-append name (32 ∷ (pass ++ 32 ∷ show_ℤ time)) hn.word refl,
    lt→ltb (length name) max_chars hn.short,
    scan_pass-rest junk,
  )

  pub length-user_text : abs time < 10 ^ 19 → length (user_text name pass time) < max_msg_data
  unfolding user_text
  length-user_text h =
      rw
        (
          length-append name (32 ∷ (pass ++ 32 ∷ show_ℤ time)),
          length-append pass (32 ∷ show_ℤ time),
        )
        (omega (arith, hn.short, hp.short, length-show_ℤ time 18 h))

  -- `msg2user` reads the name, the password and the time of a message whose text `user2msg` or the
  -- client has written, whatever the uninitialised variable holds.
  pub msg2user-user_text :
      (m : Message) (junk : ℤ)
      → abs time < 10 ^ 19
      → m.msg ≡ user_text name pass time
      → msg2user m junk
        ≡ ok (record new_user { username = name; pass = pass; register_time = time })
  unfolding msg2user
  msg2user-user_text m junk h e = rw (
    e,
    lt→ltb (length (user_text name pass time)) max_msg_data (length-user_text h),
    scan_user-user_text junk,
  )

same_string_nil : (w : Bytes) → w ≢ [] → same_string [] w ≡ false
unfolding same_string
same_string_nil [] h = absurd (h refl)
same_string_nil (c ∷ w) h = refl

-- A user with a register time, and with a name and a password of 1 to 19 bytes without white
-- space, is packed by `user2msg`, and `msg2user` reads the name, the password and the time back.
pub msg2user-user2msg :
    (user : User) (junk : ℤ)
    → IsName user.username
    → IsName user.pass
    → user.register_time ≢ pos 0
    → abs user.register_time < 10 ^ 19
    → (m : Message) × (user2msg user ≡ ok (some m))
      × (msg2user m junk
          ≡ ok (record new_user {
            username = user.username;
            pass = user.pass;
            register_time = user.register_time;
          }))
unfolding user2msg
msg2user-user2msg user junk hn hp timed h =
    let t = user.register_time in
    let m : Message = record new_message { msg = user_text user.username user.pass t } in
    (
      m,
      rw (
        eq_ℤ-false t (pos 0) timed,
        lt→ltb (length user.username) max_chars hn.short,
        same_string_nil user.username hn.word.some_byte,
        lt→ltb (length user.pass) max_chars hp.short,
        lt→ltb (length (user_text user.username user.pass t)) max_msg_data
            (length-user_text hn hp t h),
      ),
      msg2user-user_text hn hp t m junk h refl,
    )

-- A message whose first word has 20 bytes or more (and white space or the end behind it) makes
-- `msg2user` write past its `username` array.
pub msg2user_overflow :
    (m : Message) (junk : ℤ) (w t : Bytes)
    → IsWord w
    → IsGap t
    → max_chars ≤ length w
    → length (w ++ t) < max_msg_data
    → m.msg ≡ w ++ t
    → msg2user m junk ≡ fault out_of_bounds
unfolding msg2user scan_user
msg2user_overflow m junk w t hw ht long fits e =
    let over : ltb (length w) max_chars ≡ false = ground arith in
    rw (e, lt→ltb (length (w ++ t)) max_msg_data fits, scan_user, scan_word-append w t hw ht, over)
