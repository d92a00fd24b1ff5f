-- ===== src/Dao/Rooms/Presence.antt =====
-- The descriptors of a room after a login or a logout (`set_online`, `logout_user`, `get_fd_byid` of
-- server/dao.c).
use chat_hub.Base.{
  ℕ, ◌≡◌, ◌≢◌, refl, ◌∙◌, ap, true, false, Bool-cases, inl, inr, some, List, [], ◌∷◌, map, All,
  length, ℤ, pos, to_int, is_pos, ◌==◌, if◌then◌else◌, arith,
}
use chat_hub.Text.{codes, same_string, show_ℤ}
use chat_hub.Text.Compare.{same_string-false, same_string-append}
use chat_hub.Text.Decimal.{show_ℤ-injective}
use chat_hub.Redis.{Redis}
use chat_hub.Redis.Documented.{Db, Documented, put_field, put_fields, with_hash}
use chat_hub.Redis.Returns.{Returns, Returns-cast}
use chat_hub.Dao.Keys.{user_key, chatroom_key}
use chat_hub.Dao.Users.Presence.{present, present_sockfd}
use chat_hub.Dao.Rooms.{get_fd_byid}
use chat_hub.Dao.Rooms.Members.{Member, online, shown, get_fd_byid-online}

present_other :
    (d : Db) (id other : ℕ) (on fd now : ℤ)
    → (other == id) ≡ false
    → (present d (pos id) on fd now).hash (user_key (pos other)) (codes "sockfd")
      ≡ d.hash (user_key (pos other)) (codes "sockfd")
unfolding present put_field put_fields with_hash
present_other d id other on fd now h =
    let apart : show_ℤ (pos other) ≢ show_ℤ (pos id) =
      λ e. let same = show_ℤ-injective (pos other) (pos id) e in ground (arith, h, same) in
    let off : same_string (user_key (pos other)) (user_key (pos id)) ≡ false =
      same_string-append (codes "user:") (show_ℤ (pos other)) (show_ℤ (pos id))
      ∙ same_string-false (show_ℤ (pos other)) (show_ℤ (pos id)) apart in
    rw off

same_id : (other id : ℕ) → (other == id) ≡ true → other ≡ id
same_id other id h = ground arith

-- the descriptors above 0 of the members, where `fd` is that of the user `id`
unfoldable pub online_with : (d : Db) (id : ℕ) (fd : ℤ) (ids : List ℕ) → All (Member d) ids → List ℤ
online_with d id fd [] ms = []
online_with d id fd (other ∷ ids) (m, ms) =
    let rest = online_with d id fd ids ms in
    let its = if other == id then fd else m.fd in if is_pos its then its ∷ rest else rest

module _ (d : Db) (id : ℕ) (on fd now : ℤ) (fits : to_int fd ≡ fd) where
  Member-present : {other : ℕ} → Member d other → Member (present d (pos id) on fd now) other
  Member-present {other} m = record {
    positive = m.positive;
    small = m.small;
    fd = if other == id then fd else m.fd;
    fits = elim (Bool-cases (other == id)) [ inl me ↦ rw me fits | inr not_me ↦ rw not_me m.fits ];
    kept = elim (Bool-cases (other == id)) [
      | inl me ↦ rw (me, same_id other id me) (present_sockfd d (pos id) on fd now)
      | inr not_me ↦ rw not_me (present_other d id other on fd now not_me ∙ m.kept)
    ];
  }

  members-present :
      (ids : List ℕ) → All (Member d) ids → All (Member (present d (pos id) on fd now)) ids
  members-present [] ms = tt
  members-present (other ∷ ids) (m, ms) = (Member-present m, members-present ids ms)

  online-present :
      (ids : List ℕ) (ms : All (Member d) ids)
      → online (present d (pos id) on fd now) ids (members-present ids ms)
        ≡ online_with d id fd ids ms
  unfolding online_with members-present Member-present
  online-present [] ms = refl
  online-present (other ∷ ids) (m, ms) = rw (online-present ids ms)

module _ {r : Redis} (laws : Documented r) (d : Db) (room : ℤ) (ids : List ℕ)
    (ms : All (Member d) ids) (listed : map some (d.members (chatroom_key room)) ≡ shown ids) where
  pub get_fd_byid-present :
      (id : ℕ) (on fd now : ℤ) {s : r.Store}
      → to_int fd ≡ fd
      → laws.Ready s
      → laws.db s ≡ present d (pos id) on fd now
      → Returns laws
          (get_fd_byid r room)
          s
          (some (online_with d id fd ids ms), length (online_with d id fd ids ms))
          (present d (pos id) on fd now)
  unfolding present with_hash
  get_fd_byid-present id on fd now fits ready e =
      Returns-cast laws
        (get_fd_byid-online laws (present d (pos id) on fd now) room ids
          (members-present d id on fd now fits ids ms) ready e listed)
        (ap (λ (l : List ℤ). (some l, length l)) (online-present d id on fd now fits ids ms)) refl
