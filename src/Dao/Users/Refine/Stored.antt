-- ===== src/Dao/Users/Refine/Stored.antt =====
-- The database that stores a list of users, and how a registration and a change of presence keep it.
use chat_hub.Base.{
  ℕ, suc, ◌+◌, ◌<◌, ◌≤◌, ◌≡◌, ◌≢◌, refl, ◌∙◌, ap, false, Option, none, some, [], ◌∷◌, ◌++◌, length,
  length-append, ℤ, pos, if◌then◌else◌, Bool-cases, inl, inr, arith,
}
use chat_hub.Text.{Bytes, codes, same_string, show_ℤ}
use chat_hub.Text.Compare.{same_string_sound, same_string_refl}
use chat_hub.Config.{User}
use chat_hub.Redis.Documented.{Db, put_field, put_fields, with_hash}
use chat_hub.Dao.Keys.{users_key, next_user_id, user_key}
use chat_hub.Dao.Users.Accounts.{Account, registered}
use chat_hub.Dao.Users.Accounts.Fields.{
  registered_users, registered_username, registered_pass, registered_other, users-user_key,
}
use chat_hub.Dao.Users.Accounts.Register.{counter-registered}
use chat_hub.Dao.Users.Presence.{present, present_kept}
use chat_hub.Dao.Users.Refine.{Users, find_from}

-- a user with its id and its password
pub record Stored (d : Db) (name : Bytes) (id : ℕ) (pass : Bytes) : Type 0 where
  pub indexed : d.hash users_key name ≡ some (show_ℤ (pos id))
  pub positive : 0 < id
  pub issued : id ≤ d.counter next_user_id
  pub name_kept : d.hash (user_key (pos id)) (codes "username") ≡ some name
  pub pass_kept : d.hash (user_key (pos id)) (codes "pass") ≡ some pass

abbrev pub account_of :
    (d : Db) (name : Bytes) (id : ℕ) (pass : Bytes)
    → Stored d name id pass
    → Account d name (show_ℤ (pos id))
account_of d name id pass st = record {
  id = id;
  positive = st.positive;
  issued = st.issued;
  shown = refl;
  name_kept = st.name_kept;
  pass = pass;
  pass_kept = st.pass_kept;
}

-- what the database holds for a name that the specification finds, or does not find
abbrev pub IsFound : Db → Bytes → Option (ℕ × Bytes) → Type 0
IsFound d name none = d.hash users_key name ≡ none
IsFound d name (some (id, pass)) = Stored d name id pass

-- the database stores exactly the users of the list, in its order
pub record Holds (d : Db) (us : Users) : Type 0 where
  pub counted : d.counter next_user_id ≡ length us
  pub found : (name : Bytes) → IsFound d name (find_from 1 us name)

-- a user who is added is found behind the others
find_old :
    (n : ℕ) (us : Users) (m p name : Bytes) (x : ℕ × Bytes)
    → find_from n us name ≡ some x
    → find_from n (us ++ (m, p) ∷ []) name ≡ some x
unfolding find_from
find_old n [] m p name x h = ground arith
find_old n ((k, q) ∷ us) m p name x h = elim (Bool-cases (same_string name k)) [
  | inl same ↦ rw same (ground arith)
  | inr other ↦ rw (other, find_old (suc n) us m p name x (ground arith))
]

find_new :
    (n : ℕ) (us : Users) (m p name : Bytes)
    → find_from n us name ≡ none
    → find_from n (us ++ (m, p) ∷ []) name
      ≡ (if same_string name m then some (n + length us, p) else none)
unfolding find_from
find_new n [] m p name h = ap (λ k. if same_string name m then some (k, p) else none) (omega arith)
find_new n ((k, q) ∷ us) m p name h = elim (Bool-cases (same_string name k)) [
  | inl same ↦ ground arith
  | inr other ↦
      rw (other, find_new (suc n) us m p name (ground arith))
        (ap (λ i. if same_string name m then some (i, p) else none) (omega arith))
]

module _ (d : Db) (us : Users) (u : User) (now : ℤ) (h : Holds d us)
    (fresh : find_from 1 us u.username ≡ none) where
  Stored-old :
      (name : Bytes) (id : ℕ) (pass : Bytes)
      → same_string name u.username ≡ false
      → Stored d name id pass
      → Stored (registered d u now) name id pass
  Stored-old name id pass other st =
      let ne : pos id ≢ pos (d.counter next_user_id + 1) = λ p. ground (arith, st.issued) in
      record {
        indexed = registered_users d u now name ∙ rw other st.indexed;
        positive = st.positive;
        issued = omega (arith, counter-registered d u now, st.issued);
        name_kept = registered_other d u now (pos id) (codes "username") ne ∙ st.name_kept;
        pass_kept = registered_other d u now (pos id) (codes "pass") ne ∙ st.pass_kept;
      }

  Stored-new : Stored (registered d u now) u.username (d.counter next_user_id + 1) u.pass
  Stored-new = record {
    indexed = rw (registered_users d u now, same_string_refl u.username);
    positive = omega arith;
    issued = omega (arith, counter-registered d u now);
    name_kept = registered_username d u now;
    pass_kept = registered_pass d u now;
  }

  not_new :
      (name : Bytes) (x : ℕ × Bytes)
      → find_from 1 us name ≡ some x
      → same_string name u.username ≡ false
  not_new name x e = elim (Bool-cases (same_string name u.username)) [
    | inl same ↦
        let here = ap (find_from 1 us) (same_string_sound name u.username same) in ground arith
    | inr other ↦ other
  ]

  IsFound-after :
      (name : Bytes) (o : Option (ℕ × Bytes))
      → find_from 1 us name ≡ o
      → IsFound (registered d u now) name (find_from 1 (us ++ (u.username, u.pass) ∷ []) name)
  IsFound-after name none e = elim (Bool-cases (same_string name u.username)) [
    | inl same ↦
        let number : 1 + length us ≡ d.counter next_user_id + 1 = omega (arith, h.counted) in
        rw
          (
            find_new 1 us u.username u.pass name e,
            same,
            number,
            same_string_sound name u.username same,
          )
          Stored-new
    | inr other ↦
        let absent : d.hash users_key name ≡ none = rw e at (h.found name) in
        rw (find_new 1 us u.username u.pass name e, other)
          (registered_users d u now name ∙ rw other absent)
  ]
  IsFound-after name (some (id, pass)) e =
      let there : Stored d name id pass = rw e at (h.found name) in
      rw (find_old 1 us u.username u.pass name (id, pass) e)
        (Stored-old name id pass (not_new name (id, pass) e) there)

  pub Holds-registered : Holds (registered d u now) (us ++ (u.username, u.pass) ∷ [])
  Holds-registered = record {
    counted = omega (
      arith,
      counter-registered d u now,
      h.counted,
      length-append us ((u.username, u.pass) ∷ []),
    );
    found = λ name. IsFound-after name (find_from 1 us name) refl;
  }

module _ (d : Db) (id on fd now : ℤ) where
  present_users :
      (name : Bytes) → (present d id on fd now).hash users_key name ≡ d.hash users_key name
  unfolding present put_field put_fields with_hash
  present_users name = rw (users-user_key id)

  counter-present : (present d id on fd now).counter next_user_id ≡ d.counter next_user_id
  unfolding present with_hash
  counter-present = refl

  IsFound-present :
      (name : Bytes) (o : Option (ℕ × Bytes))
      → IsFound d name o
      → IsFound (present d id on fd now) name o
  IsFound-present name none f = present_users name ∙ f
  IsFound-present name (some (its, pass)) f =
      let kept = present_kept d id on fd now (user_key (pos its)) in
      record {
        indexed = present_users name ∙ f.indexed;
        positive = f.positive;
        issued = omega (arith, counter-present, f.issued);
        name_kept = kept.0 ∙ f.name_kept;
        pass_kept = kept.1 ∙ f.pass_kept;
      }

  pub Holds-present : {us : Users} → Holds d us → Holds (present d id on fd now) us
  Holds-present {us} h = record {
    counted = counter-present ∙ h.counted;
    found = λ name. IsFound-present name (find_from 1 us name) (h.found name);
  }
