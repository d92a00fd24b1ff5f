-- ===== src/Dao/Users/Accounts/Fields.antt =====
-- What `registered` holds, field by field.
use chat_hub.Base.{◌+◌, ◌≡◌, refl, ◌∙◌, ◌≢◌, false, some, ℤ, pos, if◌then◌else◌}
use chat_hub.Text.{Bytes, codes, show_ℤ, same_string}
use chat_hub.Text.Compare.{same_string_refl, same_string-false, same_string-append}
use chat_hub.Text.Decimal.{show_ℤ-injective}
use chat_hub.Config.{User}
use chat_hub.Redis.Documented.{Db, put_field, put_fields, with_hash, with_counter}
use chat_hub.Dao.Keys.{users_key, next_user_id, user_key}
use chat_hub.Dao.Users.Accounts.{registered}

-- the keys of two users
pub same_user_key : (a b : ℤ) → a ≢ b → same_string (user_key a) (user_key b) ≡ false
same_user_key a b ne =
    same_string-append (codes "user:") (show_ℤ a) (show_ℤ b)
    ∙ same_string-false (show_ℤ a) (show_ℤ b) (λ e. ne (show_ℤ-injective a b e))

pub user_key-users : (a : ℤ) → same_string (user_key a) users_key ≡ false
unfolding same_string
user_key-users a = refl

pub users-user_key : (a : ℤ) → same_string users_key (user_key a) ≡ false
unfolding same_string
users-user_key a = refl

module _ (d : Db) (user : User) (now : ℤ) where
  abbrev new_id : ℤ
  new_id = pos (d.counter next_user_id + 1)

  -- the index of names: the new name, and no other change
  pub registered_users :
      (name : Bytes)
      → (registered d user now).hash users_key name
        ≡ (if same_string name user.username then some (show_ℤ new_id) else d.hash users_key name)
  unfolding registered put_field put_fields with_hash with_counter
  registered_users name = rw (same_string_refl users_key, users-user_key new_id)

  -- the new user's fields
  pub registered_username :
      (registered d user now).hash (user_key new_id) (codes "username") ≡ some user.username
  unfolding registered put_field put_fields with_hash with_counter same_string
  registered_username = rw (user_key-users new_id, same_string_refl (user_key new_id))

  pub registered_pass :
      (registered d user now).hash (user_key new_id) (codes "pass") ≡ some user.pass
  unfolding registered put_field put_fields with_hash with_counter same_string
  registered_pass = rw (user_key-users new_id, same_string_refl (user_key new_id))

  -- every other user's fields stay
  pub registered_other :
      (id : ℤ) (f : Bytes)
      → id ≢ new_id
      → (registered d user now).hash (user_key id) f ≡ d.hash (user_key id) f
  unfolding registered put_field put_fields with_hash with_counter
  registered_other id f ne = rw (user_key-users id, same_user_key id new_id ne)
