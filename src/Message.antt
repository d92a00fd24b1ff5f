-- ===== src/Message.antt =====
-- lib/message.c: messages as JSON texts. The JSON library (lib/parson.c) is the interface `Parson`:
-- values, the type `double` with its conversions, and the functions that the source calls. An object
-- that is NULL is `none`. A number is converted to an integer as if it fitted the type.
pub mod Codec
pub mod RoundTrip
mod Examples
use chat_hub.Base.{
  [], ◌∷◌, ◌++◌, ℕ, ◌+◌, ◌≤◌, ◌^◌, ◌≡◌, Option, none, some, length, ℤ, abs, false, All, ◌==◌,
}
use chat_hub.Run.{Run, ok, deref, ◌>>=◌}
use chat_hub.Text.{Bytes, codes, same_string, load_string, strncpy}
use chat_hub.Config.{Message, max_chars, max_msg_data}

pub record Parson : Type 1 where
  pub Double : Type 0
  pub to_double : ℤ → Double
  pub truncate : Double → ℤ
  pub Value : Type 0
  pub init_object : Value
  pub set_number : Value → Bytes → Double → Value
  pub set_string : Value → Bytes → Bytes → Value
  pub serialize_pretty : Value → Option Bytes
  pub serialization_size_pretty : Value → ℕ
  pub parse_string : Bytes → Option Value
  pub get_number : Option Value → Bytes → Double
  pub get_string : Option Value → Bytes → Option Bytes

-- What parson.h and the conversions of C say. `Text` holds of valid UTF-8, which is all that
-- `json_object_set_string` stores; `IsPlain` holds of objects that are built from the two setters.
pub record Documented (p : Parson) : Type 1 where
  pub Text : Bytes → Type 0
  pub IsPlain : p.Value → Type 0
  -- integers up to 2 ^ 53 are exact
  pub exact : (z : ℤ) → abs z ≤ 2 ^ 53 → p.truncate (p.to_double z) ≡ z
  pub init_plain : IsPlain p.init_object
  pub set_number_plain :
      (v : p.Value) (k : Bytes) (z : ℤ) → IsPlain v → IsPlain (p.set_number v k (p.to_double z))
  pub set_string_plain :
      (v : p.Value) (k s : Bytes) → IsPlain v → Text s → IsPlain (p.set_string v k s)
  pub number_at_number :
      (v : p.Value) (k : Bytes) (x : p.Double) → p.get_number (some (p.set_number v k x)) k ≡ x
  pub number_off_number :
      (v : p.Value) (k k' : Bytes) (x : p.Double)
      → same_string k' k ≡ false
      → p.get_number (some (p.set_number v k x)) k' ≡ p.get_number (some v) k'
  pub number_off_string :
      (v : p.Value) (k k' s : Bytes)
      → same_string k' k ≡ false
      → p.get_number (some (p.set_string v k s)) k' ≡ p.get_number (some v) k'
  pub string_at_string :
      (v : p.Value) (k s : Bytes) → Text s → p.get_string (some (p.set_string v k s)) k ≡ some s
  pub string_off_number :
      (v : p.Value) (k k' : Bytes) (x : p.Double)
      → same_string k' k ≡ false
      → p.get_string (some (p.set_number v k x)) k' ≡ p.get_string (some v) k'
  pub string_off_string :
      (v : p.Value) (k k' s : Bytes)
      → same_string k' k ≡ false
      → p.get_string (some (p.set_string v k s)) k' ≡ p.get_string (some v) k'
  -- a plain object has a text, a string of C, which is parsed to it; the size counts the NUL
  pub text_of :
      (v : p.Value)
      → IsPlain v
      → (t : Bytes) × (p.serialize_pretty v ≡ some t)
        × (p.serialization_size_pretty v ≡ length t + 1)
        × (p.parse_string t ≡ some v)
        × All (λ c. (c == 0) ≡ false) t
  -- the getters of NULL
  pub string_of_null : (k : Bytes) → p.get_string none k ≡ none

module _ (p : Parson) where
  -- the object that `pack_message` builds
  unfoldable pub root_value : Message → Bytes → Bytes → p.Value
  root_value message sender_name msg =
      let v1 = p.set_number p.init_object (codes "msgId") (p.to_double message.msg_id) in
      let v2 = p.set_number v1 (codes "groupId") (p.to_double message.group_id) in
      let v3 = p.set_string v2 (codes "senderName") sender_name in
      let v4 = p.set_number v3 (codes "sendTime") (p.to_double message.send_time) in
      let v5 = p.set_number v4 (codes "type") (p.to_double message.type) in
      p.set_string v5 (codes "msg") msg

  -- the text, or NULL, and `*json_size`
  unfoldable pub pack_message : Message → Run (Option Bytes × ℕ)
  pack_message message = load_string max_chars message.sender_name >>= λ sender_name.
      load_string max_msg_data message.msg >>= λ msg.
      let v = root_value message sender_name msg in
      ok (p.serialize_pretty v, p.serialization_size_pretty v)

  unfoldable pub unpack_message : Bytes → Run Message
  unpack_message json =
      let root = p.parse_string json in
      deref (p.get_string root (codes "msg")) >>= λ msg.
      deref (p.get_string root (codes "senderName")) >>= λ sender_name. ok (record {
        msg_id = p.truncate (p.get_number root (codes "msgId"));
        group_id = p.truncate (p.get_number root (codes "groupId"));
        sender_name = strncpy max_chars sender_name;
        msg = strncpy max_msg_data msg;
        send_time = p.truncate (p.get_number root (codes "sendTime"));
        type = p.truncate (p.get_number root (codes "type"));
      })

  -- what `print_message` prints
  unfoldable pub print_message : Message → Run Bytes
  print_message message =
      pack_message message >>= λ pack. deref pack.0 >>= λ text. ok (text ++ 10 ∷ [])
