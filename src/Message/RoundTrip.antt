-- ===== src/Message/RoundTrip.antt =====
-- `pack_message` and `unpack_message` (lib/message.c) against each other.
use chat_hub.Base.{
  length-take, ◌≤◌, ℕ, ◌+◌, ◌≤◌, ◌<◌, ◌^◌, zero, suc, [], ◌∷◌, ◌≡◌, ◌∙◌, refl, none, some, length,
  abs, arith, All, ◌==◌, false,
}
use chat_hub.Run.{out_of_bounds, ok, fault, null_pointer}
use chat_hub.Text.{Bytes, codes, same_string, load_string, strncpy}
use chat_hub.Config.{Message, max_chars, max_msg_data}
use chat_hub.Message.{Parson, Documented, pack_message, unpack_message, root_value}

-- a message as the programs build it: two strings in their arrays, and numbers that a `double` holds
pub record IsMessage {p : Parson} (laws : Documented p) (m : Message) : Type 0 where
  pub sender_text : laws.Text m.sender_name
  pub sender_fits : length m.sender_name < max_chars
  pub msg_text : laws.Text m.msg
  pub msg_fits : length m.msg < max_msg_data
  pub msg_id_exact : abs m.msg_id ≤ 2 ^ 53
  pub group_id_exact : abs m.group_id ≤ 2 ^ 53
  pub send_time_exact : abs m.send_time ≤ 2 ^ 53
  pub type_exact : abs m.type ≤ 2 ^ 53

-- The message has a text, which is unpacked to it and has no NUL; the size that `pack_message` gives
-- counts one at its end.
pub record Packed (p : Parson) (m : Message) : Type 0 where
  pub text : Bytes
  pub made : pack_message p m ≡ ok (some text, length text + 1)
  pub reads_back : unpack_message p text ≡ ok m
  pub solid : All (λ c. (c == 0) ≡ false) text
  pub size : p.serialization_size_pretty (root_value p m m.sender_name m.msg) ≡ length text + 1

pub strncpy_fits : (size : ℕ) (s : Bytes) → length s < size → strncpy size s ≡ s
strncpy_fits zero s room = ground arith
strncpy_fits (suc n) [] room = refl
strncpy_fits (suc n) (c ∷ s) room = rw (strncpy_fits n s (ground arith))

pub load_fits : (size : ℕ) (s : Bytes) → length s < size → load_string size s ≡ ok s
load_fits size s room = ground arith

load_cut :
    (size : ℕ) (s : Bytes)
    → size ≤ length s
    → load_string size (strncpy size s) ≡ fault out_of_bounds
load_cut size s long = ground (arith, length-take size s)

module _ {p : Parson} (laws : Documented p) (m : Message) (good : IsMessage laws m) where
  pub root-IsPlain : laws.IsPlain (root_value p m m.sender_name m.msg)
  unfolding root_value
  root-IsPlain =
      laws.set_string_plain _ _ _
        (laws.set_number_plain _ _ _ (
          laws.set_number_plain _ _ _ (
            laws.set_string_plain _ _ _
              (laws.set_number_plain _ _ _ (laws.set_number_plain _ _ _ laws.init_plain))
              good.sender_text)))
        good.msg_text

  root_msg : p.get_string (some (root_value p m m.sender_name m.msg)) (codes "msg") ≡ some m.msg
  unfolding root_value
  root_msg = laws.string_at_string _ _ _ good.msg_text

  root_sender :
      p.get_string (some (root_value p m m.sender_name m.msg)) (codes "senderName")
      ≡ some m.sender_name
  unfolding root_value same_string
  root_sender =
      laws.string_off_string _ _ _ _ refl
      ∙ laws.string_off_number _ _ _ _ refl
      ∙ laws.string_off_number _ _ _ _ refl
      ∙ laws.string_at_string _ _ _ good.sender_text

  root_type :
      p.get_number (some (root_value p m m.sender_name m.msg)) (codes "type") ≡ p.to_double m.type
  unfolding root_value same_string
  root_type = laws.number_off_string _ _ _ _ refl ∙ laws.number_at_number _ _ _

  root_send_time :
      p.get_number (some (root_value p m m.sender_name m.msg)) (codes "sendTime")
      ≡ p.to_double m.send_time
  unfolding root_value same_string
  root_send_time =
      laws.number_off_string _ _ _ _ refl
      ∙ laws.number_off_number _ _ _ _ refl
      ∙ laws.number_at_number _ _ _

  root_group_id :
      p.get_number (some (root_value p m m.sender_name m.msg)) (codes "groupId")
      ≡ p.to_double m.group_id
  unfolding root_value same_string
  root_group_id =
      laws.number_off_string _ _ _ _ refl
      ∙ laws.number_off_number _ _ _ _ refl
      ∙ laws.number_off_number _ _ _ _ refl
      ∙ laws.number_off_string _ _ _ _ refl
      ∙ laws.number_at_number _ _ _

  root_msg_id :
      p.get_number (some (root_value p m m.sender_name m.msg)) (codes "msgId")
      ≡ p.to_double m.msg_id
  unfolding root_value same_string
  root_msg_id =
      laws.number_off_string _ _ _ _ refl
      ∙ laws.number_off_number _ _ _ _ refl
      ∙ laws.number_off_number _ _ _ _ refl
      ∙ laws.number_off_string _ _ _ _ refl
      ∙ laws.number_off_number _ _ _ _ refl
      ∙ laws.number_at_number _ _ _

  packed :
      {json : Bytes}
      → p.serialize_pretty (root_value p m m.sender_name m.msg) ≡ some json
      → p.serialization_size_pretty (root_value p m m.sender_name m.msg) ≡ length json + 1
      → pack_message p m ≡ ok (some json, length json + 1)
  unfolding pack_message
  packed made size = rw (
    load_fits max_chars m.sender_name good.sender_fits,
    load_fits max_msg_data m.msg good.msg_fits,
    made,
    size,
  )

  unpacked :
      {json : Bytes}
      → p.parse_string json ≡ some (root_value p m m.sender_name m.msg)
      → unpack_message p json ≡ ok m
  unfolding unpack_message
  unpacked parsed = rw (
    parsed,
    root_msg,
    root_sender,
    root_type,
    root_send_time,
    root_group_id,
    root_msg_id,
    laws.exact m.type good.type_exact,
    laws.exact m.send_time good.send_time_exact,
    laws.exact m.group_id good.group_id_exact,
    laws.exact m.msg_id good.msg_id_exact,
    strncpy_fits max_chars m.sender_name good.sender_fits,
    strncpy_fits max_msg_data m.msg good.msg_fits,
  )

  pub pack_message-Packed : Packed p m
  pack_message-Packed =
      let (json, made, size, parsed, solid) = laws.text_of _ root-IsPlain in
      record {
        text = json;
        made = packed made size;
        reads_back = unpacked parsed;
        solid = solid;
        size = size;
      }

  -- A message whose strings are valid UTF-8 and fit their arrays, and whose numbers are at most
  -- 2 ^ 53 in absolute value, is packed to a text, with the size of the text and its NUL, and the
  -- text is unpacked to the same message.
  pub unpack_message-pack_message :
      (json : Bytes) × (pack_message p m ≡ ok (some json, length json + 1))
      × (unpack_message p json ≡ ok m)
  unpack_message-pack_message =
      let good = pack_message-Packed in (good.text, good.made, good.reads_back)

module _ (p : Parson) where
  -- A text that is no JSON makes `unpack_message` copy from NULL.
  pub unpack_message_malformed :
      (laws : Documented p) (json : Bytes)
      → p.parse_string json ≡ none
      → unpack_message p json ≡ fault null_pointer
  unfolding unpack_message
  unpack_message_malformed laws json malformed = rw (malformed, laws.string_of_null (codes "msg"))

  -- A text with a `msg` and a sender name of 20 bytes or more is unpacked to a message whose name has no
  -- NUL, and `pack_message` of that message reads past the array.
  pub pack_message-unpack_message_long :
      (json sender_name msg : Bytes)
      → p.get_string (p.parse_string json) (codes "senderName") ≡ some sender_name
      → p.get_string (p.parse_string json) (codes "msg") ≡ some msg
      → max_chars ≤ length sender_name
      → (m : Message) × (unpack_message p json ≡ ok m) × (pack_message p m ≡ fault out_of_bounds)
  unfolding unpack_message pack_message
  pack_message-unpack_message_long json sender_name msg named has_msg long = (
    record {
      msg_id = p.truncate (p.get_number (p.parse_string json) (codes "msgId"));
      group_id = p.truncate (p.get_number (p.parse_string json) (codes "groupId"));
      sender_name = strncpy max_chars sender_name;
      msg = strncpy max_msg_data msg;
      send_time = p.truncate (p.get_number (p.parse_string json) (codes "sendTime"));
      type = p.truncate (p.get_number (p.parse_string json) (codes "type"));
    },
    rw (has_msg, named),
    rw (load_cut max_chars sender_name long),
  )
