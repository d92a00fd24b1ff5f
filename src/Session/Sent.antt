-- ===== src/Session/Sent.antt =====
-- What one program has written of a message (client/client.c), in the buffer of `readcb`
-- (server/server.c).
use chat_hub.Base.{◌+◌, ◌<◌, ◌≤◌, ◌≡◌, refl, [], ◌∷◌, ◌++◌, length, arith}
use chat_hub.Run.{ok}
use chat_hub.Text.{Bytes}
use chat_hub.Config.{Message, max_buff}
use chat_hub.Message.{Parson, root_value}
use chat_hub.Message.RoundTrip.{Packed}
use chat_hub.Server.Input.{drain, c_string}
use chat_hub.Server.Input.Buffer.{c_string-drain}

-- the buffers of both programs have room for the text of the message and its NUL
abbrev pub IsShort : Parson → Message → Type 0
IsShort p m = p.serialization_size_pretty (root_value p m m.sender_name m.msg) ≤ max_buff

some_sent : (s : Bytes) → 0 < length (s ++ 0 ∷ [])
some_sent [] = omega arith
some_sent (c ∷ s) = omega arith

length_sent : (s : Bytes) → length (s ++ 0 ∷ []) ≡ length s + 1
length_sent [] = refl
length_sent (c ∷ s) = omega (arith, length_sent s)

-- What one program has written of a message is the string that `readcb` has in its buffer.
pub c_string-drain-Packed :
    {p : Parson} {m : Message} (packed : Packed p m) (uninitialised : Bytes)
    → IsShort p m
    → c_string (drain (length (packed.text ++ 0 ∷ [])) (packed.text ++ 0 ∷ []) uninitialised)
      ≡ ok packed.text
c_string-drain-Packed packed uninitialised small =
    let fits : length (packed.text ++ 0 ∷ []) ≤ max_buff =
      omega (arith, length_sent packed.text, packed.size) in
    c_string-drain (packed.text ++ 0 ∷ []) packed.text [] uninitialised refl fits
      (some_sent packed.text) packed.solid
