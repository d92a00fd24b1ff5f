-- ===== src/Config/Names.antt =====
-- `message_types` (lib/config.c) against `MessageType` (lib/config.h).
use chat_hub.Base.{
  ℕ, zero, suc, ◌+◌, ◌<◌, ◌≡◌, ◌↔◌, ◌∙◌, refl, ap, some, List, [], ◌∷◌, get_elem?,
  get_elem?-eq-some, lt_of_get_elem?, arith,
}
use Prim.Native.String.{String}
use chat_hub.Config.{message_types}
use chat_hub.Config.Types.{
  MessageType, code, identifier, text, image, login, register, logout, list_chat, list_friend,
  add_friend, add_friend_to_group, del_friend, add_group, del_group, sny_msg, del_msg, exit,
}

abbrev pub types : List MessageType
types =
    text ∷ image ∷ login ∷ register ∷ logout ∷ list_chat ∷ list_friend ∷ add_friend
    ∷ add_friend_to_group ∷ del_friend ∷ add_group ∷ del_group ∷ sny_msg ∷ del_msg ∷ exit ∷ []

-- The table holds, under the value of each type, its identifier.
message_types-code : (t : MessageType) → get_elem? message_types (code t) ≡ some (identifier t)
message_types-code text = refl
message_types-code _ = refl

-- the types have the values from `n` on
abbrev pub AreCounted : List MessageType → ℕ → Type 0
AreCounted [] n = Unit
AreCounted (t ∷ ts) n = (code t ≡ n) × AreCounted ts (suc n)

pub types-AreCounted : AreCounted types 0
types-AreCounted = omega arith

pub code-get_elem? :
    (ts : List MessageType) (n i : ℕ) (t : MessageType)
    → AreCounted ts n
    → get_elem? ts i ≡ some t
    → code t ≡ n + i
code-get_elem? [] n i t counted e = ground arith
code-get_elem? (u ∷ ts) n zero t counted e = ground arith
code-get_elem? (u ∷ ts) n (suc i) t counted e =
    omega (arith, code-get_elem? ts (suc n) i t counted.1 e)

-- The table of names and the enumeration agree: an index of the table holds a text exactly when the
-- index is the value of a message type and the text is its identifier.
pub message_types_lem :
    (n : ℕ) (s : String)
    → (get_elem? message_types n ≡ some s) ↔ ((t : MessageType) × (code t ≡ n) × (identifier t ≡ s))
message_types_lem n s = (to, from)
  where
    to : get_elem? message_types n ≡ some s → (t : MessageType) × (code t ≡ n) × (identifier t ≡ s)
    to e =
        let small : n < 15 = lt_of_get_elem? message_types n s e in
        let (t, at_n) = get_elem?-eq-some types n small in
        let same : code t ≡ n = code-get_elem? types 0 n t types-AreCounted at_n ∙ omega arith in
        (t, same, ground (arith, message_types-code t, ap (get_elem? message_types) same))

    from :
        ((t : MessageType) × (code t ≡ n) × (identifier t ≡ s)) → get_elem? message_types n ≡ some s
    from (t, same, spelled) = rw (← same, message_types-code t, spelled)
