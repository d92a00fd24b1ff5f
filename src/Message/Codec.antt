-- ===== src/Message/Codec.antt =====
-- A concrete object store that meets the laws of the JSON library: an object is a list of words, by
-- turns a key and a value, and its text is a brace and the words, each ended by the byte 1.
use chat_hub.Base.{
  arith, All, ℕ, zero, suc, ◌+◌, ◌≡◌, refl, ap, ◌∙◌, Option, none, some, List, [], ◌∷◌, length,
  ◌==◌, ℤ, pos, negsuc, false, if◌then◌else◌,
}
use chat_hub.Text.{Bytes, same_string}
use chat_hub.Text.Compare.{same_string_refl}
use chat_hub.Message.{Parson, Documented}

unfoldable pub word_text : Bytes → Bytes → Bytes
word_text [] rest = 1 ∷ rest
word_text (c ∷ w) rest = suc (suc c) ∷ word_text w rest

unfoldable pub words_text : List Bytes → Bytes
words_text [] = []
words_text (w ∷ ws) = word_text w (words_text ws)

abbrev pub push : ℕ → List Bytes → List Bytes
push c [] = (c ∷ []) ∷ []
push c (w ∷ ws) = (c ∷ w) ∷ ws

unfoldable pub words : Bytes → List Bytes
words [] = []
words (zero ∷ s) = []
words (suc zero ∷ s) = [] ∷ words s
words (suc (suc c) ∷ s) = push c (words s)

words-word_text : (w rest : Bytes) → words (word_text w rest) ≡ w ∷ words rest
unfolding words word_text
words-word_text [] rest = refl
words-word_text (c ∷ w) rest = rw (words-word_text w rest)

words-words_text : (ws : List Bytes) → words (words_text ws) ≡ ws
unfolding words words_text
words-words_text [] = refl
words-words_text (w ∷ ws) = rw (words-word_text w (words_text ws), words-words_text ws)

pub word_text_positive :
    (w rest : Bytes)
    → All (λ c. (c == 0) ≡ false) rest
    → All (λ c. (c == 0) ≡ false) (word_text w rest)
unfolding word_text
word_text_positive [] rest h = (refl, h)
word_text_positive (c ∷ w) rest h = (ground arith, word_text_positive w rest h)

pub words_text_positive : (ws : List Bytes) → All (λ c. (c == 0) ≡ false) (words_text ws)
unfolding words_text
words_text_positive [] = tt
words_text_positive (w ∷ ws) = word_text_positive w (words_text ws) (words_text_positive ws)

unfoldable pub lookup : List Bytes → Bytes → Bytes
lookup [] k = []
lookup (k' ∷ []) k = []
lookup (k' ∷ w ∷ ws) k = let rest = lookup ws k in if same_string k k' then w else rest

abbrev pub number_word : ℤ → Bytes
number_word (pos n) = 0 ∷ 0 ∷ n ∷ []
number_word (negsuc n) = 0 ∷ 1 ∷ n ∷ []

abbrev pub word_number : Bytes → ℤ
word_number (zero ∷ zero ∷ n ∷ []) = pos n
word_number (zero ∷ suc zero ∷ n ∷ []) = negsuc n
word_number _ = pos 0

abbrev pub word_string : Bytes → Option Bytes
word_string (suc zero ∷ s) = some s
word_string _ = none

abbrev pub number_of : Option (List Bytes) → Bytes → ℤ
number_of none k = pos 0
number_of (some v) k = word_number (lookup v k)

abbrev pub string_of : Option (List Bytes) → Bytes → Option Bytes
string_of none k = none
string_of (some v) k = word_string (lookup v k)

-- A text starts with a brace.
abbrev pub text_words : Bytes → Option (List Bytes)
text_words [] = none
text_words (c ∷ s) = if c == b'{' then some (words s) else none

abbrev pub codec : Parson
codec = record {
  Double = ℤ;
  to_double = λ z. z;
  truncate = λ z. z;
  Value = List Bytes;
  init_object = [];
  set_number = λ v k x. k ∷ number_word x ∷ v;
  set_string = λ v k s. k ∷ (1 ∷ s) ∷ v;
  serialize_pretty = λ v. some (b'{' ∷ words_text v);
  serialization_size_pretty = λ v. length (b'{' ∷ words_text v) + 1;
  parse_string = text_words;
  get_number = number_of;
  get_string = string_of;
}

lookup_at : (k w : Bytes) (ws : List Bytes) → lookup (k ∷ w ∷ ws) k ≡ w
unfolding lookup
lookup_at k w ws = rw (same_string_refl k)

lookup_off :
    (k k' w : Bytes) (ws : List Bytes)
    → same_string k' k ≡ false
    → lookup (k ∷ w ∷ ws) k' ≡ lookup ws k'
unfolding lookup
lookup_off k k' w ws off = rw off

number-number_word : (z : ℤ) → word_number (number_word z) ≡ z
number-number_word (pos n) = refl
number-number_word (negsuc n) = refl

pub codec_laws : Documented codec
codec_laws = record {
  Text = λ s. Unit {0};
  IsPlain = λ v. Unit {0};
  exact = λ z small. refl;
  init_plain = tt;
  set_number_plain = λ v k z plain. tt;
  set_string_plain = λ v k s plain t. tt;
  number_at_number = λ v k x. ap word_number (lookup_at k (number_word x) v) ∙ number-number_word x;
  number_off_number = λ v k k' x off. ap word_number (lookup_off k k' (number_word x) v off);
  number_off_string = λ v k k' s off. ap word_number (lookup_off k k' (1 ∷ s) v off);
  string_at_string = λ v k s t. ap word_string (lookup_at k (1 ∷ s) v);
  string_off_number = λ v k k' x off. ap word_string (lookup_off k k' (number_word x) v off);
  string_off_string = λ v k k' s off. ap word_string (lookup_off k k' (1 ∷ s) v off);
  text_of = λ v plain. (
    b'{' ∷ words_text v,
    refl,
    refl,
    ap some (words-words_text v),
    (refl, words_text_positive v),
  );
  string_of_null = λ k. refl;
}

pub codec_text : (s : Bytes) → codec_laws.Text s
unfolding codec_laws
codec_text s = tt
