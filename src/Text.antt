-- ===== src/Text.antt =====
-- C strings as the lists of their bytes before the NUL, and what the source uses of the C library
-- on them: decimal output (`%d`, `%ld`, `%lld`), `atoi` and `atoll`, the `%s`, `%d` and `%ld` of
-- `sscanf`, `strcpy`, `strncpy`, `strcspn`. Numbers that are read are taken exactly: the C library
-- leaves the result open where it does not fit the type.
pub mod Decimal
pub mod Scan
pub mod Compare
use Prim.Native.Char.{code}
use Prim.Native.String.{String}
use chat_hub.Base.{
  ℕ, zero, suc, ◌+◌, ◌-◌, ◌*◌, ◌/◌, ◌%◌, Bool, true, false, ◌&&◌, ◌||◌, Option, none, some, List,
  [], ◌∷◌, ◌++◌, ℤ, pos, negsuc, ltb, leb, ◌==◌, if◌then◌else◌, length, take,
}
use chat_hub.Run.{Run, ok, fault, out_of_bounds}

abbrev pub Bytes : Type 0
Bytes = List ℕ

-- a literal of the source
abbrev pub codes : String → Bytes
codes String.[] = []
codes (String.◌∷◌ c s) = code c ∷ codes s

-- `!strcmp(a, b)`
unfoldable pub same_string : Bytes → Bytes → Bool
same_string [] [] = true
same_string [] (b ∷ t) = false
same_string (a ∷ s) [] = false
same_string (a ∷ s) (b ∷ t) = a == b && same_string s t

-- a string written to an array of `size` bytes, by `strcpy`, `sprintf` or `%s`
abbrev pub store_string : ℕ → Bytes → Run Bytes
store_string size s = if ltb (length s) size then ok s else fault out_of_bounds

-- `strncpy(array, s, size)` for an array of `size` bytes: a string of that length or more loses its
-- tail and its NUL
abbrev pub strncpy : ℕ → Bytes → Bytes
strncpy size s = take size s

-- an array of `size` bytes that is read as a string
abbrev pub load_string : ℕ → Bytes → Run Bytes
load_string size s = if ltb (length s) size then ok s else fault out_of_bounds

-- Decimal output. The fuel of `show_ℕ` is enough: a number has no more digits than its value + 1.
unfoldable pub show_digits : ℕ → ℕ → Bytes
show_digits zero n = []
show_digits (suc f) n =
    let rest = show_digits f (n / 10) ++ (b'0' + n % 10) ∷ [] in
    if ltb n 10 then (b'0' + n) ∷ [] else rest

unfoldable pub show_ℕ : ℕ → Bytes
unfolding show_digits
show_ℕ n = show_digits (suc n) n

unfoldable pub show_ℤ : ℤ → Bytes
unfolding show_ℕ
show_ℤ (pos n) = show_ℕ n
show_ℤ (negsuc n) = b'-' ∷ show_ℕ (suc n)

-- `isspace` and `isdigit`
abbrev pub is_space : ℕ → Bool
is_space c = c == 32 || leb 9 c && leb c 13

abbrev pub is_digit : ℕ → Bool
is_digit c = leb b'0' c && leb c b'9'

unfoldable pub skip_spaces : Bytes → Bytes
skip_spaces [] = []
skip_spaces (c ∷ s) = if is_space c then skip_spaces s else c ∷ s

-- the digits at the front, read behind `n`, and the text behind them
unfoldable pub scan_digits : ℕ → Bytes → ℕ × Bytes
scan_digits n [] = (n, [])
scan_digits n (c ∷ s) = if is_digit c then scan_digits (n * 10 + (c - b'0')) s else (n, c ∷ s)

abbrev pub neg : ℕ → ℤ
neg zero = pos 0
neg (suc n) = negsuc n

unfoldable pub starts_with_digit : Bytes → Bool
starts_with_digit [] = false
starts_with_digit (c ∷ s) = is_digit c

unfoldable pub scan_unsigned : (ℕ → ℤ) → Bytes → Option (ℤ × Bytes)
unfolding scan_digits starts_with_digit
scan_unsigned sign s =
    if starts_with_digit s then (let r = scan_digits 0 s in some (sign r.0, r.1)) else none

unfoldable pub scan_sign : Bytes → Option (ℤ × Bytes)
unfolding scan_unsigned
scan_sign [] = none
scan_sign (c ∷ s) =
    if c == b'-'
    then scan_unsigned neg s
    else if c == b'+'
    then scan_unsigned pos s
    else scan_unsigned pos (c ∷ s)

-- `%d`, `%ld`: the number and the text behind it, or `none` where the input does not match
unfoldable pub scan_int : Bytes → Option (ℤ × Bytes)
unfolding scan_sign skip_spaces
scan_int s = scan_sign (skip_spaces s)

abbrev pub value_or_zero : Option (ℤ × Bytes) → ℤ
value_or_zero none = pos 0
value_or_zero (some r) = r.0

unfoldable pub atoll : Bytes → ℤ
unfolding scan_int
atoll s = value_or_zero (scan_int s)

-- the bytes up to the next white space, and the rest
unfoldable pub span_word : Bytes → Bytes × Bytes
span_word [] = ([], [])
span_word (c ∷ s) = let (w, r) = span_word s in if is_space c then ([], c ∷ s) else (c ∷ w, r)

abbrev some_word : Bytes × Bytes → Option (Bytes × Bytes)
some_word ([], r) = none
some_word (c ∷ w, r) = some (c ∷ w, r)

-- `%s`: a word and the text behind it, or `none` at the end of the input
unfoldable pub scan_word : Bytes → Option (Bytes × Bytes)
unfolding span_word skip_spaces
scan_word s = some_word (span_word (skip_spaces s))

-- `s` cut at the first `c`: `s[strcspn(s, c)] = 0`
unfoldable pub cut_at : ℕ → Bytes → Bytes
cut_at c [] = []
cut_at c (b ∷ s) = if b == c then [] else b ∷ cut_at c s
