-- ===== src/Text/Decimal.antt =====
-- Decimal output is read back.
use native.Mathlib.Nat.{pow-suc}
use chat_hub.Base.{
  abs, ℕ, zero, suc, ◌+◌, ◌/◌, ◌%◌, ◌*◌, ◌^◌, ◌≤◌, ◌<◌, ◌≡◌, refl, sym, ap, ◌∙◌, inl, inr,
  Bool-cases, true, false, some, [], ◌∷◌, ◌++◌, append_assoc, append-nil, ℤ, pos, negsuc, ltb,
  length, length-append, arith,
}
use chat_hub.Text.{
  Bytes, show_digits, show_ℕ, show_ℤ, is_digit, is_space, scan_digits, neg, starts_with_digit,
  scan_unsigned, scan_int, value_or_zero, atoll,
}

-- the first byte of a number that is written
record Digits (s : Bytes) : Type 0 where
  first : ℕ
  rest : Bytes
  shape : s ≡ first ∷ rest
  digit : is_digit first ≡ true

show_digits-Digits : (f n : ℕ) → n < f → Digits (show_digits f n)
unfolding show_digits
show_digits-Digits zero n h = elim h [ ]
show_digits-Digits (suc f) n h = elim (Bool-cases (ltb n 10)) [
  | inl small ↦ record { first = b'0' + n; rest = []; shape = rw small; digit = ground arith }
  | inr large ↦
      let d = show_digits-Digits f (n / 10) (ground arith) in
      record {
        first = d.first;
        rest = d.rest ++ (b'0' + n % 10) ∷ [];
        shape = rw (large, d.shape);
        digit = d.digit;
      }
]

scan-show_digits :
    (f n : ℕ) (t : Bytes) → n < f → scan_digits 0 (show_digits f n ++ t) ≡ scan_digits n t
unfolding show_digits scan_digits
scan-show_digits zero n t h = elim h [ ]
scan-show_digits (suc f) n t h = elim (Bool-cases (ltb n 10)) [
  | inl small ↦ rw small (ground arith)
  | inr large ↦
      rw (large, append_assoc, scan-show_digits f (n / 10) ((b'0' + n % 10) ∷ t) (ground arith))
        (ground arith)
]

-- A number of at most `k` digits takes at most `k` bytes.
pub length-show_digits : (f n k : ℕ) → n < 10 ^ suc k → length (show_digits f n) ≤ suc k
unfolding show_digits
length-show_digits zero n k h = omega arith
length-show_digits (suc f) n zero h =
    let small : ltb n 10 ≡ true = ground arith in rw small (omega arith)
length-show_digits (suc f) n (suc k) h = elim (Bool-cases (ltb n 10)) [
  | inl small ↦ rw small (omega arith)
  | inr large ↦
      rw (large, length-append)
        (omega (arith, length-show_digits f (n / 10) k (omega (arith, pow-suc 10 (suc k)))))
]

-- text that no digit starts
abbrev pub IsBreak : Bytes → Type 0
IsBreak t = starts_with_digit t ≡ false

scan_break : (n : ℕ) (t : Bytes) → IsBreak t → scan_digits n t ≡ (n, t)
unfolding scan_digits starts_with_digit
scan_break n [] h = refl
scan_break n (c ∷ t) h = rw h

scan_unsigned_digit :
    (sign : ℕ → ℤ) (s t : Bytes)
    → Digits s
    → scan_unsigned sign (s ++ t)
      ≡ some (sign (scan_digits 0 (s ++ t)).0, (scan_digits 0 (s ++ t)).1)
unfolding scan_unsigned starts_with_digit
scan_unsigned_digit sign s t d =
    let digit : starts_with_digit (s ++ t) ≡ true = rw d.shape d.digit in rw digit

module _ (sign : ℕ → ℤ) (n : ℕ) (t : Bytes) (brk : IsBreak t) where
  scan_unsigned-show : scan_unsigned sign (show_ℕ n ++ t) ≡ some (sign n, t)
  unfolding show_ℕ
  scan_unsigned-show =
      let d = show_digits-Digits (suc n) n (omega arith) in
      let read = scan-show_digits (suc n) n t (omega arith) ∙ scan_break n t brk in
      scan_unsigned_digit sign (show_digits (suc n) n) t d
      ∙ ap (λ (r : ℕ × Bytes). some (sign r.0, r.1)) read

-- a text that starts with a digit has no sign and no white space in front
scan_int_digit : (s t : Bytes) → Digits s → scan_int (s ++ t) ≡ scan_unsigned pos (s ++ t)
unfolding scan_int
scan_int_digit s t d = rw d.shape (ground (arith, d.digit))

show_ℕ-Digits : (n : ℕ) → Digits (show_ℕ n)
unfolding show_ℕ
show_ℕ-Digits n = show_digits-Digits (suc n) n (omega arith)

pub show_ℤ-starts_with_digit : (n : ℕ) → starts_with_digit (show_ℤ (pos n)) ≡ true
unfolding show_ℤ starts_with_digit
show_ℤ-starts_with_digit n = let d = show_ℕ-Digits n in rw d.shape d.digit

-- A number that is written, with text behind it that does not go on with a digit, is read back
-- with that text.
pub scan_int-show_ℤ : (z : ℤ) (t : Bytes) → IsBreak t → scan_int (show_ℤ z ++ t) ≡ some (z, t)
unfolding show_ℤ
scan_int-show_ℤ (pos n) t brk =
    scan_int_digit (show_ℕ n) t (show_ℕ-Digits n) ∙ scan_unsigned-show pos n t brk
scan_int-show_ℤ (negsuc n) t brk = unfold scan_int in scan_unsigned-show neg (suc n) t brk

pub scan_int-space : (c : ℕ) (s : Bytes) → is_space c ≡ true → scan_int (c ∷ s) ≡ scan_int s
unfolding scan_int
scan_int-space c s h = rw h

pub scan_int-show_ℤ_end : (z : ℤ) → scan_int (show_ℤ z) ≡ some (z, [])
unfolding starts_with_digit
scan_int-show_ℤ_end z = ap scan_int (sym (append-nil (show_ℤ z))) ∙ scan_int-show_ℤ z [] refl

-- `atoll` reads every number back from its decimal output.
pub atoll-show_ℤ : (z : ℤ) → atoll (show_ℤ z) ≡ z
unfolding atoll
atoll-show_ℤ z = ap value_or_zero (scan_int-show_ℤ_end z)

-- Different numbers have different decimal output.
pub show_ℤ-injective : (a b : ℤ) → show_ℤ a ≡ show_ℤ b → a ≡ b
show_ℤ-injective a b e = sym (atoll-show_ℤ a) ∙ (ap atoll e ∙ atoll-show_ℤ b)

-- The output of a number below 10 ^ k fits k bytes, and a sign.
pub length-show_ℤ : (z : ℤ) (k : ℕ) → abs z < 10 ^ suc k → length (show_ℤ z) ≤ suc (suc k)
unfolding show_ℤ show_ℕ
length-show_ℤ (pos n) k h = omega (arith, length-show_digits (suc n) n k h)
length-show_ℤ (negsuc n) k h = omega (arith, length-show_digits (suc (suc n)) (suc n) k h)

-- the fuel of `show_digits` does not show in its output
show_digits_fuel : (f g n : ℕ) → n < f → n < g → show_digits f n ≡ show_digits g n
unfolding show_digits
show_digits_fuel zero g n h h' = elim h [ ]
show_digits_fuel (suc f) zero n h h' = elim h' [ ]
show_digits_fuel (suc f) (suc g) n h h' = elim (Bool-cases (ltb n 10)) [
  | inl small ↦ rw small
  | inr large ↦ rw (large, show_digits_fuel f g (n / 10) (ground arith) (ground arith))
]

show_digits-step :
    (f n : ℕ)
    → ltb n 10 ≡ false
    → show_digits (suc f) n ≡ show_digits f (n / 10) ++ (b'0' + n % 10) ∷ []
unfolding show_digits
show_digits-step f n large = rw large

-- One more digit is written behind the others.
pub show_ℕ-digit : (n c : ℕ) → 0 < n → c < 10 → show_ℕ (10 * n + c) ≡ show_ℕ n ++ (b'0' + c) ∷ []
unfolding show_ℕ
show_ℕ-digit n c positive digit =
    let large : ltb (10 * n + c) 10 ≡ false = ground arith in
    let front : (10 * n + c) / 10 ≡ n = omega arith in
    let back : (10 * n + c) % 10 ≡ c = omega arith in
    let same = show_digits_fuel (10 * n + c) (suc n) n (omega arith) (omega arith) in
    show_digits-step (10 * n + c) (10 * n + c) large ∙ rw (front, back, same)
