-- ===== src/Base/Int.antt =====
-- Signed integers over the native numbers: the `int`, `int64_t` and `long long` of the source.
use Prim.Native.Nat.{ℕ, suc, ◌-◌, ◌%◌, ◌^◌, ◌<◌}
use mathlib.Core.Path.{◌≡◌, refl}
use mathlib.Core.Logic.{◌↔◌, ◌≢◌}
use mathlib.Core.Bool.{Bool, true, false}
use native.Mathlib.Omega.{arith}
use chat_hub.Base.Tests.{ltb, ◌==◌, if◌then◌else◌}

-- `negsuc n` is -(n + 1).
pub data ℤ : Type 0 where
  pos : ℕ → ℤ
  negsuc : ℕ → ℤ

abbrev pub eq_ℤ : ℤ → ℤ → Bool
eq_ℤ (pos a) (pos b) = a == b
eq_ℤ (negsuc a) (negsuc b) = a == b
eq_ℤ (pos a) (negsuc b) = false
eq_ℤ (negsuc a) (pos b) = false

-- `a > 0`
abbrev pub is_pos : ℤ → Bool
is_pos (pos a) = ltb 0 a
is_pos (negsuc a) = false

-- `abs`, but for the least value of the type
abbrev pub abs : ℤ → ℕ
abs (pos a) = a
abs (negsuc a) = suc a

pub eq_ℤ_iff : (a b : ℤ) → (eq_ℤ a b ≡ true) ↔ (a ≡ b)
eq_ℤ_iff (pos a) (pos b) = ground arith
eq_ℤ_iff (negsuc a) (negsuc b) = ground arith
eq_ℤ_iff (pos a) (negsuc b) = ground arith
eq_ℤ_iff (negsuc a) (pos b) = ground arith

pub eq_ℤ_refl : (a : ℤ) → eq_ℤ a a ≡ true
eq_ℤ_refl a = (eq_ℤ_iff a a).1 refl

pub eq_ℤ-false : (a b : ℤ) → a ≢ b → eq_ℤ a b ≡ false
eq_ℤ-false a b ne = ground (arith, eq_ℤ_iff a b)

-- The value of an `int` with the low 32 bits of an integer (two's complement).
abbrev pub signed_32 : ℕ → ℤ
signed_32 w = if ltb w (2 ^ 31) then pos w else negsuc (2 ^ 32 - w - 1)

abbrev pub to_int : ℤ → ℤ
to_int (pos a) = signed_32 (a % 2 ^ 32)
to_int (negsuc a) = signed_32 (2 ^ 32 - 1 - a % 2 ^ 32)

-- Values of `int` are kept.
pub to_int_pos : (a : ℕ) → a < 2 ^ 31 → to_int (pos a) ≡ pos a
to_int_pos a h = ground arith

pub to_int_negsuc : (a : ℕ) → a < 2 ^ 31 → to_int (negsuc a) ≡ negsuc a
to_int_negsuc a h = ground arith
