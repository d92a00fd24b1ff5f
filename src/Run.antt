-- ===== src/Run.antt =====
-- What a C function may do: return, or leave the behaviour that the language defines.
-- A loop that never ends is a fault too, so `ok` means that the function returned.
use chat_hub.Base.{◌≡◌, refl, List, Option, none, some, get_elem?, ℕ, arith}

-- a read through NULL, an access outside an array, `% 0`, a loop that does not stop, a variable that
-- is read before it is set
pub data Fault : Type 0 where
  null_pointer : Fault
  out_of_bounds : Fault
  division_by_zero : Fault
  endless : Fault
  uninitialised : Fault

pub data Run {ℓ} (T : Type ℓ) : Type ℓ where
  fault : Fault → Run T
  ok : T → Run T

module _ {ℓ κ} {A : Type ℓ} {B : Type κ} where
  infixl 5 ◌>>=◌
  abbrev pub ◌>>=◌ : Run A → (A → Run B) → Run B
  fault why >>= next = fault why
  ok value >>= next = next value

  pub >>=-eq-ok :
      (run : Run A) (next : A → Run B) {b : B}
      → (run >>= next) ≡ ok b
      → (a : A) × (run ≡ ok a) × (next a ≡ ok b)
  >>=-eq-ok (fault why) next e = ground arith
  >>=-eq-ok (ok value) next e = (value, refl, e)

-- `xs[i]`
abbrev pub read_elem {ℓ} : {A : Type ℓ} → List A → ℕ → Run A
read_elem xs i = elim (get_elem? xs i) [ none ↦ fault out_of_bounds | some a ↦ ok a ]

-- a pointer that is read
abbrev pub deref {ℓ} : {A : Type ℓ} → Option A → Run A
deref none = fault null_pointer
deref (some a) = ok a

module _ {ℓ κ μ} {A : Type ℓ} {B : Type κ} {C : Type μ} where
  pub >>=_assoc :
      (run : Run A) (first : A → Run B) (second : B → Run C)
      → (run >>= first >>= second) ≡ (run >>= λ a. first a >>= second)
  >>=_assoc (fault why) first second = refl
  >>=_assoc (ok value) first second = refl
