-- ===== src/Text/Compare.antt =====
-- `strcmp` decides equality of strings.
use chat_hub.Base.{◌≡◌, refl, ◌≢◌, ◌↔◌, true, false, [], ◌∷◌, ◌++◌, arith}
use chat_hub.Text.{Bytes, same_string}

pub same_string_refl : (s : Bytes) → same_string s s ≡ true
unfolding same_string
same_string_refl [] = refl
same_string_refl (c ∷ s) = ground (arith, same_string_refl s)

pub same_string_sound : (s t : Bytes) → same_string s t ≡ true → s ≡ t
unfolding same_string
same_string_sound [] [] h = refl
same_string_sound [] (b ∷ t) h = ground arith
same_string_sound (a ∷ s) [] h = ground arith
same_string_sound (a ∷ s) (b ∷ t) h = ground (arith, same_string_sound s t)

pub same_string_iff : (s t : Bytes) → (same_string s t ≡ true) ↔ (s ≡ t)
same_string_iff s t = (same_string_sound s t, λ e. rw e (same_string_refl t))

pub same_string-false : (s t : Bytes) → s ≢ t → same_string s t ≡ false
same_string-false s t ne = ground (arith, same_string_iff s t)

-- a common prefix does not matter
pub same_string-append : (p s t : Bytes) → same_string (p ++ s) (p ++ t) ≡ same_string s t
unfolding same_string
same_string-append [] s t = refl
same_string-append (c ∷ p) s t = ground (arith, same_string-append p s t)
