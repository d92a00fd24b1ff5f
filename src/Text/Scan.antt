-- ===== src/Text/Scan.antt =====
-- Words, as `%s` reads them.
use chat_hub.Base.{ℕ, ◌≡◌, refl, ◌≢◌, true, false, some, [], ◌∷◌, ◌++◌, All}
use chat_hub.Text.{Bytes, is_space, span_word, scan_word}

-- bytes that are no white space, one at least
pub record IsWord (w : Bytes) : Type 0 where
  pub some_byte : w ≢ []
  pub solid : All (λ c. is_space c ≡ false) w

-- the end, or white space
abbrev pub IsGap : Bytes → Type 0
IsGap [] = Unit
IsGap (c ∷ t) = is_space c ≡ true

span_word-append :
    (w t : Bytes) → All (λ c. is_space c ≡ false) w → IsGap t → span_word (w ++ t) ≡ (w, t)
unfolding span_word
span_word-append [] [] h g = refl
span_word-append [] (c ∷ t) h g = rw g
span_word-append (c ∷ w) t (hc, h) g = rw (hc, span_word-append w t h g)

-- `%s` reads a word up to the gap behind it.
pub scan_word-append : (w t : Bytes) → IsWord w → IsGap t → scan_word (w ++ t) ≡ some (w, t)
unfolding scan_word
scan_word-append [] t h g = absurd (h.some_byte refl)
scan_word-append (c ∷ w) t h g = rw (h.solid.0, span_word-append w t h.solid.1 g, h.solid.0)

-- White space in front of a word is skipped.
pub scan_word-space : (c : ℕ) (s : Bytes) → is_space c ≡ true → scan_word (c ∷ s) ≡ scan_word s
unfolding scan_word
scan_word-space c s h = rw h
