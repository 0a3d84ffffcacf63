-- ===== src/Basic/TextSanitizer/Runs.antt =====
-- Runs of the sanitizer, and its theorem at a concrete input.
use webel.Prelude.{◌≡◌, refl, List, [], ◌∷◌, ℕ}
use webel.Basic.TextSanitizer.{before_first_word, write_element, write_elements, white_space}
use webel.Basic.TextSanitizer.Words.{join, words, write_elements-join}

abbrev line : List ℕ
line = 0x20 ∷ b'a' ∷ b'b' ∷ 0xA0 ∷ 0x0A ∷ b'c' ∷ 0x09 ∷ []

sanitize_line : (write_elements before_first_word line).1 ≡ b'a' ∷ b'b' ∷ 0x20 ∷ b'c' ∷ []
unfolding write_elements write_element white_space
sanitize_line = refl

write_elements-join_example : (write_elements before_first_word line).1 ≡ join (words line)
write_elements-join_example = write_elements-join line
