-- ===== src/Basic/TextSanitizer.antt =====
-- class TextSanitizer (Basic.TextSanitizer.cpp), and the table sanitizer_white_space that
-- Globals::Initialize fills (Basic.Globals.cpp). A code point is a number from 0 on: one below 0
-- would be read in front of the table.
pub mod Words
mod Runs
use webel.Prelude.{ℕ, Bool, true, false, not, ◌||◌, List, [], ◌∷◌, ◌++◌, leb, ◌==◌, if◌then◌else◌}

-- The entries of the table that are set.
sanitizer_white_space : ℕ → Bool
sanitizer_white_space c = c == 0x20 || c == 0x09 || c == 0x0D || c == 0x0A || c == 0xA0

unfoldable pub white_space : ℕ → Bool
unfolding sanitizer_white_space
white_space codepoint = if leb 0x100 codepoint then false else sanitizer_white_space codepoint

pub data State : Type 0 where
  before_first_word in_word before_next_word : State

unfoldable pub write_element : State → ℕ → State × List ℕ
write_element before_first_word codepoint =
    if not (white_space codepoint) then (in_word, codepoint ∷ []) else (before_first_word, [])
write_element in_word codepoint =
    if white_space codepoint then (before_next_word, []) else (in_word, codepoint ∷ [])
write_element before_next_word codepoint =
    if not (white_space codepoint) then (in_word, 0x20 ∷ codepoint ∷ []) else (before_next_word, [])

-- UnitStream::write_elements: the elements one by one (Basic.IStream.h).
unfoldable pub write_elements : State → List ℕ → State × List ℕ
write_elements s [] = (s, [])
write_elements s (c ∷ cs) =
    let (s', out) = write_element s c in
    let (s'', more) = write_elements s' cs in (s'', out ++ more)
