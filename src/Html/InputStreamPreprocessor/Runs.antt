-- ===== src/Html/InputStreamPreprocessor/Runs.antt =====
-- Runs of the preprocessor, and its theorems at concrete inputs.
use webel.Prelude.{◌≡◌, refl, List, [], ◌∷◌, ℕ, false, map}
use webel.Html.InputStreamPreprocessor.{initial, cr_to_lf, is_valid, write_element, write_elements}
use webel.Html.InputStreamPreprocessor.Newlines.{
  strip_bom, squeeze, bad, write_elements-squeeze, blank_line_lost,
}

abbrev page : List ℕ
page = 0xFEFF ∷ b'a' ∷ 0x0D ∷ 0x0A ∷ b'b' ∷ 0x0B ∷ 0x0D ∷ 0x0D ∷ b'c' ∷ []

preprocess_page : (write_elements initial page).1 ≡ b'a' ∷ 0x0A ∷ b'b' ∷ 0x0B ∷ 0x0A ∷ b'c' ∷ []
unfolding write_elements write_element is_valid
preprocess_page = refl

write_elements-squeeze_example :
    ((write_elements initial page).1 ≡ squeeze false (map cr_to_lf (strip_bom page)))
    × ((write_elements initial page).0.parse_errors ≡ bad (strip_bom page))
write_elements-squeeze_example = write_elements-squeeze page

blank_line_lost_example :
    (write_elements initial (b'a' ∷ 0x0A ∷ 0x0A ∷ b'b' ∷ [])).1
    ≡ (write_elements initial (b'a' ∷ 0x0A ∷ b'b' ∷ [])).1
blank_line_lost_example = blank_line_lost (b'a' ∷ []) (b'b' ∷ [])
