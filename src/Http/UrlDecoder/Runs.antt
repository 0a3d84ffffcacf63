-- ===== src/Http/UrlDecoder/Runs.antt =====
-- Runs of the URL decoder, and its theorem at a concrete input.
use webel.Prelude.{◌≡◌, refl, List, [], ◌∷◌, ℕ, ◌↔◌}
use webel.Basic.Numbers.{base_16}
use webel.Http.UrlDecoder.{initial, hex1_error, write_element, write_elements}
use webel.Http.UrlDecoder.Grammar.{Encodes, Decodes, Decodes-iff}

abbrev text : List ℕ
text = b'a' ∷ b'+' ∷ b'%' ∷ b'2' ∷ b'f' ∷ []

decode_text : (write_elements (initial 0) text).1 ≡ b'a' ∷ 0x20 ∷ 0x2F ∷ []
unfolding write_elements write_element base_16
decode_text = refl

-- A bad escape swallows the rest.
decode_bad :
    write_elements (initial 0) (b'a' ∷ b'%' ∷ b'x' ∷ b'b' ∷ b'c' ∷ [])
    ≡ (record { state = hex1_error; hex = 0 }, b'a' ∷ [])
unfolding write_elements write_element base_16
decode_bad = refl

Decodes-iff_example :
    Decodes 0 text (b'a' ∷ 0x20 ∷ 0x2F ∷ []) ↔ Encodes text (b'a' ∷ 0x20 ∷ 0x2F ∷ [])
Decodes-iff_example = Decodes-iff 0 text (b'a' ∷ 0x20 ∷ 0x2F ∷ [])
