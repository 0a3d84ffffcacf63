-- ===== src/Html/InputStreamPreprocessor.antt =====
-- class InputStreamPreprocessor (Html.InputStreamPreprocessor.cpp). A Codepoint stands as its
-- 32-bit pattern; all tests on it are ranges and equations with constants from 0 up.
-- `parse_errors` counts the calls of Parser::ParseError.
pub mod Newlines
mod Runs
use webel.Prelude.{
  ℕ, ◌+◌, Bool, true, false, not, ◌&&◌, ◌||◌, List, [], ◌∷◌, ◌++◌, leb, ltb, ◌==◌, ◌%◌,
  if◌then◌else◌,
}
use webel.Basic.Numbers.{within}

pub data State : Type 0 where
  bom_state normal_state ignore_lf_state : State

pub record Preprocessor : Type 0 where
  pub state : State
  pub parse_errors : ℕ

abbrev pub initial : Preprocessor
initial = record { state = bom_state; parse_errors = 0 }

-- The cases of the switch: 0x000B and the last two code points of each plane from 0 to 16.
listed : ℕ → Bool
listed codepoint = codepoint == 0x000B || ltb codepoint 0x110000 && leb 0xFFFE (codepoint % 0x10000)

unfoldable pub is_valid : ℕ → Bool
unfolding listed
is_valid codepoint =
    if within 0x0001 0x0008 codepoint
    then false
    else if within 0x000E 0x001F codepoint
    then false
    else if within 0x007F 0x009F codepoint
    then false
    else if within 0xFDD0 0xFDEF codepoint
    then false
    else not (listed codepoint)

-- The test at the head of both states that look at the code point.
check : Preprocessor → ℕ → Preprocessor
check p codepoint = record p {
  parse_errors = if is_valid codepoint then p.parse_errors else p.parse_errors + 1;
}

-- `if (codepoint == 0x000D) codepoint = 0x000A;`
abbrev pub cr_to_lf : ℕ → ℕ
cr_to_lf codepoint = if codepoint == 0x0D then 0x0A else codepoint

in_normal_state : Preprocessor → ℕ → Preprocessor × List ℕ
unfolding check
in_normal_state p c =
    let codepoint = cr_to_lf c in
    let p' = check p c in
    (record p' { state = if codepoint == 0x0A then ignore_lf_state else p.state }, codepoint ∷ [])

in_ignore_lf_state : Preprocessor → ℕ → Preprocessor × List ℕ
unfolding check
in_ignore_lf_state p c =
    let codepoint = cr_to_lf c in
    let p' = check p c in
    if not (codepoint == 0x0A)
    then (record p' { state = normal_state }, codepoint ∷ [])
    else (p', [])

in_bom_state : Preprocessor → ℕ → Preprocessor × List ℕ
unfolding in_normal_state
in_bom_state p codepoint =
    let p' = record p { state = normal_state } in
    if not (codepoint == 0xFEFF) then in_normal_state p' codepoint else (p', [])

dispatch : State → Preprocessor → ℕ → Preprocessor × List ℕ
unfolding in_normal_state in_ignore_lf_state in_bom_state
dispatch bom_state = in_bom_state
dispatch normal_state = in_normal_state
dispatch ignore_lf_state = in_ignore_lf_state

unfoldable pub write_element : Preprocessor → ℕ → Preprocessor × List ℕ
unfolding dispatch
write_element p codepoint = dispatch p.state p codepoint

-- UnitStream::write_elements (Basic.IStream.h).
unfoldable pub write_elements : Preprocessor → List ℕ → Preprocessor × List ℕ
write_elements p [] = (p, [])
write_elements p (c ∷ cs) =
    let (p', out) = write_element p c in
    let (p'', more) = write_elements p' cs in (p'', out ++ more)
