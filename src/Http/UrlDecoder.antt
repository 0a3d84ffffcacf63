-- ===== src/Http/UrlDecoder.antt =====
-- class UrlDecoder (Http.UrlDecoder.cpp, Http.UrlDecoder.h).
pub mod Grammar
mod Runs
use webel.Prelude.{ℕ, ◌+◌, ◌*◌, ◌%◌, none, some, List, [], ◌∷◌, ◌++◌, ◌==◌, if◌then◌else◌}
use webel.Basic.Numbers.{base_16}

pub data State : Type 0 where
  normal_state hex1_state hex2_state hex1_error hex2_error : State

pub record UrlDecoder : Type 0 where
  pub state : State
  pub hex : ℕ

-- Initialize; `hex` is not set there.
abbrev pub initial : ℕ → UrlDecoder
initial hex = record { state = normal_state; hex = hex }

in_normal_state : UrlDecoder → ℕ → UrlDecoder × List ℕ
in_normal_state d b =
    if b == b'+'
    then (d, 0x20 ∷ [])
    else if b == b'%'
    then (record d { hex = 0; state = hex1_state }, [])
    else (d, b ∷ [])

in_hex1_state : UrlDecoder → ℕ → UrlDecoder × List ℕ
in_hex1_state d b = elim (base_16 b) [
  | none ↦ (record d { state = hex1_error }, [])
  | some v ↦ (record d { hex = v; state = hex2_state }, [])
]

in_hex2_state : UrlDecoder → ℕ → UrlDecoder × List ℕ
in_hex2_state d b = elim (base_16 b) [
  | none ↦ (record d { state = hex2_error }, [])
  | some digit_value ↦
      let hex = (d.hex * 0x10 % 256 + digit_value) % 256 in
      (record { hex = hex; state = normal_state }, hex ∷ [])
]

dispatch : State → UrlDecoder → ℕ → UrlDecoder × List ℕ
unfolding in_normal_state in_hex1_state in_hex2_state
dispatch normal_state d b = in_normal_state d b
dispatch hex1_state d b = in_hex1_state d b
dispatch hex2_state d b = in_hex2_state d b
dispatch hex1_error d b = (d, [])
dispatch hex2_error d b = (d, [])

unfoldable pub write_element : UrlDecoder → ℕ → UrlDecoder × List ℕ
unfolding dispatch
write_element d b = dispatch d.state d b

-- UnitStream::write_elements (Basic.IStream.h).
unfoldable pub write_elements : UrlDecoder → List ℕ → UrlDecoder × List ℕ
write_elements d [] = (d, [])
write_elements d (b ∷ bs) =
    let (d', out) = write_element d b in
    let (d'', more) = write_elements d' bs in (d'', out ++ more)
