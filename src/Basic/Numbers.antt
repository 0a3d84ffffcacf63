-- ===== src/Basic/Numbers.antt =====
-- Digits and number streams: lower_case, base_10 and base_16 of Basic.String.h,
-- Basic.DecNumberStream.h, Basic.HexNumberStream.h and as_base_10, as_base_16 of Basic.String.h.
pub mod Streams
mod Runs
use webel.Prelude.{
  ℕ, ◌+◌, ◌-◌, ◌%◌, ◌≤◌, ◌<◌, ◌≡◌, ◌⊎◌, ◌&&◌, Bool, Option, none, some, arith, leb, if◌then◌else◌,
  refl,
}

abbrev pub within : ℕ → ℕ → ℕ → Bool
within lo hi c = leb lo c && leb c hi

unfoldable pub lower_case : ℕ → ℕ
lower_case character = if within b'A' b'Z' character then character - b'A' + b'a' else character

unfoldable pub base_10 : ℕ → Option ℕ
base_10 character = if within b'0' b'9' character then some ((character - b'0') % 256) else none

unfoldable pub base_16 : ℕ → Option ℕ
base_16 character =
    if within b'0' b'9' character
    then some ((character - b'0') % 256)
    else if within b'a' b'f' character
    then some ((10 + character - b'a') % 256)
    else if within b'A' b'F' character
    then some ((10 + character - b'A') % 256)
    else none

pub base_10-lt : (c : ℕ) {v : ℕ} → base_10 c ≡ some v → v < 10
unfolding base_10
base_10-lt c h = ground arith

pub base_16-lt : (c : ℕ) {v : ℕ} → base_16 c ≡ some v → v < 16
unfolding base_16
base_16-lt c h = ground arith

-- The digit that stands for `v`, as `%02X` prints it.
abbrev pub hex_digit : ℕ → ℕ
hex_digit v = if leb v 9 then b'0' + v else b'A' + v - 10

pub base_16-hex_digit : (v : ℕ) → v < 16 → base_16 (hex_digit v) ≡ some v
unfolding base_16
base_16-hex_digit v h = ground arith
