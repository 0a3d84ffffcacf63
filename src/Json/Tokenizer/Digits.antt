-- ===== src/Json/Tokenizer/Digits.antt =====
-- The number streams of the tokenizer on a digit and on another code point (Json.Tokenizer.h).
use webel.Prelude.{ℕ, ◌≡◌, refl, none, some, returns}
use webel.Basic.Numbers.{base_10, base_16}
use webel.Basic.Numbers.Streams.{NumberStream, push_digit, write_digit}
use webel.Json.Tokenizer.State.{
  Target, null_target, whole_target, fraction_target, exponent_target, Tokenizer, uint64_values,
  write_dec_digit, write_hex_digit,
}

module _ {F : Type 0} where
  not_a_digit :
      (target : Target) (t : Tokenizer F) (c : ℕ)
      → base_10 c ≡ none
      → write_dec_digit (record t { dec_target = target }) c ≡ returns none
  unfolding write_dec_digit write_digit
  not_a_digit null_target t c h = rw (h, write_dec_digit) refl
  not_a_digit whole_target t c h = rw (h, write_dec_digit, write_digit) refl
  not_a_digit fraction_target t c h = rw (h, write_dec_digit, write_digit) refl
  not_a_digit exponent_target t c h = rw (h, write_dec_digit, write_digit) refl

  pub write_dec_digit-none :
      (t : Tokenizer F) (c : ℕ) → base_10 c ≡ none → write_dec_digit t c ≡ returns none
  write_dec_digit-none t c h = not_a_digit t.dec_target t c h

  -- The decimal stream writes to `whole`, and has come to `s`.
  abbrev pub counting : Tokenizer F → NumberStream → Tokenizer F
  counting t s = record t { dec_target = whole_target; whole = s.value; dec_count = s.count }

  pub write_dec_digit-counting :
      (t : Tokenizer F) (s : NumberStream) (c v : ℕ)
      → base_10 c ≡ some v
      → write_dec_digit (counting t s) c
        ≡ returns (some (counting t (push_digit uint64_values 10 s v)))
  unfolding write_dec_digit write_digit
  write_dec_digit-counting t s c v h = rw (h, write_dec_digit, write_digit) refl

  -- The same for the hexadecimal stream.
  abbrev pub hex_counting : Tokenizer F → NumberStream → Tokenizer F
  hex_counting t s = record t { hex_target = whole_target; whole = s.value; hex_count = s.count }

  pub write_hex_digit-none :
      (t : Tokenizer F) (s : NumberStream) (c : ℕ)
      → base_16 c ≡ none
      → write_hex_digit (hex_counting t s) c ≡ returns none
  unfolding write_hex_digit write_digit
  write_hex_digit-none t s c h = rw (h, write_hex_digit, write_digit) refl

  pub write_hex_digit-counting :
      (t : Tokenizer F) (s : NumberStream) (c v : ℕ)
      → base_16 c ≡ some v
      → write_hex_digit (hex_counting t s) c
        ≡ returns (some (hex_counting t (push_digit uint64_values 0x10 s v)))
  unfolding write_hex_digit write_digit
  write_hex_digit-counting t s c v h = rw (h, write_hex_digit, write_digit) refl
