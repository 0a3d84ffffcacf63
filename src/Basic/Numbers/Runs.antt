-- ===== src/Basic/Numbers/Runs.antt =====
-- Runs of the number streams, and their theorems at concrete inputs.
use webel.Prelude.{◌≡◌, refl, none, some, [], ◌∷◌, ◌^◌, ◌%◌, arith, replicate}
use webel.Basic.Numbers.{base_10, base_16}
use webel.Basic.Numbers.Streams.{
  NumberStream, write_digit, push_digit, push_digits, reset, push_digits-horner, push_digits-wraps,
}

abbrev used : NumberStream
used = record { value = 77; count = 3 }

write_digit_hex :
    write_digit (2 ^ 32) 0x10 base_16 (record { value = 0x1A; count = 2 }) b'f'
    ≡ some (record { value = 0x1AF; count = 3 })
unfolding write_digit base_16
write_digit_hex = refl

write_digit_refuses : write_digit (2 ^ 32) 10 base_10 used b'x' ≡ none
unfolding write_digit base_10
write_digit_refuses = refl

push_digits-horner_example :
    push_digits 0x100 10 (reset used) (3 ∷ 0 ∷ 1 ∷ []) ≡ record { value = 301 % 0x100; count = 3 }
push_digits-horner_example =
    push_digits-horner 0x100 10 used 3 (0 ∷ 1 ∷ []) (omega arith) (omega arith)

push_digits-wraps_example :
    push_digit 0x100 10
      (push_digit 0x100 10 (push_digits 0x100 10 (reset used) (1 ∷ replicate 254 0)) 5)
      7
    ≡ record { value = 7; count = 1 }
push_digits-wraps_example =
    push_digits-wraps 0x100 10 used 1 (replicate 254 0) 5 7 (omega arith) refl
