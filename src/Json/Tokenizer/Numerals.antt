-- ===== src/Json/Tokenizer/Numerals.antt =====
-- How the tokenizer reads a run of digits in number_state (Json.Tokenizer.cpp).
use webel.Prelude.{
  fatal, ne→==, ℕ, ◌+◌, ◌%◌, ◌<◌, ◌≡◌, ◌≢◌, refl, ◌∙◌, sym, ap, List, [], ◌∷◌, ◌++◌, map, All,
  length, Bool, true, false, none, some, returns, arith, if◌then◌else◌,
}
use webel.Basic.Numbers.{within, base_10, lower_case}
use webel.Basic.Numbers.Streams.{NumberStream, push_digit, push_digits, push_digits-horner, horner}
use webel.Json.Tokens.{quote, LongDouble, number_token}
use webel.Json.Tokenizer.State.{
  start_state, number_state, Tokenizer, minus_one, uint64_values, behind,
}
use webel.Json.Tokenizer.Texts.{symbol, in_start, in_start_default}
use webel.Json.Tokenizer.Numbers.{in_number}
use webel.Json.Tokenizer.Digits.{counting, write_dec_digit-counting, write_dec_digit-none}
use webel.Json.Tokenizer.Depth.{start_depth}
use webel.Json.Tokenizer.Machine.{write_element, write_elements}
use webel.Json.Tokenizer.Steps.{
  behind-nil, write_elements-again, write_elements-again, write_elements-silent,
}

-- The text of digits.
abbrev pub decimal : List ℕ → List ℕ
decimal vs = map (λ v. b'0' + v) vs

-- A number's text: an optional minus sign, and between 1 and 255 digits.
pub record Numeral : Type 0 where
  pub negative : Bool
  pub first : ℕ
  pub others : List ℕ

abbrev pub IsNumeral : Numeral → Type 0
IsNumeral n = All (λ v. v < 10) (n.first ∷ n.others) × (length (n.first ∷ n.others) < 256)

abbrev pub numeral_text : Numeral → List ℕ
numeral_text n =
    if n.negative then b'-' ∷ decimal (n.first ∷ n.others) else decimal (n.first ∷ n.others)

-- A code point that ends a number, whose kind is not seen from it.
abbrev pub IsDelimiter : ℕ → Type 0
IsDelimiter c = (base_10 c ≡ none) × (c ≢ b'.') × (lower_case c ≢ b'e')

base_10-digit : (v : ℕ) → v < 10 → base_10 (b'0' + v) ≡ some v
unfolding base_10
base_10-digit v h = ground arith

digit-within : (v : ℕ) → v < 10 → within b'0' b'9' (b'0' + v) ≡ true
digit-within v h = ground arith

module _ {F : Type 0} (long_double : LongDouble F) (t : Tokenizer F) where
  -- number_state, with what the digit stream has come to.
  abbrev pub numbering : NumberStream → Tokenizer F
  numbering s = record (counting t s) { state = number_state }

  next_digit :
      (s : NumberStream) (v : ℕ)
      → v < 10
      → write_element long_double (numbering s) (b'0' + v)
        ≡ returns (numbering (push_digit uint64_values 10 s v), [])
  unfolding write_element
  next_digit s v h =
      rw
        (
          write_dec_digit-counting (record t { state = number_state }) s (b'0' + v) v
              (base_10-digit v h),
          in_number,
        )
        refl

  many_digits :
      (vs : List ℕ) (s : NumberStream) (rest : List ℕ)
      → All (λ v. v < 10) vs
      → write_elements long_double (numbering s) (decimal vs ++ rest)
        ≡ write_elements long_double (numbering (push_digits uint64_values 10 s vs)) rest
  unfolding push_digits
  many_digits [] s rest h = refl
  many_digits (v ∷ vs) s rest (h, hs) =
      write_elements-silent long_double _ _ _ _ (next_digit s v h)
      ∙ many_digits vs (push_digit uint64_values 10 s v) rest hs

  -- The number that is emitted.
  abbrev pub signed : ℕ → F
  signed whole = long_double.times (long_double.of_uint64 whole) (long_double.of_int64 t.sign)

  end_of_number :
      (s : NumberStream) (c : ℕ)
      → s.count ≢ 0
      → IsDelimiter c
      → write_element long_double (numbering s) c
        ≡ behind (number_token (signed s.value) ∷ []) (
            write_element long_double
              (record (counting t s) { state = start_state; number = signed s.value })
              c)
  unfolding write_element
  end_of_number s c z (h, dot, e) =
      rw (write_dec_digit-none (numbering s) c h, in_number)
        (rw (ne→== s.count 0 z) (
          rw (ne→== c b'.' dot) (
            rw (ne→== (lower_case c) b'e' e) (
              ap (behind (number_token (signed s.value) ∷ [])) (
                sym (
                  start_depth long_double c (λ t c. fatal) 1
                    (record (counting t s) { number = signed s.value })))))))

  -- A whole run of digits, whose number is not 0 digits long, and the delimiter behind it.
  digits_and_end :
      (v : ℕ) (vs : List ℕ) (c : ℕ) (rest : List ℕ)
      → All (λ v. v < 10) (v ∷ vs)
      → length (v ∷ vs) < 256
      → IsDelimiter c
      → (t' : Tokenizer F) × (write_elements long_double
            (numbering (record { value = t.whole; count = 0 }))
            (decimal (v ∷ vs) ++ c ∷ rest)
          ≡ behind
              (number_token (signed (horner 10 0 (v ∷ vs) % uint64_values)) ∷ [])
              (write_elements long_double (record t' { state = start_state }) (c ∷ rest)))
  digits_and_end v vs c rest h k d =
      let s : NumberStream = record {
        value = horner 10 0 (v ∷ vs) % uint64_values;
        count = length (v ∷ vs);
      } in
      (
        record (counting t s) { number = signed s.value },
        many_digits (v ∷ vs) (record { value = t.whole; count = 0 }) (c ∷ rest) h
            ∙ ap (λ s. write_elements long_double (numbering s) (c ∷ rest))
                (push_digits-horner uint64_values 10 (record { value = t.whole; count = 0 }) v vs
                  (omega arith) k)
            ∙ write_elements-again long_double _ _ (number_token (signed s.value) ∷ []) c rest
                (end_of_number s c (ground arith) d),
      )

module _ {F : Type 0} (long_double : LongDouble F) where
  symbol-digit : (v : ℕ) → v < 10 → symbol {F = F} (b'0' + v) ≡ none
  unfolding symbol
  symbol-digit v h = ground arith

  -- A digit in start_state is read as in number_state.
  first_digit :
      (t : Tokenizer F) (v : ℕ)
      → v < 10
      → write_element long_double (record t { state = start_state }) (b'0' + v)
        ≡ write_element long_double
            (numbering long_double (record t { sign = 1 }) (record { value = t.whole; count = 0 }))
            (b'0' + v)
  unfolding write_element
  first_digit t v h =
      rw (symbol-digit v h, in_start)
        (rw (ne→== (b'0' + v) quote (omega arith)) (
          rw (ne→== (b'0' + v) b'-' (omega arith)) (
            rw (digit-within v h, in_start_default)
              (rw
                (
                  write_dec_digit-counting (record t { state = number_state; sign = 1 })
                      (record { value = t.whole; count = 0 }) (b'0' + v) v (base_10-digit v h),
                  in_number,
                )
                refl))))
      ∙ sym (
          next_digit long_double (record t { sign = 1 }) (record { value = t.whole; count = 0 }) v
            h)

  minus :
      (t : Tokenizer F)
      → write_element long_double (record t { state = start_state }) b'-'
        ≡ returns (
          numbering long_double
              (record t { sign = minus_one })
              (record { value = t.whole; count = 0 }),
          [],
        )
  unfolding write_element symbol
  minus t = refl

  -- The value that a numeral is read as.
  abbrev pub numeral_value : Numeral → F
  numeral_value n =
      long_double.times (long_double.of_uint64 (horner 10 0 (n.first ∷ n.others) % uint64_values))
        (long_double.of_int64 (if n.negative then minus_one else 1))

  abbrev numeral : Bool → ℕ → List ℕ → Numeral
  numeral negative v vs = record { negative = negative; first = v; others = vs }

  reads_numeral :
      (negative : Bool) (v : ℕ) (vs : List ℕ) (t : Tokenizer F) (c : ℕ) (rest : List ℕ)
      → IsNumeral (numeral negative v vs)
      → IsDelimiter c
      → (t' : Tokenizer F) × (write_elements long_double
            (record t { state = start_state })
            (numeral_text (numeral negative v vs) ++ c ∷ rest)
          ≡ behind
              (number_token (numeral_value (numeral negative v vs)) ∷ [])
              (write_elements long_double (record t' { state = start_state }) (c ∷ rest)))
  reads_numeral true v vs t c rest (h, k) d =
      let (t', e) = digits_and_end long_double (record t { sign = minus_one }) v vs c rest h k d in
      (t', write_elements-silent long_double _ b'-' _ _ (minus t) ∙ e)
  reads_numeral false v vs t c rest (h, k) d =
      let (t', e) = digits_and_end long_double (record t { sign = 1 }) v vs c rest h k d in
      (
        t',
        write_elements-again long_double _ _ [] _ _ (first_digit t v h.0 ∙ sym (behind-nil _))
            ∙ behind-nil _
            ∙ e,
      )

  -- A numeral, and the delimiter behind it: one token goes out before the delimiter is read.
  pub write_elements-numeral :
      (n : Numeral) (t : Tokenizer F) (c : ℕ) (rest : List ℕ)
      → IsNumeral n
      → IsDelimiter c
      → (t' : Tokenizer F) × (write_elements long_double
            (record t { state = start_state })
            (numeral_text n ++ c ∷ rest)
          ≡ behind
              (number_token (numeral_value n) ∷ [])
              (write_elements long_double (record t' { state = start_state }) (c ∷ rest)))
  write_elements-numeral n = reads_numeral n.negative n.first n.others
