-- ===== src/Json/Tokenizer/Escapes.antt =====
-- The characters that `\u` stands for (Json.Tokenizer.cpp): single codes, surrogate pairs, and codes
-- of a wrong length.
use webel.Prelude.{
  sym, ℕ, ◌+◌, ◌-◌, ◌*◌, ◌/◌, ◌%◌, ◌^◌, ◌<◌, ◌≡◌, ◌≢◌, refl, ◌∙◌, ap, List, [], ◌∷◌, ◌++◌, All,
  length, ne→==, Bool-cases, ltb→lt, inl, inr, true, false, none, returns, fatal, arith, ltb,
  if◌then◌else◌,
}
use webel.Basic.Numbers.{base_16}
use webel.Basic.Numbers.Streams.{NumberStream, horner}
use webel.Basic.Utf8.Scalar.{IsScalar}
use webel.Json.Tokens.{LongDouble, backslash}
use webel.Json.Tokenizer.State.{string_state, error_state, Tokenizer, Emitting}
use webel.Json.Tokenizer.Texts.{end_character_code}
use webel.Json.Tokenizer.Machine.{write_elements}
use webel.Json.Tokenizer.Steps.{behind-nil, write_elements-again, write_elements-fatal}
use webel.Json.Tokenizer.CharacterCodes.{
  ends_in_string, hexadecimal, in_text, coding, code_of, reads_code, ends_fatal,
}

-- The four digits of a 16-bit number, and the escape that holds them.
abbrev pub hex4 : ℕ → List ℕ
hex4 n = n / 0x1000 ∷ n / 0x100 % 0x10 ∷ n / 0x10 % 0x10 ∷ n % 0x10 ∷ []

abbrev pub unit_text : ℕ → List ℕ
unit_text n = backslash ∷ b'u' ∷ hexadecimal (hex4 n)

-- A code point as JSON escapes it: alone, or as a pair of surrogates.
abbrev pub escape_text : ℕ → List ℕ
escape_text v =
    if ltb v 0x10000
    then unit_text v
    else unit_text (0xD800 + (v - 0x10000) / 0x400) ++ unit_text (0xDC00 + (v - 0x10000) % 0x400)

horner-hex4 : (n : ℕ) → n < 0x10000 → horner 0x10 0 (hex4 n) % 2 ^ 64 ≡ n
horner-hex4 n h = omega arith

hex4_digits : (n : ℕ) → n < 0x10000 → All (λ h. h < 16) (hex4 n)
hex4_digits n h = (omega arith, (omega arith, (omega arith, (omega arith, tt))))

base_16-backslash : base_16 backslash ≡ none
unfolding base_16
base_16-backslash = refl

module _ {F : Type 0} (long_double : LongDouble F) (t : Tokenizer F) where
  abbrev run : Tokenizer F → List ℕ → Emitting F
  run = write_elements long_double

  -- The tokenizer behind four digits.
  abbrev coded : ℕ → Tokenizer F
  coded n = coding long_double t (record { value = n; count = 4 })

  reads_unit :
      (n : ℕ) (rest : List ℕ)
      → n < 0x10000
      → run (in_text long_double t) (unit_text n ++ rest) ≡ run (coded n) rest
  reads_unit n rest h =
      reads_code long_double t (n / 0x1000) (n / 0x100 % 0x10 ∷ n / 0x10 % 0x10 ∷ n % 0x10 ∷ [])
        rest (hex4_digits n h) (omega arith)
      ∙ ap (λ v. run (coding long_double t (record { value = v; count = 4 })) rest)
          (horner-hex4 n h)

  wrong_length :
      (s : NumberStream)
      → s.count ≢ 4
      → end_character_code (coding long_double t s)
        ≡ returns (record (coding long_double t s) { state = error_state })
  unfolding end_character_code
  wrong_length s h = rw (ne→== s.count 4 h) refl

  -- In a string, a `\u` with between 1 and 255 upper case hexadecimal digits, not four of them, and a code
  -- point behind them that is no such digit, end the run with a FatalError, whatever follows.
  pub character_code_fatal :
      (h : ℕ) (hs : List ℕ) (c : ℕ) (rest : List ℕ)
      → All (λ h. h < 16) (h ∷ hs)
      → length (h ∷ hs) < 256
      → length (h ∷ hs) ≢ 4
      → base_16 c ≡ none
      → write_elements long_double
          (record t { state = string_state })
          (backslash ∷ b'u' ∷ (hexadecimal (h ∷ hs) ++ c ∷ rest))
        ≡ fatal
  character_code_fatal h hs c rest k l m n =
      reads_code long_double t h hs (c ∷ rest) k l
      ∙ write_elements-fatal long_double _ c rest (
          ends_fatal long_double t (code_of (h ∷ hs)) c (coding long_double t (code_of (h ∷ hs))) n
            (wrong_length (code_of (h ∷ hs)) m))

  -- A code that is no surrogate, and a pair, in a string with no lead surrogate pending.
  ends_alone :
      (n : ℕ)
      → t.utf16_surrogate ≡ false
      → n < 0x10000
      → IsScalar n
      → end_character_code (coded n)
        ≡ returns (record (coded n) { state = string_state; string = t.string ++ n ∷ [] })
  unfolding end_character_code
  ends_alone n h k l = ground arith

  ends_lead :
      (n : ℕ)
      → t.utf16_surrogate ≡ false
      → n < 0x400
      → end_character_code (coded (0xD800 + n))
        ≡ returns (record (coded (0xD800 + n)) {
          state = string_state;
          utf16_surrogate = true;
          utf16_lead_surrogate = 0xD800 + n;
        })
  unfolding end_character_code
  ends_lead n h k = ground arith

  ends_low :
      (n m : ℕ)
      → t.utf16_surrogate ≡ true
      → t.utf16_lead_surrogate ≡ 0xD800 + m
      → n < 0x400
      → end_character_code (coded (0xDC00 + n))
        ≡ returns (record (coded (0xDC00 + n)) {
          state = string_state;
          utf16_surrogate = false;
          string = t.string ++ (0x10000 + m * 0x400 + n) ∷ [];
        })
  unfolding end_character_code
  ends_low n m h k l = ground arith

  continues :
      (n c : ℕ) (rest : List ℕ) (t' : Tokenizer F)
      → base_16 c ≡ none
      → end_character_code (coded n) ≡ returns (record t' { state = string_state })
      → run (coded n) (c ∷ rest) ≡ run (record t' { state = string_state }) (c ∷ rest)
  continues n c rest t' h e =
      write_elements-again long_double _ _ [] c rest (
        ends_in_string long_double t (record { value = n; count = 4 }) c t' h e
        ∙ sym (behind-nil _))
      ∙ behind-nil _

module _ {F : Type 0} (long_double : LongDouble F) where
  -- Both halves of a pair.
  reads_pair :
      (t : Tokenizer F) (m n c : ℕ) (rest : List ℕ)
      → t.utf16_surrogate ≡ false
      → m < 0x400
      → n < 0x400
      → base_16 c ≡ none
      → (t' : Tokenizer F) × (t'.string ≡ t.string ++ (0x10000 + m * 0x400 + n) ∷ [])
        × (t'.utf16_surrogate ≡ false)
        × (write_elements long_double
              (record t { state = string_state })
              ((unit_text (0xD800 + m) ++ unit_text (0xDC00 + n)) ++ c ∷ rest)
            ≡ write_elements long_double (record t' { state = string_state }) (c ∷ rest))
  reads_pair t m n c rest h k l b =
      let low = unit_text (0xDC00 + n) ++ c ∷ rest in
      let t1 : Tokenizer F = record (coded long_double t (0xD800 + m)) {
        utf16_surrogate = true;
        utf16_lead_surrogate = 0xD800 + m;
      } in
      let t2 : Tokenizer F = record (coded long_double t1 (0xDC00 + n)) {
        utf16_surrogate = false;
        string = t1.string ++ (0x10000 + m * 0x400 + n) ∷ [];
      } in
      (
        t2,
        refl,
        refl,
        reads_unit long_double t (0xD800 + m) low (omega arith)
            ∙ continues long_double t (0xD800 + m) _ _ t1 base_16-backslash
                (ends_lead long_double t m h k)
            ∙ reads_unit long_double t1 (0xDC00 + n) (c ∷ rest) (omega arith)
            ∙ continues long_double t1 (0xDC00 + n) c rest t2 b
                (ends_low long_double t1 n m refl refl l),
      )

  below : (v : ℕ) → IsScalar v → ltb v 0x10000 ≡ false → (v - 0x10000) / 0x400 < 0x400
  below v k e = ground arith

  halves :
      (v : ℕ)
      → ltb v 0x10000 ≡ false
      → 0x10000 + (v - 0x10000) / 0x400 * 0x400 + (v - 0x10000) % 0x400 ≡ v
  halves v e = ground arith

  reads_alone :
      (t : Tokenizer F) (v c : ℕ) (rest : List ℕ)
      → t.utf16_surrogate ≡ false
      → v < 0x10000
      → IsScalar v
      → base_16 c ≡ none
      → (t' : Tokenizer F) × (t'.string ≡ t.string ++ v ∷ [])
        × (t'.utf16_surrogate ≡ false)
        × (write_elements long_double (record t { state = string_state }) (unit_text v ++ c ∷ rest)
            ≡ write_elements long_double (record t' { state = string_state }) (c ∷ rest))
  reads_alone t v c rest h k l b =
      let t1 : Tokenizer F = record (coded long_double t v) { string = t.string ++ v ∷ [] } in
      (
        t1,
        refl,
        h,
        reads_unit long_double t v (c ∷ rest) k
            ∙ continues long_double t v c rest t1 b (ends_alone long_double t v h k l),
      )

  -- In a string with no lead surrogate pending, the JSON escape of any Unicode scalar value, one
  -- `\u` code or a pair of them, and a code point behind it that is no hexadecimal digit: the value
  -- is added to the string, and this code point is read in the string, with no surrogate pending.
  pub write_elements-escape_text :
      (t : Tokenizer F) (v c : ℕ) (rest : List ℕ)
      → t.utf16_surrogate ≡ false
      → IsScalar v
      → base_16 c ≡ none
      → (t' : Tokenizer F) × (t'.string ≡ t.string ++ v ∷ [])
        × (t'.utf16_surrogate ≡ false)
        × (write_elements long_double
              (record t { state = string_state })
              (escape_text v ++ c ∷ rest)
            ≡ write_elements long_double (record t' { state = string_state }) (c ∷ rest))
  write_elements-escape_text t v c rest h k b = elim (Bool-cases (ltb v 0x10000)) [
    | inl e ↦ rw e (reads_alone t v c rest h (ltb→lt v 0x10000 e) k b)
    | inr e ↦
        let x = v - 0x10000 in
        let (t', s, u, r) =
          reads_pair t (x / 0x400) (x % 0x400) c rest h (below v k e) (omega arith) b in
        (t', s ∙ ap (λ w. t.string ++ w ∷ []) (halves v e), u, rw e r)
  ]
