-- ===== src/Json/Tokenizer/State.antt =====
-- The fields of class Tokenizer (Json.Tokenizer.h) and what its states share: switching the state,
-- emitting a token, starting a string, the number streams.
use webel.Prelude.{
  ℕ, ◌+◌, ◌^◌, Bool, false, Option, none, some, List, [], ◌∷◌, ◌++◌, Outcome, returns, fatal, ◌>>=◌,
}
use webel.Basic.Frame.{switch_to_state, succeeded_state}
use webel.Basic.Numbers.{base_10, base_16}
use webel.Basic.Numbers.Streams.{write_digit}
use webel.Json.Tokens.{LongDouble, Token, Literal, json_false}

pub data State : Type 0 where
  start_state literal_state token_state string_state escape_state character_code_state : State
  utf16_surrogate_state number_state fraction_state exponent_state done_state error_state : State

-- The numbers of the enum.
abbrev pub code : State → ℕ
code start_state = 0
code literal_state = 1
code token_state = 2
code string_state = 3
code escape_state = 4
code character_code_state = 5
code utf16_surrogate_state = 6
code number_state = 7
code fraction_state = 8
code exponent_state = 9
code done_state = succeeded_state
code error_state = succeeded_state + 1

-- Where a number stream's pointer leads.
pub data Target : Type 0 where
  null_target whole_target fraction_target exponent_target : Target

-- `literal` is the iterator literal_it, and `string` what its pointer leads to, which is set on the
-- way to each state that reads it.
pub record Tokenizer (F : Type 0) : Type 0 where
  pub state : State
  pub matched : ℕ
  pub literal : Literal
  pub string : List ℕ
  pub sign : ℕ
  pub dec_target : Target
  pub dec_count : ℕ
  pub hex_target : Target
  pub hex_count : ℕ
  pub number : F
  pub whole : ℕ
  pub fraction : ℕ
  pub exponent : ℕ
  pub utf16_surrogate : Bool
  pub utf16_lead_surrogate : ℕ

-- A call of write_element: the tokenizer behind it, and the tokens that it emits.
abbrev pub Emitting : Type 0 → Type 0
Emitting F = Outcome (Tokenizer F × List (Token F))

-- The 64-bit pattern of -1.
abbrev pub minus_one : ℕ
minus_one = 0xFFFFFFFFFFFFFFFF

abbrev pub uint64_values : ℕ
uint64_values = 2 ^ 64

module _ {F : Type 0} where
  -- The initializers of the class; `number` is 0 as a long double. The iterator is not set there.
  abbrev pub initial : LongDouble F → Tokenizer F
  initial long_double = record {
    state = start_state;
    matched = 0;
    literal = json_false;
    string = [];
    sign = 0;
    dec_target = null_target;
    dec_count = 0;
    hex_target = null_target;
    hex_count = 0;
    number = long_double.of_uint64 0;
    whole = 0;
    fraction = 0;
    exponent = 0;
    utf16_surrogate = false;
    utf16_lead_surrogate = 0;
  }

  abbrev pub goto : State → Tokenizer F → Outcome (Tokenizer F)
  goto next t =
      switch_to_state (code t.state) (code next) >>= λ _. returns (record t { state = next })

  -- switch_to_state, with nothing emitted, or behind an Emit.
  abbrev pub move : State → Tokenizer F → Emitting F
  move next t = goto next t >>= λ t'. returns (t', [])

  abbrev pub emit_and_move : Token F → State → Tokenizer F → Emitting F
  emit_and_move token next t = goto next t >>= λ t'. returns (t', token ∷ [])

  -- What is emitted before a call that emits too.
  abbrev pub behind : List (Token F) → Emitting F → Emitting F
  behind tokens (returns (t, more)) = returns (t, tokens ++ more)
  behind tokens fatal = fatal

  -- The number that a stream's pointer leads to.
  abbrev pub load : Target → Tokenizer F → Option ℕ
  load null_target t = none
  load whole_target t = some t.whole
  load fraction_target t = some t.fraction
  load exponent_target t = some t.exponent

  abbrev pub store : Target → ℕ → Tokenizer F → Tokenizer F
  store null_target v t = t
  store whole_target v t = record t { whole = v }
  store fraction_target v t = record t { fraction = v }
  store exponent_target v t = record t { exponent = v }

  -- dec_number_stream.WriteDigit: `none` is `false`. A null pointer is followed for a digit only.
  unfoldable pub write_dec_digit : Tokenizer F → ℕ → Outcome (Option (Tokenizer F))
  write_dec_digit t c = elim (load t.dec_target t) [
    | none ↦ elim (base_10 c) [ none ↦ returns none | some _ ↦ fatal ]
    | some v ↦
        elim (write_digit uint64_values 10 base_10 (record { value = v; count = t.dec_count }) c) [
          | none ↦ returns none
          | some s ↦ returns (some (store t.dec_target s.value (record t { dec_count = s.count })))
        ]
  ]

  -- hex_number_stream.WriteDigit.
  unfoldable pub write_hex_digit : Tokenizer F → ℕ → Outcome (Option (Tokenizer F))
  write_hex_digit t c = elim (load t.hex_target t) [
    | none ↦ elim (base_16 c) [ none ↦ returns none | some _ ↦ fatal ]
    | some v ↦
        elim (write_digit uint64_values 0x10 base_16 (record { value = v; count = t.hex_count })
          c) [
            | none ↦ returns none
            | some s ↦
                returns (some (store t.hex_target s.value (record t { hex_count = s.count })))
          ]
  ]
