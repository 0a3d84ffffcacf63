-- ===== src/Json/Tokens.antt =====
-- The tokens of Json.Types.h and the constants of Json.Globals.h, Json.Globals.cpp. A `long double`
-- is an element of a type `F`, and what the code does with it an operation of `LongDouble`.
use webel.Prelude.{ℕ, Bool, true, false, ◌||◌, List, [], ◌∷◌, ◌==◌}

-- Arithmetic on long double: the conversions from uint64 and from int64 (given by its 64-bit
-- pattern), the operators, and pow.
pub record LongDouble (F : Type 0) : Type 0 where
  pub of_uint64 : ℕ → F
  pub of_int64 : ℕ → F
  pub plus : F → F → F
  pub times : F → F → F
  pub divide : F → F → F
  pub pow : F → F → F

pub data Token (F : Type 0) : Type 0 where
  begin_script_token end_script_token begin_parameter_token end_parameter_token : Token F
  token_separator_token : Token F
  token_token : List ℕ → Token F
  begin_array_token begin_object_token end_array_token end_object_token : Token F
  name_separator_token value_separator_token : Token F
  string_token : List ℕ → Token F
  number_token : F → Token F
  bool_token : Bool → Token F
  null_token : Token F

-- The keys of Tokenizer::literal_map.
pub data Literal : Type 0 where
  json_false json_null json_true : Literal

abbrev pub spelling : Literal → List ℕ
spelling json_false = b'f' ∷ b'a' ∷ b'l' ∷ b's' ∷ b'e' ∷ []
spelling json_null = b'n' ∷ b'u' ∷ b'l' ∷ b'l' ∷ []
spelling json_true = b't' ∷ b'r' ∷ b'u' ∷ b'e' ∷ []

-- The values of literal_map.
abbrev pub literal_token : {F : Type 0} → Literal → Token F
literal_token json_false = bool_token false
literal_token json_null = null_token
literal_token json_true = bool_token true

abbrev pub begin_script : ℕ
begin_script = b'<'

abbrev pub end_script : ℕ
end_script = b'>'

abbrev pub begin_parameter : ℕ
begin_parameter = b'('

abbrev pub end_parameter : ℕ
end_parameter = b')'

abbrev pub token_separator : ℕ
token_separator = b'.'

abbrev pub begin_array : ℕ
begin_array = b'['

abbrev pub begin_object : ℕ
begin_object = b'{'

abbrev pub end_array : ℕ
end_array = b']'

abbrev pub end_object : ℕ
end_object = b'}'

abbrev pub name_separator : ℕ
name_separator = b':'

abbrev pub value_separator : ℕ
value_separator = b','

abbrev pub quote : ℕ
quote = 0x22

abbrev pub backslash : ℕ
backslash = 0x5C

-- The code points of `ws`.
abbrev pub ws : ℕ → Bool
ws c = c == 0x20 || c == 0x09 || c == 0x0A || c == 0x0D
