-- ===== src/Json/Values.antt =====
-- The values of Json.Types.h and write_to_stream of each (Json.Types.cpp). TextWriter passes ASCII
-- on as it is. `print` is what vsprintf_s gives for "%d" and the number. The members of an object
-- stand in the order in which its unordered_map is iterated.
use webel.Prelude.{
  ℕ, Bool, true, false, ◌||◌, Option, none, some, List, [], ◌∷◌, ◌++◌, ◌==◌, if◌then◌else◌,
}
use webel.Json.Tokens.{
  begin_array, end_array, begin_object, end_object, name_separator, value_separator, quote,
  backslash, spelling, json_false, json_null, json_true,
}

mutual
  pub data Value (F : Type 0) : Type 0 where
    null_value : Value F
    bool_value : Bool → Value F
    object_value : Members F → Value F
    array_value : Values F → Value F
    number_value : F → Value F
    string_value : List ℕ → Value F

  pub data Values (F : Type 0) : Type 0 where
    no_values : Values F
    value_cons : Value F → Values F → Values F

  pub data Members (F : Type 0) : Type 0 where
    no_members : Members F
    member_cons : List ℕ → Value F → Members F → Members F

-- The letter that stands behind the backslash for a character.
unfoldable pub escape_letter : ℕ → Option ℕ
escape_letter c =
    if c == 0x22
    then some quote
    else if c == 0x5C
    then some backslash
    else if c == 0x2F
    then some b'/'
    else if c == 0x08
    then some b'b'
    else if c == 0x0C
    then some b'f'
    else if c == 0x0A
    then some b'n'
    else if c == 0x0D
    then some b'r'
    else if c == 0x09
    then some b't'
    else none

abbrev pub escape : ℕ → List ℕ
escape c = elim (escape_letter c) [ some letter ↦ backslash ∷ letter ∷ [] | none ↦ c ∷ [] ]

-- The characters of a string, and String::write_value.
unfoldable pub write_characters : List ℕ → List ℕ
write_characters [] = []
write_characters (c ∷ cs) = escape c ++ write_characters cs

abbrev pub write_value : List ℕ → List ℕ
write_value s = quote ∷ (write_characters s ++ quote ∷ [])

module _ {F : Type 0} where
  abbrev pub is_complex : Value F → Bool
  is_complex (array_value _) = true
  is_complex (object_value _) = true
  is_complex _ = false

  -- `has_complex` of the two containers.
  abbrev pub has_complex : Values F → Bool
  has_complex no_values = false
  has_complex (value_cons v vs) = is_complex v || has_complex vs

  abbrev pub has_complex_member : Members F → Bool
  has_complex_member no_members = false
  has_complex_member (member_cons n v ms) = is_complex v || has_complex_member ms

-- A line break where the container holds containers, else a blank.
abbrev pub gap : Bool → List ℕ
gap true = 0x0D ∷ 0x0A ∷ []
gap false = 0x20 ∷ []

-- Behind the last element: nothing is written in the case of line breaks.
abbrev pub last_gap : Bool → List ℕ
last_gap true = []
last_gap false = 0x20 ∷ []

abbrev pub name_gap : List ℕ
name_gap = 0x20 ∷ name_separator ∷ 0x20 ∷ []

module _ {F : Type 0} (print : F → List ℕ) where
  unfoldable mutual
    pub write_to_stream : Value F → List ℕ
    write_to_stream null_value = spelling json_null
    write_to_stream (bool_value true) = spelling json_true
    write_to_stream (bool_value false) = spelling json_false
    write_to_stream (number_value x) = print x
    write_to_stream (string_value s) = write_value s
    write_to_stream (array_value no_values) = begin_array ∷ end_array ∷ []
    write_to_stream (array_value (value_cons v vs)) =
        let complex = has_complex (value_cons v vs) in
        begin_array
        ∷ (gap complex
            ++ (write_to_stream v
                ++ (write_more complex vs ++ (last_gap complex ++ end_array ∷ []))))
    write_to_stream (object_value no_members) = begin_object ∷ end_object ∷ []
    write_to_stream (object_value (member_cons n v ms)) =
        let complex = has_complex_member (member_cons n v ms) in
        begin_object
        ∷ (gap complex
            ++ (write_value n
                ++ (name_gap
                    ++ (write_to_stream v
                        ++ (write_more_members complex ms
                            ++ (last_gap complex ++ end_object ∷ []))))))

    -- The elements but the first, and the members but the first.
    pub write_more : Bool → Values F → List ℕ
    write_more complex no_values = []
    write_more complex (value_cons v vs) =
        value_separator ∷ (gap complex ++ (write_to_stream v ++ write_more complex vs))

    pub write_more_members : Bool → Members F → List ℕ
    write_more_members complex no_members = []
    write_more_members complex (member_cons n v ms) =
        value_separator
        ∷ (gap complex
            ++ (write_value n
                ++ (name_gap ++ (write_to_stream v ++ write_more_members complex ms))))
