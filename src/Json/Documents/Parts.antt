-- ===== src/Json/Documents/Parts.antt =====
-- The parts of a written value, each read as its tokens (Json.Types.cpp, Json.Tokenizer.cpp).
use webel.Prelude.{some, arith, ℕ, ◌≡◌, refl, sym, Bool, true, false, List, [], ◌∷◌, ◌++◌}
use webel.Basic.Numbers.{base_10, lower_case}
use webel.Json.Tokenizer.Texts.{symbol}
use webel.Json.Tokenizer.Steps.{behind-nil}
use webel.Json.Tokens.{
  LongDouble, Token, name_separator_token, string_token, end_array, end_object, value_separator,
}
use webel.Json.Values.{
  Values, no_values, value_cons, Members, no_members, member_cons, write_value, gap, last_gap,
  name_gap, write_to_stream, write_more, write_more_members,
}
use webel.Json.Tokenizer.Numerals.{IsDelimiter}
use webel.Json.Tokenizer.Lexing.{
  IsDelimited, LexesBefore, LexesBefore-append, symbol_lexes, gap_lexes, last_gap_lexes,
  name_gap_lexes, string_lexes,
}

module _ {F : Type 0} (long_double : LongDouble F) where
  abbrev pub Lexes : List ℕ → List ℕ → List (Token F) → Type 0
  Lexes = LexesBefore long_double

  pub then :
      (xs ys rest : List ℕ) (ts us : List (Token F))
      → Lexes (ys ++ rest) xs ts
      → Lexes rest ys us
      → Lexes rest (xs ++ ys) (ts ++ us)
  then = LexesBefore-append long_double

  -- A bracket or a separator, with the gap behind or before it.
  pub opens :
      (c : ℕ) (token : Token F) (complex : Bool) (rest : List ℕ)
      → symbol c ≡ some token
      → Lexes rest (c ∷ gap complex) (token ∷ [])
  opens c token complex rest h =
      then (c ∷ []) (gap complex) rest (token ∷ []) [] (symbol_lexes long_double _ c token h)
        (gap_lexes long_double rest complex)

  pub closes :
      (c : ℕ) (token : Token F) (complex : Bool) (rest : List ℕ)
      → symbol c ≡ some token
      → Lexes rest (last_gap complex ++ c ∷ []) (token ∷ [])
  closes c token complex rest h =
      then (last_gap complex) (c ∷ []) rest [] (token ∷ []) (last_gap_lexes long_double _ complex)
        (symbol_lexes long_double rest c token h)

  pub empty :
      (c d : ℕ) (token token' : Token F) (rest : List ℕ)
      → symbol c ≡ some token
      → symbol d ≡ some token'
      → Lexes rest (c ∷ d ∷ []) (token ∷ token' ∷ [])
  empty c d token token' rest h k =
      then (c ∷ []) (d ∷ []) rest (token ∷ []) (token' ∷ []) (symbol_lexes long_double _ c token h)
        (symbol_lexes long_double rest d token' k)

  -- A member, behind whose value stands `ys`.
  pub member :
      (n v ys rest : List ℕ) (ts us : List (Token F))
      → Lexes (ys ++ rest) v ts
      → Lexes rest ys us
      → Lexes rest
          (write_value n ++ (name_gap ++ (v ++ ys)))
          (string_token n ∷ name_separator_token ∷ (ts ++ us))
  member n v ys rest ts us h k =
      then (write_value n) (name_gap ++ (v ++ ys)) rest (string_token n ∷ [])
        (name_separator_token ∷ (ts ++ us)) (string_lexes long_double _ n)
        (then name_gap (v ++ ys) rest (name_separator_token ∷ []) (ts ++ us)
          (name_gap_lexes long_double _) (then v ys rest ts us h k))

  pub nothing : (rest : List ℕ) → Lexes rest [] []
  nothing rest t = (t, sym (behind-nil _))

pub blank_delimits : IsDelimiter 0x20
unfolding base_10 lower_case
blank_delimits = (refl, ground arith, ground arith)

pub separator_delimits : IsDelimiter value_separator
unfolding base_10 lower_case
separator_delimits = (refl, ground arith, ground arith)

pub array_delimits : IsDelimiter end_array
unfolding base_10 lower_case
array_delimits = (refl, ground arith, ground arith)

pub object_delimits : IsDelimiter end_object
unfolding base_10 lower_case
object_delimits = (refl, ground arith, ground arith)

-- What stands behind an element begins with a delimiter.
pub last_delimits :
    (complex : Bool) (c : ℕ) (rest : List ℕ)
    → IsDelimiter c
    → IsDelimited ((last_gap complex ++ c ∷ []) ++ rest)
last_delimits true c rest h = h
last_delimits false c rest h = blank_delimits

module _ {F : Type 0} (print : F → List ℕ) where
  pub more_delimits :
      (vs : Values F) (complex : Bool) (rest : List ℕ)
      → IsDelimited rest
      → IsDelimited (write_more print complex vs ++ rest)
  unfolding write_to_stream
  more_delimits no_values complex rest h = h
  more_delimits (value_cons v vs) complex rest h = separator_delimits

  pub more_members_delimits :
      (ms : Members F) (complex : Bool) (rest : List ℕ)
      → IsDelimited rest
      → IsDelimited (write_more_members print complex ms ++ rest)
  unfolding write_to_stream
  more_members_delimits no_members complex rest h = h
  more_members_delimits (member_cons n v ms) complex rest h = separator_delimits
