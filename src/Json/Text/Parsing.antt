-- ===== src/Json/Text/Parsing.antt =====
-- A Tokenizer whose output is a Text (Json.Parser.cpp): what write_to_stream writes for a value
-- comes back as the value.
use webel.Prelude.{
  >>=-eq-returns, List, Outcome, [], ap, append-nil, false, fatal, inl, inr, refl, returns, sym,
  true, ℕ, ◌++◌, ◌∙◌, ◌∷◌, ◌≡◌,
}
use webel.Json.Tokens.{LongDouble, Token}
use webel.Json.Values.{Value, is_complex, write_to_stream}
use webel.Json.Documents.{tokens}
use webel.Json.Documents.RoundTrip.{write_elements-write_to_stream}
use webel.Json.Tokenizer.State.{start_state, Tokenizer, Emitting, behind}
use webel.Json.Tokenizer.Machine.{write_element, write_elements}
use webel.Json.Tokenizer.Numerals.{Numeral, IsNumeral, numeral_text, numeral_value}
use webel.Json.Script.{Scripting}
use webel.Json.Frames.{Run, written, throws, ◌>>◌}
use webel.Json.Frames.Write.{Replay}
use webel.Json.Frames.Feeding.{Run-cases, feed, feed-written}
use webel.Json.Frames.RoundTrip.{HasDistinctNames, with_numbers}
use webel.Json.Text.Passing.{root_fed}
use webel.Json.Documents.Parts.{blank_delimits}
use webel.Json.Tokenizer.Lexing.{gap_lexes}
use webel.Json.Text.{Text, expecting_root, text_done, write_text}

-- The tokenizer's FatalError among the results of the frames.
abbrev pub emitted : {A : Type 0} → Outcome A → Run A
emitted (returns a) = written a
emitted fatal = throws

module _ {S T : Type 0} (step : S → T → Run S) where
  feed-append :
      (xs ys : List T) (s s' : S)
      → feed step s (xs ++ ys) ≡ written s'
      → (r : S) × (feed step s xs ≡ written r) × (feed step r ys ≡ written s')
  unfolding feed
  feed-append [] ys s s' h = (s, refl, h)
  feed-append (x ∷ xs) ys s s' h = elim (Run-cases (step s x)) [
    | inl f ↦ cc
    | inr (inl f) ↦ cc
    | inr (inr (d, f)) ↦
        let (r, before, after) =
          feed-append xs ys d s' (sym (feed-written step s d x (xs ++ ys) f) ∙ h) in
        (r, feed-written step s d x xs f ∙ before, after)
  ]

module _ {F : Type 0} where
  behind-eq-returns :
      (xs : List (Token F)) (m : Emitting F) {t : Tokenizer F} {ts : List (Token F)}
      → behind xs m ≡ returns (t, ts)
      → (ys : List (Token F)) × (xs ++ ys ≡ ts) × (m ≡ returns (t, ys))
  behind-eq-returns xs (returns (t', ys)) h = (ys, cc, cc)
  behind-eq-returns xs fatal h = cc

module _ {N F : Type 0} (long_double : LongDouble F) (html : Scripting N F)
    (replay : Replay html) where
  -- The code points of a text, each token written to the Text as it is emitted.
  unfoldable pub parse : Tokenizer F → Text N F → List ℕ → Run (Tokenizer F × Text N F)
  parse t text [] = written (t, text)
  parse t text (c ∷ cs) = emitted (write_element long_double t c) >> λ (t', ts).
      feed (write_text html replay) text ts >> λ text'. parse t' text' cs

  parse-write_elements :
      (cs : List ℕ) (t t' : Tokenizer F) (ts : List (Token F)) (text text' : Text N F)
      → write_elements long_double t cs ≡ returns (t', ts)
      → feed (write_text html replay) text ts ≡ written text'
      → parse t text cs ≡ written (t', text')
  unfolding parse write_elements feed
  parse-write_elements [] t t' ts text text' h k =
      let nil : [] ≡ ts = cc in
      let same : t ≡ t' = cc in
      let fed : feed (write_text html replay) text [] ≡ written text' =
        ap (λ us. feed (write_text html replay) text us) nil ∙ k in
      let text_same : text ≡ text' = cc in rw (same, text_same) refl
  parse-write_elements (c ∷ cs) t t' ts text text' h k =
      let ((t1, ts1), before, after) = >>=-eq-returns (write_element long_double t c) _ h in
      let (ts2, split, rest) = behind-eq-returns ts1 (write_elements long_double t1 cs) after in
      let (text1, fed, fed_rest) =
        feed-append (write_text html replay) ts1 ts2 text text'
          (ap (λ us. feed (write_text html replay) text us) split ∙ k) in
      rw (before, fed) (parse-write_elements cs t1 t' ts2 text1 text' rest fed_rest)

module _ {N F : Type 0} (long_double : LongDouble F) (html : Scripting N F) (replay : Replay html)
    (print : F → List ℕ) (numeral_of : F → Numeral)
    (prints : (x : F) → print x ≡ numeral_text (numeral_of x))
    (numerals : (x : F) → IsNumeral (numeral_of x)) where
  -- Where vsprintf_s prints every number as an optional minus sign and between 1 and 255 digits, what
  -- write_to_stream writes for an array or an object in which no object has two members of the same
  -- name, with a blank behind it, is read back by a Tokenizer in start_state that writes to a fresh
  -- Text: the Text ends with this value but for its numbers, and nothing throws. Each number comes
  -- back as what the digits printed for it say, as a uint64, times the sign printed for it, which
  -- need not be the number that was written.
  pub parse-write_to_stream :
      (v : Value F) (t : Tokenizer F) (domain : N)
      → is_complex v ≡ true
      → HasDistinctNames v
      → (t' : Tokenizer F) × (parse long_double html replay
            (record t { state = start_state })
            (expecting_root domain)
            (write_to_stream print v ++ 0x20 ∷ [])
          ≡ written
              (t', text_done (with_numbers (λ x. numeral_value long_double (numeral_of x)) v)))
  unfolding write_elements
  parse-write_to_stream v t domain h k =
      let read : F → F = λ x. numeral_value long_double (numeral_of x) in
      let (t', e) =
        write_elements-write_to_stream long_double print numeral_of prints numerals v t 0x20 []
          blank_delimits in
      let (u, blank) = gap_lexes long_double [] false t' in
      let lexed = e ∙ rw (blank, append-nil (tokens read v)) refl in
      (
        record u { state = start_state },
        parse-write_elements long_double html replay (write_to_stream print v ++ 0x20 ∷ [])
            (record t { state = start_state }) (record u { state = start_state }) (tokens read v)
            (expecting_root domain) (text_done (with_numbers read v)) lexed
            (root_fed html replay v read domain h k),
      )
