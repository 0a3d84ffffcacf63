-- ===== src/Json/Tokenizer/Steps.antt =====
-- Reading one code point after the other: what the proofs on the tokenizer chain together.
use webel.Prelude.{sym, ◌>>=◌, ℕ, ◌≡◌, refl, ◌∙◌, List, [], ◌∷◌, ◌++◌, append_assoc, returns, fatal}
use webel.Json.Tokens.{LongDouble, Token}
use webel.Json.Tokenizer.State.{Tokenizer, Emitting, behind}
use webel.Json.Tokenizer.Machine.{write_element, write_elements}

module _ {F : Type 0} where
  pub behind-nil : (m : Emitting F) → behind [] m ≡ m
  behind-nil (returns (t, more)) = refl
  behind-nil fatal = refl

  pub behind-append :
      (xs ys : List (Token F)) (m : Emitting F) → behind xs (behind ys m) ≡ behind (xs ++ ys) m
  behind-append xs ys (returns (t, more)) = rw append_assoc refl
  behind-append xs ys fatal = refl

module _ {F : Type 0} (long_double : LongDouble F) (t : Tokenizer F) (c : ℕ) (cs : List ℕ) where
  pub write_elements-emitting :
      (t' : Tokenizer F) (tokens : List (Token F))
      → write_element long_double t c ≡ returns (t', tokens)
      → write_elements long_double t (c ∷ cs) ≡ behind tokens (write_elements long_double t' cs)
  unfolding write_elements
  write_elements-emitting t' tokens h = rw h refl

  pub write_elements-silent :
      (t' : Tokenizer F)
      → write_element long_double t c ≡ returns (t', [])
      → write_elements long_double t (c ∷ cs) ≡ write_elements long_double t' cs
  write_elements-silent t' h =
      write_elements-emitting t' [] h ∙ behind-nil (write_elements long_double t' cs)

module _ {F : Type 0} (long_double : LongDouble F) where
  after_behind :
      (tokens : List (Token F)) (m : Emitting F) (cs : List ℕ)
      → (behind tokens m >>= λ (t', emitted). behind emitted (write_elements long_double t' cs))
        ≡ behind tokens (m >>= λ (t', emitted). behind emitted (write_elements long_double t' cs))
  after_behind tokens (returns (t', emitted)) cs =
      sym (behind-append tokens emitted (write_elements long_double t' cs))
  after_behind tokens fatal cs = refl

  -- A code point that is read as from another state, once tokens are out.
  pub write_elements-again :
      (t t' : Tokenizer F) (tokens : List (Token F)) (c : ℕ) (cs : List ℕ)
      → write_element long_double t c ≡ behind tokens (write_element long_double t' c)
      → write_elements long_double t (c ∷ cs)
        ≡ behind tokens (write_elements long_double t' (c ∷ cs))
  unfolding write_elements
  write_elements-again t t' tokens c cs h =
      rw h (after_behind tokens (write_element long_double t' c) cs)

  pub write_elements-fatal :
      (t : Tokenizer F) (c : ℕ) (cs : List ℕ)
      → write_element long_double t c ≡ fatal
      → write_elements long_double t (c ∷ cs) ≡ fatal
  unfolding write_elements
  write_elements-fatal t c cs h = rw h refl
