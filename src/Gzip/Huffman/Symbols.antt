-- ===== src/Gzip/Huffman/Symbols.antt =====
-- Symbols that are read bit by bit from an alphabet (Gzip.Types.h), as length_code_state of
-- Gzip.Deflate.cpp reads them.
use webel.Prelude.{
  ==→eq, Bool, Bool-cases, List, Option, Outcome, [], ap, arith, false, fatal, inl, inr, length,
  ltb, none, refl, returns, some, subst, take, true, ℕ, ◌%◌, ◌&&◌, ◌*◌, ◌++◌, ◌+◌, ◌^◌, ◌∷◌, ◌≡◌,
  Whenever, Whenever-returns, Whenever-if, Whenever-option,
}
use webel.Gzip.Huffman.{
  Alphabet, null_alphabet, node, is_leaf, child, validate, length_counts, first_codes, validated,
  with_counts, make_alphabet,
}

-- The bits do not suffice, a child is missing, or a leaf is reached with bits left.
pub data Symbol : Type 0 where
  incomplete missing : Symbol
  found : (code length symbol : ℕ) (rest : List Bool) → Symbol

abbrev at_child : Alphabet → Symbol → List Bool → Symbol
at_child null_alphabet further bits = missing
at_child (node null_alphabet null_alphabet code length symbol) further bits =
    found code length symbol bits
at_child (node l r code length symbol) further bits = further

unfoldable pub read_symbol : Alphabet → List Bool → Symbol
read_symbol alphabet [] = incomplete
read_symbol alphabet (bit ∷ bits) =
    at_child (child alphabet bit) (read_symbol (child alphabet bit) bits) bits

-- The bits behind a length and a code, as the parameters of validate.
unfoldable pub longer : ℕ → List Bool → ℕ
longer n [] = n
longer n (bit ∷ bits) = longer ((n + 1) % 256) bits

abbrev pub bit_value : Bool → ℕ
bit_value false = 0
bit_value true = 1

unfoldable pub extended : ℕ → List Bool → ℕ
extended code [] = code
extended code (bit ∷ bits) = extended ((code * 2 + bit_value bit) % 2 ^ 16) bits

-- No child is missing, and a symbol that is found bears the length and the code of the bits that
-- led to it.
unfoldable pub IsSound : ℕ → ℕ → List Bool → Symbol → Type 0
IsSound n c bits incomplete = Unit
IsSound n c bits missing = ⊥
IsSound n c bits (found code n' symbol rest) =
    (path : List Bool) × (path ++ rest ≡ bits) × (n' ≡ longer n path) × (code ≡ extended c path)

and_true : (a b : Bool) → (a && b) ≡ true → (a ≡ true) × (b ≡ true)
and_true true true h = (refl, refl)
and_true true false h = cc
and_true false b h = cc

-- A node that is not a leaf hands the test on to both of its children.
validate-children :
    (t : Alphabet) (bit : Bool) (n c : ℕ)
    → validate t n c ≡ true
    → is_leaf t ≡ false
    → validate (child t bit) ((n + 1) % 256) ((c * 2 + bit_value bit) % 2 ^ 16) ≡ true
unfolding validate
validate-children null_alphabet bit n c h k = cc
validate-children (node null_alphabet null_alphabet a m s) bit n c h k = cc
validate-children (node null_alphabet (node l r b o u) a m s) bit n c h k = cc
validate-children (node (node l r b o u) null_alphabet a m s) bit n c h k = cc
validate-children (node (node l r b o u) (node l' r' b' o' u') a m s) false n c h k =
    subst (λ d. validate (node l r b o u) ((n + 1) % 256) (d % 2 ^ 16) ≡ true) (omega arith)
      (and_true _ _ h).0
validate-children (node (node l r b o u) (node l' r' b' o' u') a m s) true n c h k =
    (and_true _ _ h).1

leaf-IsSound :
    (n c a m s : ℕ) (bit : Bool) (bits : List Bool)
    → validate
        (node null_alphabet null_alphabet a m s)
        ((n + 1) % 256)
        ((c * 2 + bit_value bit) % 2 ^ 16)
      ≡ true
    → IsSound n c (bit ∷ bits) (found a m s bits)
unfolding validate IsSound longer extended
leaf-IsSound n c a m s bit bits h =
    let (same_code, same_length) = and_true _ _ h in
    (bit ∷ [], refl, ==→eq _ _ same_length, ==→eq _ _ same_code)

later-IsSound :
    (n c : ℕ) (bit : Bool) (bits : List Bool) (r : Symbol)
    → IsSound ((n + 1) % 256) ((c * 2 + bit_value bit) % 2 ^ 16) bits r
    → IsSound n c (bit ∷ bits) r
unfolding IsSound longer extended
later-IsSound n c bit bits incomplete h = tt
later-IsSound n c bit bits missing h = h
later-IsSound n c bit bits (found a m s rest) (path, e, f, g) =
    (bit ∷ path, ap (λ cs. bit ∷ cs) e, f, g)

step-IsSound :
    (d : Alphabet) (n c : ℕ) (bit : Bool) (bits : List Bool)
    → validate d ((n + 1) % 256) ((c * 2 + bit_value bit) % 2 ^ 16) ≡ true
    → (is_leaf d ≡ false
        → IsSound ((n + 1) % 256) ((c * 2 + bit_value bit) % 2 ^ 16) bits (read_symbol d bits))
    → IsSound n c (bit ∷ bits) (at_child d (read_symbol d bits) bits)
unfolding validate
step-IsSound null_alphabet n c bit bits h f = cc
step-IsSound (node null_alphabet null_alphabet a m s) n c bit bits h f =
    leaf-IsSound n c a m s bit bits h
step-IsSound (node null_alphabet (node l r b o u) a m s) n c bit bits h f =
    later-IsSound n c bit bits _ (f refl)
step-IsSound (node (node l r b o u) t a m s) n c bit bits h f =
    later-IsSound n c bit bits _ (f refl)

-- Where validate accepts an alphabet that has codes, no sequence of bits leads to a missing child,
-- and a symbol that is found bears the length and the code of the bits that led to it. The length
-- counts on from `n` and the code from `c`, as validate does.
pub read_symbol-validate :
    (bits : List Bool) (alphabet : Alphabet) (n c : ℕ)
    → validate alphabet n c ≡ true
    → is_leaf alphabet ≡ false
    → IsSound n c bits (read_symbol alphabet bits)
unfolding read_symbol IsSound
read_symbol-validate [] alphabet n c h k = tt
read_symbol-validate (bit ∷ bits) alphabet n c h k =
    let v = validate-children alphabet bit n c h k in
    step-IsSound (child alphabet bit) n c bit bits v (λ g.
      read_symbol-validate bits (child alphabet bit) ((n + 1) % 256)
        ((c * 2 + bit_value bit) % 2 ^ 16) v g)

-- The alphabets that make_alphabet gives.
abbrev IsValidated : Option Alphabet → Type 0
IsValidated none = Unit
IsValidated (some root) = validate root 0 0 ≡ true

validated-IsValidated : (m : Outcome (Option Alphabet)) → Whenever IsValidated (validated m)
validated-IsValidated fatal = tt
validated-IsValidated (returns none) = tt
validated-IsValidated (returns (some root)) = elim (Bool-cases (validate root 0 0)) [
  | inl e ↦ rw e e
  | inr e ↦ rw e tt
]

with_counts-IsValidated :
    (symbol_values : ℕ) (lengths counts : List ℕ)
    → Whenever IsValidated (with_counts symbol_values lengths counts)
unfolding with_counts
with_counts-IsValidated symbol_values lengths [] = tt
with_counts-IsValidated symbol_values lengths (c ∷ counts) =
    Whenever-if IsValidated (ltb 16 (length (c ∷ counts))) _ _ tt (
      Whenever-option IsValidated (first_codes 1 0 (c ∷ counts)) (returns none) _ tt
        (λ codes. validated-IsValidated _))

make_alphabet-IsValidated :
    (symbol_values count : ℕ) (lengths : List ℕ)
    → Whenever IsValidated (make_alphabet symbol_values count lengths)
unfolding make_alphabet
make_alphabet-IsValidated symbol_values count lengths =
    Whenever-if IsValidated (ltb (length lengths) count) _ _ tt (
      Whenever-option IsValidated (length_counts [] (take count lengths)) (returns none) _ tt
        (λ counts. with_counts-IsValidated symbol_values (take count lengths) counts))

-- In an alphabet that make_alphabet gives and that is not a single leaf, no sequence of bits leads
-- to a missing child, and a symbol that is found bears as its length the number of the bits that led
-- to it, as a byte, and as its code these bits, the first the highest, as a uint16.
pub read_symbol-make_alphabet :
    (symbol_values count : ℕ) (lengths : List ℕ) (root : Alphabet) (bits : List Bool)
    → make_alphabet symbol_values count lengths ≡ returns (some root)
    → is_leaf root ≡ false
    → IsSound 0 0 bits (read_symbol root bits)
read_symbol-make_alphabet symbol_values count lengths root bits h k =
    read_symbol-validate bits root 0 0
      (Whenever-returns IsValidated (make_alphabet symbol_values count lengths) (some root)
        (make_alphabet-IsValidated symbol_values count lengths) h)
      k
