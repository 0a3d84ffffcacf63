-- ===== src/Gzip/Huffman.antt =====
-- HuffmanAlphabet (Gzip.Types.h): a tree whose leaves hold symbols. A null child is
-- `null_alphabet`. Lengths are bytes, codes uint16; `symbol_values` is 2 to the power of the width
-- of symbol_type. What C++ leaves open, a read outside a vector, stands as `fatal`.
pub mod Symbols
use webel.Prelude.{
  ==_self, ==→eq, All, All-append, Bool, Bool-cases, List, Option, Option-cases, Outcome,
  Outcome-cases, Returns, Returns-returns, [], ap, append-nil, append_assoc, arith, drop,
  drop-append, false, fatal, get_elem?, if◌then◌else◌, inl, inr, leb, leb→le, length, length-append,
  le→leb, ltb, ltb→lt, map, ne→==, none, not, refl, replicate, returns, set, some, subst, suc, sym,
  take, take-append, true, zero, ℕ, ◌%◌, ◌&&◌, ◌*◌, ◌++◌, ◌+◌, ◌-◌, ◌/◌, ◌<◌, ◌==◌, ◌>>=◌, ◌^◌,
  ◌||◌, ◌↔◌, ◌∎, ◌∙◌, ◌∷◌, ◌≡◌, ◌≡⟨◌⟩◌, ◌≢◌, ◌≤◌, ◌⊎◌, two_pow_add, two_pow_le, two_pow_positive,
}

pub data Alphabet : Type 0 where
  null_alphabet : Alphabet
  node : (zero_child one_child : Alphabet) (code length symbol : ℕ) → Alphabet

-- make_shared.
abbrev pub new_node : Alphabet
new_node = node null_alphabet null_alphabet 0 0 0

abbrev pub is_null : Alphabet → Bool
is_null null_alphabet = true
is_null (node l r code length symbol) = false

abbrev pub is_leaf : Alphabet → Bool
is_leaf null_alphabet = false
is_leaf (node l r code length symbol) = is_null l && is_null r

abbrev pub child : Alphabet → Bool → Alphabet
child null_alphabet bit = null_alphabet
child (node l r code length symbol) false = l
child (node l r code length symbol) true = r

-- validate: it is not called on a null pointer.
unfoldable pub validate : Alphabet → ℕ → ℕ → Bool
validate null_alphabet test_length test_code = false
validate (node l r code length symbol) test_length test_code =
    let in_zero = validate l ((test_length + 1) % 256) (test_code * 2 % 2 ^ 16) in
    let in_one = validate r ((test_length + 1) % 256) ((test_code * 2 + 1) % 2 ^ 16) in
    if is_null l
    then (if is_null r then code == test_code && length == test_length else false)
    else if is_null r
    then false
    else in_zero && in_one

-- The first loop of make_alphabet: how many codes there are of each length. `none` is `false`.
abbrev grown : List ℕ → ℕ → List ℕ
grown counts size = counts ++ replicate (size - length counts) 0

abbrev count_of : Option ℕ → ℕ
count_of none = 0
count_of (some n) = n

unfoldable pub count_length : List ℕ → ℕ → Option (List ℕ)
count_length counts n =
    let counts' = grown counts (n + 1) in
    let next = (count_of (get_elem? counts' n) + 1) % 2 ^ 16 in
    if ltb (2 ^ n) next then none else some (set counts' n next)

unfoldable pub length_counts : List ℕ → List ℕ → Option (List ℕ)
length_counts counts [] = some counts
length_counts counts (n ∷ lengths) =
    if n == 0
    then length_counts counts lengths
    else elim (count_length counts n) [ none ↦ none | some counts' ↦ length_counts counts' lengths ]

-- The second loop: the first code of each length from `n` on, behind the count of the length before.
unfoldable pub first_codes : ℕ → ℕ → List ℕ → Option (List ℕ)
first_codes n first_code [] = some []
first_codes n first_code (previous_count ∷ []) = some []
first_codes n first_code (previous_count ∷ d ∷ counts) =
    let next = (first_code + previous_count) % 2 ^ 16 * 2 % 2 ^ 16 in
    let rest = first_codes (suc n) next (d ∷ counts) in
    if ltb (2 ^ n - 1) next
    then none
    else elim rest [ none ↦ none | some codes ↦ some (next ∷ codes) ]

-- One code put into the tree: `depth` bits of it are left, the highest first. `none` is `false`.
abbrev with_child : Alphabet → Bool → Alphabet → Alphabet
with_child null_alphabet bit c = null_alphabet
with_child (node l r code length symbol) false c = node c r code length symbol
with_child (node l r code length symbol) true c = node l c code length symbol

abbrev made : Alphabet → Alphabet
made null_alphabet = new_node
made (node l r code length symbol) = node l r code length symbol

abbrev set_leaf : Alphabet → ℕ → ℕ → ℕ → Option Alphabet
set_leaf null_alphabet code length symbol = none
set_leaf (node l r c n s) code length symbol =
    if n == 0 then some (node l r code length symbol) else none

unfoldable pub place : ℕ → Alphabet → ℕ → ℕ → ℕ → Option Alphabet
place zero current code length symbol = set_leaf current code length symbol
place (suc depth) current code length symbol =
    let bit = code / 2 ^ depth % 2 == 1 in
    elim (place depth (made (child current bit)) code length symbol) [
      | none ↦ none
      | some c ↦ some (with_child current bit c)
    ]

-- The third loop, over the lengths that are left. next_code has an entry for each length.
unfoldable pub place_symbols : ℕ → Alphabet → List ℕ → ℕ → List ℕ → Outcome (Option Alphabet)
place_symbols symbol_values root next_code symbol [] = returns (some root)
place_symbols symbol_values root next_code symbol (n ∷ lengths) =
    if n == 0
    then place_symbols symbol_values root next_code (suc symbol) lengths
    else elim (get_elem? next_code n) [
      | none ↦ fatal
      | some code ↦ elim (place n root code n (symbol % symbol_values)) [
        | none ↦ returns none
        | some root' ↦
            place_symbols symbol_values root' (set next_code n ((code + 1) % 2 ^ 16)) (suc symbol)
              lengths
      ]
    ]

abbrev pub validated : Outcome (Option Alphabet) → Outcome (Option Alphabet)
validated fatal = fatal
validated (returns none) = returns none
validated (returns (some root)) = returns (if validate root 0 0 then some root else none)

-- Behind the counts. Where there is no code at all, max_length is 255, and the second loop reads
-- outside of the counts.
unfoldable pub with_counts : ℕ → List ℕ → List ℕ → Outcome (Option Alphabet)
with_counts symbol_values lengths [] = fatal
with_counts symbol_values lengths (c ∷ counts) =
    if ltb 16 (length (c ∷ counts)) then returns none else elim (first_codes 1 0 (c ∷ counts)) [
      | none ↦ returns none
      | some codes ↦ validated (place_symbols symbol_values new_node (0 ∷ codes) 0 lengths)
    ]

-- make_alphabet: `none` is `false`.
unfoldable pub make_alphabet : ℕ → ℕ → List ℕ → Outcome (Option Alphabet)
make_alphabet symbol_values count lengths =
    if ltb (length lengths) count
    then returns none
    else elim (length_counts [] (take count lengths)) [
      | none ↦ returns none
      | some counts ↦ with_counts symbol_values (take count lengths) counts
    ]
