-- ===== src/Basic/TextSanitizer/Words.antt =====
-- The sanitizer against a description by words (Basic.TextSanitizer.cpp).
use webel.Prelude.{ℕ, List, [], ◌∷◌, ◌++◌, ◌≡◌, refl, ap, if◌then◌else◌, inl, inr, Bool-cases}
use webel.Basic.TextSanitizer.{
  State, before_first_word, in_word, before_next_word, white_space, write_element, write_elements,
}

-- The pieces between white space: the first one, and those behind it. Pieces may be empty.
abbrev pub Pieces : Type 0
Pieces = List ℕ × List (List ℕ)

abbrev pub split : List ℕ → Pieces
split [] = ([], [])
split (c ∷ cs) =
    let (first, rest) = split cs in if white_space c then ([], first ∷ rest) else (c ∷ first, rest)

abbrev pub non_empty : List (List ℕ) → List (List ℕ)
non_empty [] = []
non_empty ([] ∷ ws) = non_empty ws
non_empty ((c ∷ w) ∷ ws) = (c ∷ w) ∷ non_empty ws

-- Words, each with a space in front.
abbrev pub spaced : List (List ℕ) → List ℕ
spaced [] = []
spaced (w ∷ ws) = 0x20 ∷ (w ++ spaced ws)

-- Words with one space between two.
abbrev pub join : List (List ℕ) → List ℕ
join [] = []
join (w ∷ ws) = w ++ spaced ws

abbrev pub words : List ℕ → List (List ℕ)
words cs = non_empty ((split cs).0 ∷ (split cs).1)

module _ (cs : List ℕ) where
  abbrev Spec : State → Type 0
  Spec in_word = (write_elements in_word cs).1 ≡ (split cs).0 ++ spaced (non_empty (split cs).1)
  Spec before_next_word = (write_elements before_next_word cs).1 ≡ spaced (words cs)
  Spec before_first_word = (write_elements before_first_word cs).1 ≡ join (words cs)

spec : (s : State) (cs : List ℕ) → Spec cs s
unfolding write_elements write_element
spec in_word [] = refl
spec before_next_word [] = refl
spec before_first_word [] = refl
spec in_word (c ∷ cs) = elim (Bool-cases (white_space c)) [
  | inl e ↦ rw e (spec before_next_word cs)
  | inr e ↦ rw e (ap (◌∷◌ c) (spec in_word cs))
]
spec before_next_word (c ∷ cs) = elim (Bool-cases (white_space c)) [
  | inl e ↦ rw e (spec before_next_word cs)
  | inr e ↦ rw e (ap (λ t. 0x20 ∷ c ∷ t) (spec in_word cs))
]
spec before_first_word (c ∷ cs) = elim (Bool-cases (white_space c)) [
  | inl e ↦ rw e (spec before_first_word cs)
  | inr e ↦ rw e (ap (◌∷◌ c) (spec in_word cs))
]

-- For every input, the sanitizer writes the words of the input, the maximal runs with no white
-- space, in their order and with one space between two: none in front and none behind.
pub write_elements-join : (cs : List ℕ) → (write_elements before_first_word cs).1 ≡ join (words cs)
write_elements-join = spec before_first_word
