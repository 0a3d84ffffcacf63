-- ===== src/Html/InputStreamPreprocessor/Newlines.antt =====
-- What the preprocessor writes (Html.InputStreamPreprocessor.cpp).
use webel.Prelude.{
  ℕ, ◌+◌, ◌≡◌, refl, ap, ◌∙◌, Bool, true, false, List, [], ◌∷◌, ◌++◌, map, ◌==◌, if◌then◌else◌,
  arith, inl, inr, Bool-cases, sym,
}
use webel.Html.InputStreamPreprocessor.{
  State, normal_state, ignore_lf_state, initial, cr_to_lf, write_element, write_elements, is_valid,
}

abbrev pub strip_bom : List ℕ → List ℕ
strip_bom [] = []
strip_bom (c ∷ cs) = if c == 0xFEFF then cs else c ∷ cs

-- Only the first of a run of line feeds is kept; the flag says that one stands in front.
abbrev pub squeeze : Bool → List ℕ → List ℕ
squeeze after [] = []
squeeze true (c ∷ cs) = if c == 0x0A then squeeze true cs else c ∷ squeeze false cs
squeeze false (c ∷ cs) = c ∷ squeeze (c == 0x0A) cs

abbrev pub bad : List ℕ → ℕ
bad [] = 0
bad (c ∷ cs) = (if is_valid c then 0 else 1) + bad cs

abbrev state_of : Bool → State
state_of true = ignore_lf_state
state_of false = normal_state

squeezes :
    (after : Bool) (n : ℕ) (cs : List ℕ)
    → ((write_elements (record { state = state_of after; parse_errors = n }) cs).1
        ≡ squeeze after (map cr_to_lf cs))
      × ((write_elements (record { state = state_of after; parse_errors = n }) cs).0.parse_errors
          ≡ n + bad cs)
unfolding write_elements write_element
squeezes true n [] = (refl, omega arith)
squeezes false n [] = (refl, omega arith)
squeezes true n (c ∷ cs) = ground (
  arith,
  squeezes true n cs,
  squeezes true (n + 1) cs,
  squeezes false n cs,
  squeezes false (n + 1) cs,
)
squeezes false n (c ∷ cs) = ground (
  arith,
  squeezes true n cs,
  squeezes true (n + 1) cs,
  squeezes false n cs,
  squeezes false (n + 1) cs,
)

-- Behind the start the output is the input less a byte order mark at its front, with every CR
-- turned into LF, and of each run of LFs only the first; and each code point that is_valid refuses
-- is one parse error, except a byte order mark at the front.
pub write_elements-squeeze :
    (cs : List ℕ)
    → ((write_elements initial cs).1 ≡ squeeze false (map cr_to_lf (strip_bom cs)))
      × ((write_elements initial cs).0.parse_errors ≡ bad (strip_bom cs))
write_elements-squeeze [] = unfold write_elements in (refl, refl)
write_elements-squeeze (c ∷ cs) = elim (Bool-cases (c == 0xFEFF)) [
  | inl e ↦ rw e (unfold write_elements write_element in ground (arith, squeezes false 0 cs))
  | inr e ↦ rw e (unfold write_elements write_element in ground (arith, squeezes false 0 (c ∷ cs)))
]

squeeze_twice :
    (after : Bool) (front back : List ℕ)
    → squeeze after (map cr_to_lf (front ++ (0x0A ∷ 0x0A ∷ back)))
      ≡ squeeze after (map cr_to_lf (front ++ (0x0A ∷ back)))
squeeze_twice true [] back = refl
squeeze_twice false [] back = refl
squeeze_twice true (c ∷ front) back =
    ground (arith, squeeze_twice true front back, squeeze_twice false front back)
squeeze_twice false (c ∷ front) back =
    ap (◌∷◌ (cr_to_lf c)) (squeeze_twice (cr_to_lf c == 0x0A) front back)

strip_bom_twice :
    (front back : List ℕ)
    → squeeze false (map cr_to_lf (strip_bom (front ++ (0x0A ∷ 0x0A ∷ back))))
      ≡ squeeze false (map cr_to_lf (strip_bom (front ++ (0x0A ∷ back))))
strip_bom_twice [] back = refl
strip_bom_twice (c ∷ front) back = elim (Bool-cases (c == 0xFEFF)) [
  | inl e ↦ rw e (squeeze_twice false front back)
  | inr e ↦ rw e (squeeze_twice false (c ∷ front) back)
]

-- A blank line is lost: wherever two LFs stand in the input, the output is the same as with one.
pub blank_line_lost :
    (front back : List ℕ)
    → (write_elements initial (front ++ (0x0A ∷ 0x0A ∷ back))).1
      ≡ (write_elements initial (front ++ (0x0A ∷ back))).1
blank_line_lost front back =
    (write_elements-squeeze (front ++ (0x0A ∷ 0x0A ∷ back))).0
    ∙ strip_bom_twice front back
    ∙ sym (write_elements-squeeze (front ++ (0x0A ∷ back))).0
