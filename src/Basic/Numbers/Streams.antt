-- ===== src/Basic/Numbers/Streams.antt =====
-- DecNumberStream and HexNumberStream: the number behind the pointer `value`, a uint of `modulus`
-- values, and the uint8 `count`. `digit` is base_10 or base_16, `base` 10 or 0x10.
use webel.Prelude.{
  ℕ, ◌+◌, ◌*◌, ◌/◌, ◌%◌, ◌<◌, ◌≡◌, sym, ap, ◌∙◌, Option, none, some, List, [], ◌∷◌, length, arith,
  ◌==◌, if◌then◌else◌,
}
use native.Mathlib.Nat.{mod-add-mod, add-mul-mod_self_left, div-add-mod}

pub record NumberStream : Type 0 where
  pub value : ℕ
  pub count : ℕ

-- reset(): the number itself stays until the first digit.
abbrev pub reset : NumberStream → NumberStream
reset s = record s { count = 0 }

-- The digit has been read as `digit_value`.
unfoldable pub push_digit : ℕ → ℕ → NumberStream → ℕ → NumberStream
push_digit modulus base s digit_value =
    let scaled = if s.count == 0 then 0 else s.value * base % modulus in
    record { value = (scaled + digit_value) % modulus; count = (s.count + 1) % 256 }

-- WriteDigit: `none` is `false`, and nothing is written then.
unfoldable pub write_digit : ℕ → ℕ → (ℕ → Option ℕ) → NumberStream → ℕ → Option NumberStream
unfolding push_digit
write_digit modulus base digit s c = elim (digit c) [
  | none ↦ none
  | some digit_value ↦ some (push_digit modulus base s digit_value)
]

-- Writing a run of digits, all of which are taken.
unfoldable pub push_digits : ℕ → ℕ → NumberStream → List ℕ → NumberStream
push_digits modulus base s [] = s
push_digits modulus base s (v ∷ vs) = push_digits modulus base (push_digit modulus base s v) vs

-- The number that digits stand for, the first the most significant.
abbrev pub horner : ℕ → ℕ → List ℕ → ℕ
horner base acc [] = acc
horner base acc (v ∷ vs) = horner base (acc * base + v) vs

scale_mod : (m base acc v : ℕ) → (acc % m * base % m + v) % m ≡ (acc * base + v) % m
scale_mod m base acc v =
    mod-add-mod (acc % m * base) m v
    ∙ sym (add-mul-mod_self_left (acc % m * base + v) m (acc / m * base))
    ∙ ap (λ t. t % m) (omega (arith, ap (λ (t : ℕ). t * base) (div-add-mod acc m)))

push_digits-later :
    (m base : ℕ) (vs : List ℕ) (acc n : ℕ)
    → 0 < n
    → n + length vs < 256
    → push_digits m base (record { value = acc % m; count = n }) vs
      ≡ record { value = horner base acc vs % m; count = n + length vs }
unfolding push_digits
push_digits-later m base [] acc n h k = ground arith
push_digits-later m base (v ∷ vs) acc n h k =
    ap (λ t. push_digits m base t vs) (one_more)
    ∙ push_digits-later m base vs (acc * base + v) (n + 1) (omega arith) (omega arith)
    ∙ ap (λ t. record { value = horner base (acc * base + v) vs % m; count = t }) (omega arith)
  where
    one_more :
        push_digit m base (record { value = acc % m; count = n }) v
        ≡ record { value = (acc * base + v) % m; count = n + 1 }
    one_more = unfold push_digit in ground (arith, scale_mod m base acc v)

-- Between 1 and 255 digits: the value is the number that they stand for, modulo the width of the
-- number behind the pointer, whatever that number held before, and the count is theirs.
pub push_digits-horner :
    (m base : ℕ) (s : NumberStream) (v : ℕ) (vs : List ℕ)
    → 0 < m
    → length (v ∷ vs) < 256
    → push_digits m base (reset s) (v ∷ vs)
      ≡ record { value = horner base 0 (v ∷ vs) % m; count = length (v ∷ vs) }
unfolding push_digits
push_digits-horner m base s v vs h k =
    ap (λ t. push_digits m base t vs) first
    ∙ push_digits-later m base vs (0 * base + v) 1 (omega arith) (omega arith)
    ∙ ap (λ t. record { value = horner base (0 * base + v) vs % m; count = t }) (omega arith)
  where
    first : push_digit m base (reset s) v ≡ record { value = (0 * base + v) % m; count = 1 }
    first = unfold push_digit in ground arith

-- Behind 256 digits the count is 0 again, so the next digit starts a new number: what was read
-- before it is lost.
pub push_digits-wraps :
    (m base : ℕ) (s : NumberStream) (v : ℕ) (vs : List ℕ) (w d : ℕ)
    → 0 < m
    → length (v ∷ vs) ≡ 255
    → push_digit m base (push_digit m base (push_digits m base (reset s) (v ∷ vs)) w) d
      ≡ record { value = d % m; count = 1 }
push_digits-wraps m base s v vs w d h k =
    rw (push_digits-horner m base s v vs h (omega arith)) (unfold push_digit in ground arith)
