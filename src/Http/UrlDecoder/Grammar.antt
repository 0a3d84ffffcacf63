-- ===== src/Http/UrlDecoder/Grammar.antt =====
-- The decoder against the grammar of the encoding (Http.UrlDecoder.cpp).
use webel.Prelude.{
  ℕ, ◌+◌, ◌*◌, ◌%◌, ◌<◌, ◌≡◌, ◌≢◌, refl, none, some, Option, List, [], ◌∷◌, ◌↔◌, ◌⊎◌, subst, ==→eq,
  inl, inr, Bool-cases, ◌==◌, arith,
}
use webel.Basic.Numbers.{base_16, base_16-lt}
use webel.Http.UrlDecoder.{
  normal_state, hex1_error, hex2_error, initial, write_element, write_elements,
}

-- `Encodes text out`: the text is an encoding of the bytes `out`.
pub data Encodes : List ℕ → List ℕ → Type 0 where
  stop : Encodes [] []
  plus : {text out : List ℕ} → Encodes text out → Encodes (b'+' ∷ text) (0x20 ∷ out)
  plain :
      {b : ℕ} {text out : List ℕ}
      → b ≢ b'+'
      → b ≢ b'%'
      → Encodes text out
      → Encodes (b ∷ text) (b ∷ out)
  percent :
      {h l hi lo : ℕ} {text out : List ℕ}
      → base_16 h ≡ some hi
      → base_16 l ≡ some lo
      → Encodes text out
      → Encodes (b'%' ∷ h ∷ l ∷ text) ((hi * 16 + lo) ∷ out)

-- In an error state the rest of the input is dropped.
pub hex1_error_absorbs :
    (x : ℕ) (text : List ℕ)
    → write_elements (record { state = hex1_error; hex = x }) text
      ≡ (record { state = hex1_error; hex = x }, [])
unfolding write_elements write_element
hex1_error_absorbs x [] = refl
hex1_error_absorbs x (b ∷ text) = hex1_error_absorbs x text

pub hex2_error_absorbs :
    (x : ℕ) (text : List ℕ)
    → write_elements (record { state = hex2_error; hex = x }) text
      ≡ (record { state = hex2_error; hex = x }, [])
unfolding write_elements write_element
hex2_error_absorbs x [] = refl
hex2_error_absorbs x (b ∷ text) = hex2_error_absorbs x text

byte_value : (hi lo : ℕ) → hi < 16 → lo < 16 → (hi * 0x10 % 256 + lo) % 256 ≡ hi * 16 + lo
byte_value hi lo h k = omega arith

-- The decoder ends in its normal state with `out`.
abbrev pub Decodes : ℕ → List ℕ → List ℕ → Type 0
Decodes x text out =
    let (d, written) = write_elements (initial x) text in (d.state ≡ normal_state) × (written ≡ out)

-- One unit of the text.
module _ (x : ℕ) (text : List ℕ) where
  after_plus :
      write_elements (initial x) (b'+' ∷ text)
      ≡ ((write_elements (initial x) text).0, 0x20 ∷ (write_elements (initial x) text).1)
  unfolding write_elements write_element
  after_plus = refl

  after_plain :
      (b : ℕ)
      → b ≢ b'+'
      → b ≢ b'%'
      → write_elements (initial x) (b ∷ text)
        ≡ ((write_elements (initial x) text).0, b ∷ (write_elements (initial x) text).1)
  unfolding write_elements write_element
  after_plain b p q = ground arith

  after_percent :
      (h l hi lo : ℕ)
      → base_16 h ≡ some hi
      → base_16 l ≡ some lo
      → write_elements (initial x) (b'%' ∷ h ∷ l ∷ text) ≡ (
        (write_elements (initial (hi * 16 + lo)) text).0,
        (hi * 16 + lo) ∷ (write_elements (initial (hi * 16 + lo)) text).1,
      )
  unfolding write_elements write_element
  after_percent h l hi lo p q = ground (arith, byte_value hi lo, base_16-lt h p, base_16-lt l q)

  bad_first :
      (h : ℕ)
      → base_16 h ≡ none
      → write_elements (initial x) (b'%' ∷ h ∷ text) ≡ (record { state = hex1_error; hex = 0 }, [])
  unfolding write_elements write_element
  bad_first h p = ground (arith, hex1_error_absorbs 0 text)

  bad_second :
      (h l hi : ℕ)
      → base_16 h ≡ some hi
      → base_16 l ≡ none
      → write_elements (initial x) (b'%' ∷ h ∷ l ∷ text)
        ≡ (record { state = hex2_error; hex = hi }, [])
  unfolding write_elements write_element
  bad_second h l hi p q = ground (arith, hex2_error_absorbs hi text)

complete : {text out : List ℕ} (x : ℕ) → Encodes text out → Decodes x text out
complete x stop = unfold write_elements in (refl, refl)
complete x (plus {text} e) = rw (after_plus x text) (ground (arith, complete x e))
complete x (plain {b} {text} p q e) = rw (after_plain x text b p q) (ground (arith, complete x e))
complete x (percent {h} {l} {hi} {lo} {text} p q e) =
    rw (after_percent x text h l hi lo p q) (ground (arith, complete (hi * 16 + lo) e))

-- The text of an accepting run follows the grammar.
abbrev Accepted : ℕ → List ℕ → Type 0
Accepted x text =
    let (d, written) = write_elements (initial x) text in
    d.state ≡ normal_state → Encodes text written

Option-cases : (o : Option ℕ) → (o ≡ none) ⊎ ((v : ℕ) × (o ≡ some v))
Option-cases none = inl refl
Option-cases (some v) = inr (v, refl)

Accepted-nil : (x : ℕ) → Accepted x []
unfolding write_elements
Accepted-nil x h = stop

Accepted-percent : (x : ℕ) → Accepted x (b'%' ∷ [])
unfolding write_elements write_element
Accepted-percent x h = absurd (ground arith)

Accepted-first : (h x : ℕ) → Accepted x (b'%' ∷ h ∷ [])
unfolding write_elements write_element
Accepted-first h x q = absurd (ground arith)

Accepted-second :
    (h l : ℕ) (text : List ℕ)
    → ((x : ℕ) → Accepted x text)
    → (x : ℕ) → Accepted x (b'%' ∷ h ∷ l ∷ text)
Accepted-second h l text rest x = elim (Option-cases (base_16 h)) [
  | inl e ↦ rw (bad_first x (l ∷ text) h e) (λ q. absurd (ground arith))
  | inr (hi, e) ↦ elim (Option-cases (base_16 l)) [
    | inl f ↦ rw (bad_second x text h l hi e f) (λ q. absurd (ground arith))
    | inr (lo, f) ↦
        rw (after_percent x text h l hi lo e f) (λ q. percent e f (rest (hi * 16 + lo) q))
  ]
]

Accepted-other :
    (b : ℕ) (text : List ℕ)
    → b ≢ b'%'
    → ((x : ℕ) → Accepted x text)
    → (x : ℕ) → Accepted x (b ∷ text)
Accepted-other b text n rest x = elim (Bool-cases (b == b'+')) [
  | inl f ↦ rw (==→eq b b'+' f, after_plus) (λ h. plus (rest x h))
  | inr f ↦ rw (after_plain x text b (ground arith) n) (λ h. plain (ground arith) n (rest x h))
]

accepted :
    (b : ℕ) (text : List ℕ)
    → ((x : ℕ) → Accepted x (b'%' ∷ text))
    → ((x : ℕ) → Accepted x text)
    → (x : ℕ) → Accepted x (b ∷ text)
accepted b text special rest x = elim (Bool-cases (b == b'%')) [
  | inl e ↦ rw (==→eq b b'%' e) (special x)
  | inr e ↦ Accepted-other b text (ground arith) rest x
]

sound : (text : List ℕ) (x : ℕ) → Accepted x text
sound [] = Accepted-nil
sound (b ∷ []) = accepted b [] Accepted-percent (sound [])
sound (b ∷ h ∷ []) = accepted b (h ∷ []) (Accepted-first h) (sound (h ∷ []))
sound (b ∷ h ∷ l ∷ text) =
    accepted b (h ∷ l ∷ text) (Accepted-second h l text (sound text)) (sound (h ∷ l ∷ text))

-- The decoder ends in its normal state exactly on the texts of the grammar, and has then written
-- exactly the bytes that the text encodes.
pub Decodes-iff : (x : ℕ) (text out : List ℕ) → Decodes x text out ↔ Encodes text out
Decodes-iff x text out = (λ (s, w). subst (Encodes text) w (sound text x s), complete x)
