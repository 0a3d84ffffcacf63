-- ===== src/Http/BodyFrame/Choice.antt =====
-- Which body follows the headers (Http.BodyFrame.cpp), where a length is a decimal number.
use webel.Prelude.{
  All, Bool, List, Option, [], ap, arith, false, if◌then◌else◌, inl, inr, length, none, refl, some,
  subst, true, ℕ, ◌%◌, ◌*◌, ◌+◌, ◌<◌, ◌==◌, ◌^◌, ◌∙◌, ◌∷◌, ◌≡◌, ◌⊎◌,
}
use native.Mathlib.Nat.{pow-suc, pow-zero, add-mul}
use webel.Basic.Numbers.{base_10}
use webel.Basic.Numbers.Streams.{horner}
use webel.Basic.Uri.{equals_any_case}
use webel.Http.BodyFrame.{
  gzip, identity, chunked, Headers, Body, length_body, as_base_10, get_base_10, of_length,
  by_length, by_transfer_encoding, by_content_encoding, make_body_frame,
}

-- The number that decimal digits stand for, each by its place.
abbrev pub positional : List ℕ → ℕ
positional [] = 0
positional (v ∷ vs) = v * 10 ^ length vs + positional vs

abbrev pub digits_text : List ℕ → List ℕ
digits_text [] = []
digits_text (v ∷ vs) = (b'0' + v) ∷ digits_text vs

-- The content is decoded as gzip, or as it stands.
abbrev pub IsCoding : Option (List ℕ) → Bool → Type 0
IsCoding none decoded = decoded ≡ false
IsCoding (some encoding) true = equals_any_case encoding gzip ≡ true
IsCoding (some encoding) false =
    (equals_any_case encoding gzip ≡ false) × (equals_any_case encoding identity ≡ true)

-- The transfer encoding leaves the length to other headers.
abbrev pub IsPlain : Option (List ℕ) → Type 0
IsPlain none = Unit
IsPlain (some encoding) =
    (equals_any_case encoding chunked ≡ false) × (equals_any_case encoding identity ≡ true)

-- Transfer-length goes first where it is a number.
abbrev pub Announces : Headers → List ℕ → Type 0
Announces h text =
    (h.transfer_length ≡ some text)
    ⊎ ((get_base_10 h.transfer_length ≡ none) × (h.content_length ≡ some text))

base_10-digit_text : (v : ℕ) → v < 10 → base_10 (b'0' + v) ≡ some v
unfolding base_10
base_10-digit_text v h = ground arith

as_base_10-horner :
    (acc : ℕ) (vs : List ℕ)
    → All (λ v. v < 10) vs
    → as_base_10 (acc % 2 ^ 32) (digits_text vs) ≡ some (horner 10 acc vs % 2 ^ 32)
unfolding as_base_10
as_base_10-horner acc [] h = refl
as_base_10-horner acc (v ∷ vs) (h, hs) =
    rw (base_10-digit_text v h, as_base_10)
      (subst (λ n. as_base_10 n (digits_text vs) ≡ some (horner 10 (acc * 10 + v) vs % 2 ^ 32))
        (omega arith) (as_base_10-horner (acc * 10 + v) vs hs))

horner-positional :
    (acc : ℕ) (vs : List ℕ) → horner 10 acc vs ≡ acc * 10 ^ length vs + positional vs
horner-positional acc [] = omega (arith, pow-zero 10)
horner-positional acc (v ∷ vs) =
    horner-positional (acc * 10 + v) vs
    ∙ rw (add-mul (acc * 10) v (10 ^ length vs), pow-suc 10 (length vs)) (omega arith)

as_base_10-positional :
    (vs : List ℕ)
    → All (λ v. v < 10) vs
    → as_base_10 0 (digits_text vs) ≡ some (positional vs % 2 ^ 32)
as_base_10-positional vs h =
    as_base_10-horner 0 vs h ∙ ap (λ n. some (n % 2 ^ 32)) (horner-positional 0 vs ∙ omega arith)

-- The body of a length, where the length is a uint32.
abbrev pub body_of : Bool → ℕ → Option Body
body_of decoded n =
    if n % 2 ^ 32 == 0
    then none
    else some (record { decoded = decoded; framing = of_length (n % 2 ^ 32) })

by_length-transfer :
    (decoded : Bool) (h : Headers) (n : ℕ)
    → get_base_10 h.transfer_length ≡ some n
    → by_length decoded h ≡ length_body decoded n
unfolding by_length
by_length-transfer decoded h n e = rw (e, by_length) refl

by_length-content :
    (decoded : Bool) (h : Headers) (n : ℕ)
    → get_base_10 h.transfer_length ≡ none
    → get_base_10 h.content_length ≡ some n
    → by_length decoded h ≡ length_body decoded n
unfolding by_length
by_length-content decoded h n e f = rw (e, by_length) (rw f refl)

by_length-positional :
    (decoded : Bool) (h : Headers) (vs : List ℕ)
    → All (λ v. v < 10) vs
    → Announces h (digits_text vs)
    → by_length decoded h ≡ body_of decoded (positional vs)
unfolding get_base_10
by_length-positional decoded h vs d (inl e) =
    by_length-transfer decoded h (positional vs % 2 ^ 32)
      (ap get_base_10 e ∙ as_base_10-positional vs d)
by_length-positional decoded h vs d (inr (e, f)) =
    by_length-content decoded h (positional vs % 2 ^ 32) e
      (ap get_base_10 f ∙ as_base_10-positional vs d)

by_transfer_encoding-plain :
    (decoded : Bool) (h : Headers) (encoding : Option (List ℕ))
    → h.transfer_encoding ≡ encoding
    → IsPlain encoding
    → by_transfer_encoding decoded h ≡ by_length decoded h
unfolding by_transfer_encoding
by_transfer_encoding-plain decoded h none e plain = rw e refl
by_transfer_encoding-plain decoded h (some encoding) e (c, i) = rw (e, c, i) refl

by_content_encoding-coding :
    (h : Headers) (encoding : Option (List ℕ)) (decoded : Bool)
    → h.content_encoding ≡ encoding
    → IsCoding encoding decoded
    → by_content_encoding h ≡ by_transfer_encoding decoded h
unfolding by_content_encoding
by_content_encoding-coding h none decoded e d = rw (e, d) refl
by_content_encoding-coding h (some encoding) true e g = rw (e, g) refl
by_content_encoding-coding h (some encoding) false e (g, i) = rw (e, g, i) refl

make_body_frame-typed :
    (h : Headers) (type : List ℕ)
    → h.content_type ≡ some type
    → make_body_frame h ≡ by_content_encoding h
unfolding make_body_frame
make_body_frame-typed h type e = rw e refl

-- With a content type, a content encoding that is absent, gzip or identity, and a transfer encoding
-- that is absent or identity, where transfer-length, or content-length if transfer-length is no
-- number, is a text of decimal digits: with n the number that the digits stand for, each by its
-- place, make_body_frame gives a body of n % 2 ^ 32 bytes, decoded exactly where the encoding is
-- gzip, and no body where n % 2 ^ 32 is 0. So a length below 2 ^ 32 is kept, and one above is not.
pub make_body_frame-positional :
    (h : Headers) (type : List ℕ) (decoded : Bool) (vs : List ℕ)
    → h.content_type ≡ some type
    → IsCoding h.content_encoding decoded
    → IsPlain h.transfer_encoding
    → All (λ v. v < 10) vs
    → Announces h (digits_text vs)
    → make_body_frame h ≡ body_of decoded (positional vs)
make_body_frame-positional h type decoded vs e coding plain digits announces =
    make_body_frame-typed h type e
    ∙ by_content_encoding-coding h h.content_encoding decoded refl coding
    ∙ by_transfer_encoding-plain decoded h h.transfer_encoding refl plain
    ∙ by_length-positional decoded h vs digits announces
