-- ===== src/Gzip/Bits/Reading.antt =====
-- What Deflate::read_next reads (Gzip.Deflate.cpp), against the bits as one number.
use webel.Prelude.{
  All, Bool-cases, List, [], ap, arith, inl, inr, length, ltb, ltb→lt, none, refl, returns, some,
  sym, ℕ, ◌%◌, ◌*◌, ◌+◌, ◌-◌, ◌/◌, ◌<◌, ◌^◌, ◌∙◌, ◌∷◌, ◌≡◌, ◌≤◌, ◌⊎◌, two_pow_add, two_pow_le,
  two_pow_positive,
}
use webel.Basic.Frame.{received_bytes}
use native.Mathlib.Nat.{div-lt_iff_lt-mul, div-add-mod, mod-lt, le_dest, add-mul, mod-eq_of_lt}
use webel.Gzip.Bits.{BitBuffer, push_byte, fill, take_bits, filled, read_next_bits}

-- The bits as one number, the first bit the lowest, and how many there are.
unfoldable pub value : List ℕ → ℕ
value [] = 0
value (b ∷ bs) = b + 256 * value bs

abbrev pub bits : BitBuffer → List ℕ → ℕ
bits s bs = s.buffered_bits + 2 ^ s.buffered_bits_length * value bs

abbrev pub bit_count : BitBuffer → List ℕ → ℕ
bit_count s bs = s.buffered_bits_length + 8 * length bs

-- What a call that asks for `count` bits relies on: no bits above the length, and at most 7 more
-- than are asked for.
abbrev pub IsReady : ℕ → BitBuffer → Type 0
IsReady count s =
    (s.buffered_bits < 2 ^ s.buffered_bits_length) × (s.buffered_bits_length ≤ count + 7)

-- The loop loses no bits, and ends with enough of them or at the end of the bytes.
record Fills (count : ℕ) (s : BitBuffer) (bs : List ℕ) (s' : BitBuffer) (rest : List ℕ)
    : Type 0 where
  same_bits : bits s' rest ≡ bits s bs
  same_count : bit_count s' rest ≡ bit_count s bs
  ready_for : IsReady count s'
  enough : (count ≤ s'.buffered_bits_length) ⊎ (rest ≡ [])

push_lem :
    (s : BitBuffer) (b count : ℕ)
    → b < 256
    → count ≤ 15
    → s.buffered_bits_length < count
    → s.buffered_bits < 2 ^ s.buffered_bits_length
    → (push_byte s b ≡ record {
      buffered_bits = s.buffered_bits + b * 2 ^ s.buffered_bits_length;
      buffered_bits_length = s.buffered_bits_length + 8;
    })
      × (s.buffered_bits + b * 2 ^ s.buffered_bits_length < 2 ^ (s.buffered_bits_length + 8))
unfolding push_byte
push_lem s b count h k l m =
    let n = s.buffered_bits_length in
    let below : b ≤ 255 = omega (arith, h) in
    let (c, e) = le_dest below in
    let product : b * 2 ^ n + c * 2 ^ n ≡ 255 * 2 ^ n =
      sym (add-mul b c (2 ^ n)) ∙ ap (λ (t : ℕ). t * 2 ^ n) e in
    let small = two_pow_le n 14 (omega arith) in
    let bound : b * 2 ^ n < 2 ^ 32 = omega (arith, product, small) in
    let short : n + 8 < 256 = omega (arith, l, k) in
    (
      rw (mod-eq_of_lt bound, mod-eq_of_lt short) refl,
      rw (two_pow_add n 8) (omega (arith, product)),
    )

bits_push :
    (s : BitBuffer) (b : ℕ) (bs : List ℕ)
    → bits
        (record {
          buffered_bits = s.buffered_bits + b * 2 ^ s.buffered_bits_length;
          buffered_bits_length = s.buffered_bits_length + 8;
        })
        bs
      ≡ bits s (b ∷ bs)
unfolding value
bits_push s b bs = rw (two_pow_add s.buffered_bits_length 8) (omega arith)

fill_lem :
    (count : ℕ) (bs : List ℕ) (s : BitBuffer)
    → count ≤ 15
    → All (λ b. b < 256) bs
    → IsReady count s
    → Fills count s bs (fill count s bs).0 (fill count s bs).1
unfolding fill value
fill_lem count [] s h k r = record {
  same_bits = refl;
  same_count = refl;
  ready_for = r;
  enough = inr refl;
}
fill_lem count (b ∷ bs) s h (k, ks) (r, q) = elim (Bool-cases (ltb s.buffered_bits_length count)) [
  | inl e ↦
      let p = push_lem s b count k h (ltb→lt s.buffered_bits_length count e) r in
      let s' : BitBuffer = record {
        buffered_bits = s.buffered_bits + b * 2 ^ s.buffered_bits_length;
        buffered_bits_length = s.buffered_bits_length + 8;
      } in
      let short : s.buffered_bits_length + 8 ≤ count + 7 =
        omega (arith, ltb→lt s.buffered_bits_length count e) in
      let f = fill_lem count bs s' h ks (p.1, short) in
      rw (e, fill)
        (rw p.0 (record {
          same_bits = f.same_bits ∙ bits_push s b bs;
          same_count = f.same_count ∙ omega arith;
          ready_for = f.ready_for;
          enough = f.enough;
        }))
  | inr e ↦
      rw (e, fill)
        (record {
          same_bits = refl;
          same_count = refl;
          ready_for = (r, q);
          enough = inl (ground arith);
        })
]

-- What is taken, and what is left.
take_lem :
    (count : ℕ) (s : BitBuffer) (rest : List ℕ)
    → count ≤ 15
    → count ≤ s.buffered_bits_length
    → IsReady count s
    → (w : ℕ) × (s' : BitBuffer) × (take_bits count s ≡ returns (w, s'))
      × (w < 2 ^ count)
      × (bits s rest ≡ w + 2 ^ count * bits s' rest)
      × (bit_count s rest ≡ count + bit_count s' rest)
      × IsReady 0 s'
unfolding take_bits
take_lem count s rest h l (r, q) =
    let n = s.buffered_bits_length in
    let C = 2 ^ count in
    let Q = 2 ^ (n - count) in
    let split : 2 ^ n ≡ C * Q =
      ap (λ (m : ℕ). 2 ^ m) (omega (arith, l)) ∙ two_pow_add count (n - count) in
    let divided = div-add-mod s.buffered_bits C in
    (
      s.buffered_bits % C,
      record { buffered_bits = s.buffered_bits / C; buffered_bits_length = n - count },
      ground (arith),
      mod-lt s.buffered_bits (two_pow_positive count),
      omega (arith, divided, ap (λ (t : ℕ). t * value rest) split),
      omega (arith, l),
      ((div-lt_iff_lt-mul (two_pow_positive count)).1 (omega (arith, split, r)), omega (arith, q)),
    )

begins :
    (count : ℕ) (s : BitBuffer) (bs : List ℕ)
    → count ≤ 15
    → read_next_bits count s (received_bytes bs) ≡ filled count (fill count s bs)
unfolding read_next_bits
begins count s bs h = ground arith

-- A call that asks for at most 15 bits of an event with bytes. It takes the lowest bits if there are
-- enough of them, and otherwise waits with all of them in the buffer.
pub read_next-bits :
    (count : ℕ) (s : BitBuffer) (bs : List ℕ)
    → count ≤ 15
    → All (λ b. b < 256) bs
    → IsReady count s
    → ((count ≤ bit_count s bs)
        × ((w : ℕ) × (s' : BitBuffer) × (rest : List ℕ) × (read_next_bits count s
                (received_bytes bs)
              ≡ returns (some w, s', received_bytes rest))
            × (w < 2 ^ count)
            × (bits s bs ≡ w + 2 ^ count * bits s' rest)
            × (bit_count s bs ≡ count + bit_count s' rest)
            × IsReady 0 s'))
      ⊎ ((bit_count s bs < count)
          × ((s' : BitBuffer) × (read_next_bits count s (received_bytes bs)
                ≡ returns (none, s', received_bytes []))
              × (bits s' [] ≡ bits s bs)
              × (bit_count s' [] ≡ bit_count s bs)
              × IsReady count s'))
unfolding read_next_bits filled
read_next-bits count s bs h k r =
    let f = fill_lem count bs s h k r in
    let s' = (fill count s bs).0 in
    let rest = (fill count s bs).1 in
    elim (Bool-cases (ltb s'.buffered_bits_length count)) [
      | inl e ↦
          let ended : rest ≡ [] = elim f.enough [
            | inl g ↦ absurd (ground (arith, g, e))
            | inr g ↦ g
          ] in
          inr (
            omega (arith, f.same_count, ap length ended, ltb→lt s'.buffered_bits_length count e),
            (
              s',
              begins count s bs h
                  ∙ rw (e, filled) (ap (λ cs. returns (none, s', received_bytes cs)) ended),
              ap (λ cs. bits s' cs) (sym ended) ∙ f.same_bits,
              ap (λ cs. bit_count s' cs) (sym ended) ∙ f.same_count,
              f.ready_for,
            ),
          )
      | inr e ↦
          let enough : count ≤ s'.buffered_bits_length = ground (arith, e) in
          let (w, t, taken, low, split, counted, ready) =
            take_lem count s' rest h enough f.ready_for in
          inl (
            omega (arith, f.same_count, enough),
            (
              w,
              t,
              rest,
              begins count s bs h ∙ rw (e, filled) (rw taken refl),
              low,
              sym f.same_bits ∙ split,
              sym f.same_count ∙ counted,
              ready,
            ),
          )
    ]
