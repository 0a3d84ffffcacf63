-- ===== src/Basic/Utf8/Strict.antt =====
-- The decoder keeps its invariant on every byte, emits scalar values only, and accepts without an
-- error only what the encoder writes (Basic.Utf8Decoder.cpp, Basic.Utf8Encoder.cpp).
use native.Mathlib.Decide.{dec_lt}
use webel.Prelude.{
  ℕ, ◌+◌, ◌-◌, ◌*◌, ◌≤◌, ◌<◌, ◌≡◌, refl, sym, ap, ◌∙◌, ◌⊎◌, inl, inr, List, [], ◌∷◌, ◌++◌, All,
  All-append, append-nil, append_assoc, arith,
}
use webel.Basic.Utf8.Decoder.{
  Decoder, set_destination, write_element, write_elements, write_eof, decode, first_byte,
  out_of_bounds,
}
use webel.Basic.Utf8.Encoder.{encode_elements}
use webel.Basic.Utf8.Scalar.{
  IsScalar, waiting, lower3, upper3, lower4, upper4, Reading, idle, two, three, three_seen, four,
  four_seen, four_seen_two, Progress, Progress-first, encode_two, encode_three, encode_four,
}

-- Outside the bounds the byte starts a new sequence, behind one U+FFFD.
out_of_bounds_lem :
    (d : Decoder) (b : ℕ)
    → out_of_bounds d b ≡ (
      (first_byte (set_destination (d.errors + 1)) b).0,
      0xFFFD ∷ (first_byte (set_destination (d.errors + 1)) b).1,
    )
unfolding out_of_bounds
out_of_bounds_lem d b = refl

module _ (d : Decoder) (b : ℕ) (busy : 0 < d.needed) where
  write_outside : (b < d.lower_bound) ⊎ (d.upper_bound < b) → write_element d b ≡ out_of_bounds d b
  unfolding write_element
  write_outside h = ground arith

  Progress-outside :
      (ps : List ℕ)
      → (b < d.lower_bound) ⊎ (d.upper_bound < b)
      → Progress ps b d.errors (write_element d b)
  Progress-outside ps h =
      let first = Progress-first (d.errors + 1) b in
      rw (write_outside h, out_of_bounds_lem)
        (record {
          held = first.held;
          reading = first.reading;
          scalars = (omega arith, first.scalars);
          grows = omega (arith, first.grows);
          exact = λ r q. absurd (omega (arith, first.grows));
        })

-- Whether a byte is inside the bounds.
bounds : (lo hi b : ℕ) → (lo ≤ b) × (b ≤ hi) ⊎ ((b < lo) ⊎ (hi < b))
bounds lo hi b = elim (dec_lt b lo) [
  | yes h ↦ inr (inl h)
  | no h ↦ elim (dec_lt hi b) [ yes k ↦ inr (inr k) | no k ↦ inl (omega arith, omega arith) ]
]

module _ (e b : ℕ) where
  pub inside_two :
      (k : ℕ)
      → 0x80 ≤ b
      → b ≤ 0xBF
      → write_element (waiting 1 0 (k * 64) 0x80 0xBF e) b
        ≡ (set_destination e, (k * 64 + (b - 0x80)) ∷ [])
  unfolding write_element
  inside_two k h1 h2 = ground arith

  pub inside_three :
      (k : ℕ)
      → lower3 k ≤ b
      → b ≤ upper3 k
      → write_element (waiting 2 0 (k * 4096) (lower3 k) (upper3 k) e) b
        ≡ (waiting 2 1 ((k * 64 + (b - 0x80)) * 64) 0x80 0xBF e, [])
  unfolding write_element
  inside_three k h1 h2 = ground arith

  pub inside_three_seen :
      (v : ℕ)
      → 0x80 ≤ b
      → b ≤ 0xBF
      → write_element (waiting 2 1 (v * 64) 0x80 0xBF e) b
        ≡ (set_destination e, (v * 64 + (b - 0x80)) ∷ [])
  unfolding write_element
  inside_three_seen v h1 h2 = ground arith

  pub inside_four :
      (k : ℕ)
      → lower4 k ≤ b
      → b ≤ upper4 k
      → write_element (waiting 3 0 (k * 262144) (lower4 k) (upper4 k) e) b
        ≡ (waiting 3 1 ((k * 64 + (b - 0x80)) * 4096) 0x80 0xBF e, [])
  unfolding write_element
  inside_four k h1 h2 = ground arith

  pub inside_four_seen :
      (v : ℕ)
      → 0x80 ≤ b
      → b ≤ 0xBF
      → write_element (waiting 3 1 (v * 4096) 0x80 0xBF e) b
        ≡ (waiting 3 2 ((v * 64 + (b - 0x80)) * 64) 0x80 0xBF e, [])
  unfolding write_element
  inside_four_seen v h1 h2 = ground arith

  pub inside_four_seen_two :
      (v : ℕ)
      → 0x80 ≤ b
      → b ≤ 0xBF
      → write_element (waiting 3 2 (v * 64) 0x80 0xBF e) b
        ≡ (set_destination e, (v * 64 + (b - 0x80)) ∷ [])
  unfolding write_element
  inside_four_seen_two v h1 h2 = ground arith

pub write_idle : (e b : ℕ) → write_element (set_destination e) b ≡ first_byte (set_destination e) b
unfolding write_element
write_idle e b = refl

-- Every byte keeps the invariant.
pub Progress-write_element :
    {d : Decoder} {ps : List ℕ}
    → Reading d ps
    → (b : ℕ) → Progress ps b d.errors (write_element d b)
Progress-write_element (idle e) b = rw write_idle (Progress-first e b)
Progress-write_element (two e k h1 h2) b = elim (bounds 0x80 0xBF b) [
  | inr out ↦ Progress-outside _ b (omega arith) _ out
  | inl (lo, hi) ↦ rw (inside_two e b k lo hi) (record {
    held = [];
    reading = idle e;
    scalars = (ground arith, tt);
    grows = omega arith;
    exact = λ r q. unfold encode_elements in ground (arith, encode_two r k (b - 0x80));
  })
]
Progress-write_element (three e k h) b = elim (bounds (lower3 k) (upper3 k) b) [
  | inr out ↦
      Progress-outside (waiting 2 0 (k * 4096) (lower3 k) (upper3 k) e) b (omega arith) _ out
  | inl (lo, hi) ↦ rw (inside_three e b k lo hi) (record {
    held = _;
    reading = three_seen e (k * 64 + (b - 0x80)) (ground arith) (ground arith) (ground arith);
    scalars = tt;
    grows = omega arith;
    exact = λ r q. unfold encode_elements in ground arith;
  })
]
Progress-write_element (three_seen e v h1 h2 h3) b = elim (bounds 0x80 0xBF b) [
  | inr out ↦ Progress-outside _ b (omega arith) _ out
  | inl (lo, hi) ↦ rw (inside_three_seen e b v lo hi) (record {
    held = [];
    reading = idle e;
    scalars = (ground arith, tt);
    grows = omega arith;
    exact = λ r q. unfold encode_elements in ground (arith, encode_three r v (b - 0x80));
  })
]
Progress-write_element (four e k h) b = elim (bounds (lower4 k) (upper4 k) b) [
  | inr out ↦
      Progress-outside (waiting 3 0 (k * 262144) (lower4 k) (upper4 k) e) b (omega arith) _ out
  | inl (lo, hi) ↦ rw (inside_four e b k lo hi) (record {
    held = _;
    reading = four_seen e (k * 64 + (b - 0x80)) (ground arith) (ground arith);
    scalars = tt;
    grows = omega arith;
    exact = λ r q. unfold encode_elements in ground arith;
  })
]
Progress-write_element (four_seen e v h1 h2) b = elim (bounds 0x80 0xBF b) [
  | inr out ↦ Progress-outside _ b (omega arith) _ out
  | inl (lo, hi) ↦ rw (inside_four_seen e b v lo hi) (record {
    held = _;
    reading = four_seen_two e (v * 64 + (b - 0x80)) (omega arith) (omega arith);
    scalars = tt;
    grows = omega arith;
    exact = λ r q. unfold encode_elements in ground arith;
  })
]
Progress-write_element (four_seen_two e v h1 h2) b = elim (bounds 0x80 0xBF b) [
  | inr out ↦ Progress-outside _ b (omega arith) _ out
  | inl (lo, hi) ↦ rw (inside_four_seen_two e b v lo hi) (record {
    held = [];
    reading = idle e;
    scalars = (ground arith, tt);
    grows = omega arith;
    exact = λ r q. unfold encode_elements in ground (arith, encode_four r v (b - 0x80));
  })
]

-- The same over a run of bytes.
record Run (ps bs : List ℕ) (errors : ℕ) (r : Decoder × List ℕ) : Type 0 where
  held : List ℕ
  reading : Reading r.0 held
  scalars : All IsScalar r.1
  grows : errors ≤ r.0.errors
  exact :
      (replacement : ℕ) → r.0.errors ≡ errors → encode_elements replacement r.1 ++ held ≡ ps ++ bs

encode_elements-append :
    (r : ℕ) (xs ys : List ℕ)
    → encode_elements r (xs ++ ys) ≡ encode_elements r xs ++ encode_elements r ys
unfolding encode_elements
encode_elements-append r [] ys = refl
encode_elements-append r (x ∷ xs) ys = simp (encode_elements-append r xs ys, append_assoc)

Run-write_elements :
    (bs : List ℕ) (d : Decoder) (ps : List ℕ)
    → Reading d ps
    → Run ps bs d.errors (write_elements d bs)
unfolding write_elements
Run-write_elements [] d ps h = record {
  held = ps;
  reading = h;
  scalars = tt;
  grows = omega arith;
  exact = λ r q. unfold encode_elements in sym (append-nil ps);
}
Run-write_elements (b ∷ bs) d ps h =
    let one = Progress-write_element h b in
    let rest = Run-write_elements bs (write_element d b).0 one.held one.reading in
    record {
      held = rest.held;
      reading = rest.reading;
      scalars = All-append IsScalar (write_element d b).1 _ one.scalars rest.scalars;
      grows = omega (arith, one.grows, rest.grows);
      exact = λ r q.
          rw (encode_elements-append, append_assoc)
            (ap (λ t. encode_elements r (write_element d b).1 ++ t)
                (rest.exact r (omega (arith, one.grows, rest.grows)))
              ∙ sym (append_assoc (encode_elements r (write_element d b).1) one.held bs)
              ∙ ap (λ t. t ++ bs) (one.exact r (omega (arith, one.grows, rest.grows)))
              ∙ append_assoc ps (b ∷ []) bs);
    }

-- The end of the input adds one error if a sequence is unfinished, and nothing otherwise.
write_eof-Reading :
    {d : Decoder} {ps : List ℕ}
    → Reading d ps
    → ((write_eof d ≡ (d, [])) × (ps ≡ []))
      ⊎ (((write_eof d).0.errors ≡ d.errors + 1) × ((write_eof d).1 ≡ 0xFFFD ∷ []))
unfolding write_eof
write_eof-Reading (idle e) = inl (refl, refl)
write_eof-Reading (two e k h1 h2) = inr (refl, refl)
write_eof-Reading (three e k h) = inr (refl, refl)
write_eof-Reading (three_seen e v h1 h2 h3) = inr (refl, refl)
write_eof-Reading (four e k h) = inr (refl, refl)
write_eof-Reading (four_seen e v h1 h2) = inr (refl, refl)
write_eof-Reading (four_seen_two e v h1 h2) = inr (refl, refl)

-- Whatever the bytes are, a decoder from its fresh state to the end of the input emits Unicode
-- scalar values only: no surrogate, and nothing above 0x10FFFF.
pub decode-IsScalar : (bs : List ℕ) → All IsScalar (decode bs).1
decode-IsScalar bs =
    let run = Run-write_elements bs _ [] (idle 0) in
    All-append IsScalar (write_elements (set_destination 0) bs).1 _ run.scalars
      (elim (write_eof-Reading run.reading) [
        | inl (same, nothing) ↦ rw same tt
        | inr (logged, out) ↦ rw out (omega arith, tt)
      ])

-- A byte sequence that is decoded with no error in the log is exactly what the encoder writes for
-- the code points that came out, so no overlong form, no surrogate and no cut sequence passes.
pub encode-decode :
    (replacement : ℕ) (bs : List ℕ)
    → (decode bs).0.errors ≡ 0
    → encode_elements replacement (decode bs).1 ≡ bs
encode-decode r bs q =
    let run = Run-write_elements bs _ [] (idle 0) in
    elim (write_eof-Reading run.reading) [
      | inl (same, nothing) ↦
          rw (same, append-nil) (rw (nothing, append-nil) at (run.exact r (rw same at q)))
      | inr (logged, out) ↦ absurd (omega (arith, logged, q))
    ]
