-- ===== src/Gzip/Deflate/Copy.antt =====
-- What the loop over look_back copies (Gzip.Deflate.cpp).
use webel.Prelude.{
  List, [], ap, append-nil, append_assoc, arith, false, get_elem?, length, length-append, ltb, refl,
  returns, some, suc, sym, zero, ℕ, ◌++◌, ◌+◌, ◌-◌, ◌<◌, ◌∙◌, ◌∷◌, ◌≡◌, ◌≤◌,
}
use webel.Gzip.Deflate.{
  length_code_state, after_extra_distance_bits_state, Deflate, goto, write_output,
}
use webel.Gzip.Deflate.Machine.{copy, in_after_extra_distance_bits}

get_elem?-append :
    (xs ys : List ℕ) (i : ℕ) → i < length xs → get_elem? (xs ++ ys) i ≡ get_elem? xs i
get_elem?-append [] ys i h = absurd (omega (arith, h))
get_elem?-append (x ∷ xs) ys zero h = refl
get_elem?-append (x ∷ xs) ys (suc i) h = get_elem?-append xs ys i (omega (arith, h))

get_elem?-behind :
    (xs : List ℕ) (y : ℕ) (ys : List ℕ) → get_elem? (xs ++ y ∷ ys) (length xs) ≡ some y
get_elem?-behind [] y ys = refl
get_elem?-behind (x ∷ xs) y ys = get_elem?-behind xs y ys

get_elem?-below : (xs : List ℕ) (i : ℕ) → i < length xs → (x : ℕ) × (get_elem? xs i ≡ some x)
get_elem?-below [] i h = absurd (omega (arith, h))
get_elem?-below (x ∷ xs) zero h = (x, refl)
get_elem?-below (x ∷ xs) (suc i) h = get_elem?-below xs i (omega (arith, h))

-- The byte that is written first, and the others.
each_copied :
    (back : List ℕ) (v : ℕ) (bytes : List ℕ) (index count : ℕ)
    → get_elem? back index ≡ some v
    → length (back ++ v ∷ []) ≡ length back + 1
    → index < length back
    → ((i : ℕ)
        → i < count
        → get_elem? ((back ++ v ∷ []) ++ bytes) (length (back ++ v ∷ []) + i)
          ≡ get_elem? ((back ++ v ∷ []) ++ bytes) (suc index + i))
    → (i : ℕ) → i < suc count
    → get_elem? (back ++ v ∷ bytes) (length back + i) ≡ get_elem? (back ++ v ∷ bytes) (index + i)
each_copied back v bytes index count e longer h each zero k =
    ap (λ n. get_elem? (back ++ v ∷ bytes) n) (omega arith)
    ∙ get_elem?-behind back v bytes
    ∙ sym e
    ∙ sym (get_elem?-append back (v ∷ bytes) index h)
    ∙ ap (λ n. get_elem? (back ++ v ∷ bytes) n) (omega arith)
each_copied back v bytes index count e longer h each (suc i) k =
    ap (λ n. get_elem? (back ++ v ∷ bytes) n) (omega (arith, longer))
    ∙ ap (λ ys. get_elem? ys (length (back ++ v ∷ []) + i)) (sym (append_assoc back (v ∷ []) bytes))
    ∙ each i (omega (arith, k))
    ∙ ap (λ ys. get_elem? ys (suc index + i)) (append_assoc back (v ∷ []) bytes)
    ∙ ap (λ n. get_elem? (back ++ v ∷ bytes) n) (omega arith)

-- The loop returns, and has written `count` bytes.
copied :
    (count index : ℕ) (d : Deflate)
    → index < length d.look_back
    → (bytes : List ℕ) × (copy count index d ≡ returns (write_output bytes d))
      × (length bytes ≡ count)
      × ((i : ℕ)
          → i < count
          → get_elem? (d.look_back ++ bytes) (length d.look_back + i)
            ≡ get_elem? (d.look_back ++ bytes) (index + i))
unfolding copy
copied zero index d h = (
  [],
  rw (append-nil d.output, append-nil d.look_back) refl,
  refl,
  λ i k. absurd (omega (arith, k)),
)
copied (suc count) index d h =
    let back = d.look_back in
    let (v, e) = get_elem?-below back index h in
    let d' = write_output (v ∷ []) d in
    let longer : length (back ++ v ∷ []) ≡ length back + 1 = length-append back (v ∷ []) in
    let (bytes, f, g, each) = copied count (suc index) d' (omega (arith, longer, h)) in
    (
      v ∷ bytes,
      rw (e, copy)
          (f ∙ rw (append_assoc back (v ∷ []) bytes, append_assoc d.output (v ∷ []) bytes) refl),
      omega (arith, g),
      each_copied back v bytes index count e longer h each,
    )

-- A match whose distance reaches back into the bytes that were written is copied without a fault:
-- behind them stand as many bytes as its length says, and each is the byte that stands the distance
-- before it, be it an old one or one that the match itself has written. Then the next symbol is read.
pub in_after_extra_distance_bits-copies :
    (d : Deflate) (i : ℕ)
    → d.state ≡ after_extra_distance_bits_state
    → 0 < d.extra_bits
    → d.extra_bits ≤ length d.look_back
    → i < d.copy_length
    → (bytes : List ℕ) × (in_after_extra_distance_bits d
        ≡ returns (record (write_output bytes d) { state = length_code_state }))
      × (length bytes ≡ d.copy_length)
      × (get_elem? (d.look_back ++ bytes) (length d.look_back + i)
          ≡ get_elem? (d.look_back ++ bytes) (length d.look_back - d.extra_bits + i))
unfolding in_after_extra_distance_bits goto
in_after_extra_distance_bits-copies d i s h k l =
    let (bytes, run, long, each) =
      copied d.copy_length (length d.look_back - d.extra_bits) d (omega (arith, h, k)) in
    let near : ltb (length d.look_back) d.extra_bits ≡ false = ground (arith, k) in
    (bytes, rw (near, run, s) refl, long, each i l)
