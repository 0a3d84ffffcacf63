-- ===== src/Gzip/Deflate/Lengths.antt =====
-- The states of Deflate that read the code lengths of a block with alphabets of its own
-- (Gzip.Deflate.cpp).
use webel.Prelude.{
  List, Option, Outcome, [], drop, fatal, get_elem?, if◌then◌else◌, length, ltb, none, replicate,
  returns, set, some, ℕ, ◌%◌, ◌++◌, ◌+◌, ◌-◌, ◌==◌, ◌>>=◌, ◌^◌, ◌||◌, ◌∷◌,
}
use webel.Basic.Frame.{Event, Processed}
use webel.Gzip.Huffman.{Alphabet, null_alphabet, node, is_null, is_leaf, make_alphabet}
use webel.Gzip.Deflate.{
  hdist_state, hclen_state, hclen_lengths_state, lengths_state, lengths_after_extra_bits_state,
  length_code_state, extra_bits_state, lengths_failed, Deflate, hclen_index,
  clen_extra_bits_parameters, alphabet_or, goto, at_once, reading, follow, symbol_of,
}

unfoldable pub in_hlit : Deflate → ℕ → Outcome Deflate
in_hlit d b = goto hdist_state (record d { hlit = b + 257 })

unfoldable pub in_hdist : Deflate → ℕ → Outcome Deflate
in_hdist d b = goto hclen_state (record d { hdist = b + 1 })

unfoldable pub in_hclen : Deflate → ℕ → Outcome Deflate
in_hclen d b = goto hclen_lengths_state (record d {
  hclen = b + 4;
  hclen_count = 0;
  dynamic_code_lengths = d.dynamic_code_lengths ++ replicate (length hclen_index) 0;
})

-- HCLEN_lengths_state where all lengths are there, and where one is read.
unfoldable pub end_hclen_lengths : Deflate → Outcome Deflate
end_hclen_lengths d =
    alphabet_or d.hclen_root
      (make_alphabet (2 ^ 8) (length d.dynamic_code_lengths % 2 ^ 16) d.dynamic_code_lengths)
    >>= λ root.
        goto lengths_state
          (record d { hclen_root = root; hclen_current = root; dynamic_code_lengths = [] })

unfoldable pub receive_hclen_length : Deflate → ℕ → Outcome Deflate
receive_hclen_length d b = elim (get_elem? hclen_index d.hclen_count) [
  | none ↦ fatal
  | some index ↦
      if ltb index (length d.dynamic_code_lengths)
      then returns (record d {
        dynamic_code_lengths = set d.dynamic_code_lengths index b;
        hclen_count = (d.hclen_count + 1) % 256;
      })
      else fatal
]

unfoldable pub in_hclen_lengths : Deflate → Event → Processed Deflate
in_hclen_lengths d event =
    if d.hclen == d.hclen_count
    then at_once event (end_hclen_lengths d)
    else reading 3 receive_hclen_length d event

-- vector::back.
unfoldable pub back : List ℕ → Option ℕ
back [] = none
back (b ∷ []) = some b
back (b ∷ c ∷ bs) = back (c ∷ bs)

-- The alphabet of a single distance code: one leaf, at the bit 0.
abbrev pub single_distance : Alphabet
single_distance = node (node null_alphabet null_alphabet 0 1 0) null_alphabet 0 0 0

unfoldable pub single_distance_root : Deflate → List ℕ → Outcome Alphabet
single_distance_root d lengths = elim (back lengths) [
  | none ↦ fatal
  | some n ↦
      if n == 0
      then returns null_alphabet
      else if n == 1
      then returns single_distance
      else returns d.hdist_root
]

unfoldable pub distance_root : Deflate → List ℕ → Outcome Alphabet
distance_root d lengths =
    if d.hdist == 1
    then single_distance_root d lengths
    else alphabet_or d.hdist_root (make_alphabet (2 ^ 8) d.hdist lengths)

-- lengths_state where all lengths are there.
unfoldable pub end_lengths : Deflate → Outcome Deflate
end_lengths d =
    alphabet_or d.hlit_root (make_alphabet (2 ^ 16) d.hlit d.dynamic_code_lengths) >>= λ literals.
    distance_root d (drop d.hlit d.dynamic_code_lengths) >>= λ distances.
    goto length_code_state (record d {
      hlit_root = literals;
      hlit_current = literals;
      hdist_root = distances;
      hdist_current = distances;
      dynamic_code_lengths = [];
    })

-- The leaf of a code length, or of a repetition.
unfoldable pub receive_length_symbol : Deflate → ℕ → Outcome Deflate
receive_length_symbol d symbol =
    let d' = record d { hclen_current = d.hclen_root } in
    if ltb symbol 16
    then returns (record d' { dynamic_code_lengths = d.dynamic_code_lengths ++ symbol ∷ [] })
    else elim (get_elem? clen_extra_bits_parameters (symbol - 16)) [
      | none ↦ fatal
      | some parameters ↦ goto extra_bits_state (record d' {
        symbol_with_extra_bits = symbol;
        extra_bits_parameters = parameters;
        state_after_extra_bits = lengths_after_extra_bits_state;
        extra_bits = 0;
      })
    ]

unfoldable pub receive_length_bit : Deflate → ℕ → Outcome Deflate
receive_length_bit d b = follow d.hclen_current b >>= λ current.
    let d' = record d { hclen_current = current } in
    if is_null current
    then goto lengths_failed d'
    else if is_leaf current
    then receive_length_symbol d' (symbol_of current)
    else returns d'

unfoldable pub in_lengths : Deflate → Event → Processed Deflate
in_lengths d event =
    let expected = d.hlit + d.hdist in
    if ltb expected (length d.dynamic_code_lengths)
    then at_once event (goto lengths_failed d)
    else if length d.dynamic_code_lengths == expected
    then at_once event (end_lengths d)
    else reading 1 receive_length_bit d event

abbrev pub repeated : Deflate → ℕ → Deflate
repeated d b = record d {
  dynamic_code_lengths = d.dynamic_code_lengths ++ replicate d.extra_bits b;
}

unfoldable pub in_lengths_after_extra_bits : Deflate → Outcome Deflate
in_lengths_after_extra_bits d =
    if d.symbol_with_extra_bits == 16
    then elim (back d.dynamic_code_lengths) [
      | none ↦ fatal
      | some b ↦ goto lengths_state (repeated d b)
    ]
    else if d.symbol_with_extra_bits == 17 || d.symbol_with_extra_bits == 18
    then goto lengths_state (repeated d 0)
    else goto lengths_state d
