-- ===== src/Gzip/Deflate/Invariant/States.antt =====
-- Every state of Deflate keeps what the states rely on (Gzip.Deflate.cpp).
use webel.Prelude.{
  bit_xor, All, List, Outcome, [], arith, drop, fatal, get_elem?, length, ltb, returns, suc, zero,
  ℕ, ◌+◌, ◌-◌, ◌<◌, ◌==◌, ◌>>=◌, ◌||◌, ◌∷◌, ◌≡◌, ◌≤◌, Whenever, Whenever->>=, Whenever-returns,
  Whenever-any, Whenever-if, Whenever-option,
}
use webel.Basic.Frame.{ProcessResult, ready, Event, received_bytes}
use webel.Gzip.Bits.{BitBuffer}
use webel.Gzip.Bits.Reading.{IsReady}
use webel.Gzip.Huffman.{Alphabet, is_null, is_leaf}
use webel.Gzip.Deflate.{
  State, next_block_state, bfinal_state, btype_state, len_state, nlen_state,
  uncompressed_data_state, fixed_block_state, hlit_state, hdist_state, hclen_state,
  hclen_lengths_state, lengths_state, lengths_extra_bits_state, lengths_after_extra_bits_state,
  length_code_state, extra_bits_state, after_extra_length_bits_state, distance_code_state,
  after_extra_distance_bits_state, done_state, btype_failed, uncompressed_failed, len_failed,
  nlen_failed, uncompressed_data_failed, lengths_failed, length_code_failed, distance_code_failed,
  after_extra_distance_bits_failed, Deflate, hclen_index, clen_extra_bits_parameters,
  lit_extra_bits_parameters, dist_extra_bits_parameters, hlit_fixed, hdist_fixed, goto,
  write_output, reading, follow, symbol_of,
}
use webel.Gzip.Deflate.Blocks.{
  in_next_block, in_bfinal, begin_fixed, in_btype, and_ready, in_len, behind_nlen, in_nlen,
  in_uncompressed_data,
}
use webel.Gzip.Deflate.Lengths.{
  in_hlit, in_hdist, in_hclen, end_hclen_lengths, receive_hclen_length, in_hclen_lengths, back,
  distance_root, end_lengths, receive_length_symbol, receive_length_bit, in_lengths,
  in_lengths_after_extra_bits,
}
use webel.Gzip.Deflate.Machine.{
  in_extra_bits, begin_extra_bits, end_block, receive_symbol, receive_code_bit,
  in_after_extra_length_bits, receive_distance_bit, copy, in_after_extra_distance_bits, dispatch,
}
use webel.Gzip.Deflate.Invariant.{
  IsWell, IsFresh, IsFresh-IsWell, goto-IsFresh, Behind, at_once-IsWell, reading-IsWell,
  through-IsWell, IsShort, clen-IsShort, lit-IsShort, dist-IsShort, Whenever-entry,
}

-- A state that asks for at most 8 bits, and so waits with less than a byte.
short_reading :
    (count : ℕ) (receive : Deflate → ℕ → Outcome Deflate) (d : Deflate) (bs : List ℕ)
    → count ≤ 8
    → All (λ b. b < 256) bs
    → IsFresh d
    → ((s : BitBuffer) (w : ℕ)
        → IsReady 0 s
        → Whenever IsFresh (receive (record d { buffer = s }) w))
    → Whenever (Behind IsWell) (reading count receive d (received_bytes bs))
short_reading count receive d bs h k ((l, m), n) f =
    reading-IsWell count receive d bs (omega (arith, h)) k (l, omega (arith, m)) f
      (λ s r short. IsFresh-IsWell (record d { buffer = s }) ((r.0, omega (arith, short, h)), n))

next_block-IsFresh : (d : Deflate) → IsFresh d → Whenever IsFresh (in_next_block d)
unfolding in_next_block
next_block-IsFresh d h =
    Whenever-if IsFresh d.bfinal _ _ (goto-IsFresh done_state _ h) (goto-IsFresh bfinal_state _ h)

alphabet-Whenever :
    (m : Outcome Alphabet) (f : Alphabet → Outcome Deflate)
    → ((a : Alphabet) → Whenever IsFresh (f a))
    → Whenever IsFresh (m >>= f)
alphabet-Whenever m f h = Whenever->>= (λ a. Unit) IsFresh m f (Whenever-any m) (λ a k. h a)

btype-IsFresh : (d : Deflate) (b : ℕ) → IsFresh d → Whenever IsFresh (in_btype d b)
unfolding in_btype begin_fixed
btype-IsFresh d b h =
    Whenever-if IsFresh (b == 0) _ _ (goto-IsFresh len_state _ ((omega arith, omega arith), h.1)) (
      Whenever-if IsFresh (b == 1) _ _
        (alphabet-Whenever hlit_fixed _
          (λ a. alphabet-Whenever hdist_fixed _ (λ c. goto-IsFresh length_code_state _ h)))
        (Whenever-if IsFresh (b == 2) _ _ (goto-IsFresh hlit_state d h)
          (goto-IsFresh btype_failed d h)))

hclen_lengths-IsFresh : (d : Deflate) → IsFresh d → Whenever IsFresh (end_hclen_lengths d)
unfolding end_hclen_lengths
hclen_lengths-IsFresh d h = alphabet-Whenever _ _ (λ a. goto-IsFresh lengths_state _ h)

hclen_length-IsFresh :
    (d : Deflate) (b : ℕ) → IsFresh d → Whenever IsFresh (receive_hclen_length d b)
unfolding receive_hclen_length
hclen_length-IsFresh d b h =
    Whenever-option IsFresh (get_elem? hclen_index d.hclen_count) fatal _ tt
      (λ index. Whenever-if IsFresh (ltb index (length d.dynamic_code_lengths)) _ _ h tt)

lengths-IsFresh : (d : Deflate) → IsFresh d → Whenever IsFresh (end_lengths d)
unfolding end_lengths
lengths-IsFresh d h = alphabet-Whenever _ _ (λ a.
    alphabet-Whenever (distance_root d (drop d.hlit d.dynamic_code_lengths)) _
      (λ c. goto-IsFresh length_code_state _ h))

length_symbol-IsFresh :
    (d : Deflate) (symbol : ℕ) → IsFresh d → Whenever IsFresh (receive_length_symbol d symbol)
unfolding receive_length_symbol
length_symbol-IsFresh d symbol (h, k) =
    Whenever-if IsFresh (ltb symbol 16) _ _ (h, k)
      (Whenever-entry IsFresh IsShort clen_extra_bits_parameters (symbol - 16) fatal _ clen-IsShort
        tt (λ parameters short. goto-IsFresh extra_bits_state _ (h, short)))

-- A bit that is followed into an alphabet.
follow-Whenever :
    (current : Alphabet) (b : ℕ) (f : Alphabet → Outcome Deflate)
    → ((a : Alphabet) → Whenever IsFresh (f a))
    → Whenever IsFresh (follow current b >>= f)
follow-Whenever current b f h = alphabet-Whenever (follow current b) f h

length_bit-IsFresh : (d : Deflate) (b : ℕ) → IsFresh d → Whenever IsFresh (receive_length_bit d b)
unfolding receive_length_bit
length_bit-IsFresh d b h = follow-Whenever d.hclen_current b _ (λ a.
    Whenever-if IsFresh (is_null a) _ _ (goto-IsFresh lengths_failed _ h) (
      Whenever-if IsFresh (is_leaf a) _ _
        (length_symbol-IsFresh (record d { hclen_current = a }) (symbol_of a) h) h))

after_extra-IsFresh : (d : Deflate) → IsFresh d → Whenever IsFresh (in_lengths_after_extra_bits d)
unfolding in_lengths_after_extra_bits
after_extra-IsFresh d h =
    Whenever-if IsFresh (d.symbol_with_extra_bits == 16) _ _
      (Whenever-option IsFresh (back d.dynamic_code_lengths) fatal _ tt
        (λ b. goto-IsFresh lengths_state _ h))
      (Whenever-if IsFresh (d.symbol_with_extra_bits == 17 || d.symbol_with_extra_bits == 18) _ _
        (goto-IsFresh lengths_state _ h) (goto-IsFresh lengths_state d h))

symbol-IsFresh : (d : Deflate) (symbol : ℕ) → IsFresh d → Whenever IsFresh (receive_symbol d symbol)
unfolding receive_symbol end_block begin_extra_bits
symbol-IsFresh d symbol (h, k) =
    Whenever-if IsFresh (ltb symbol 256) _ _ (h, k)
      (Whenever-if IsFresh (symbol == 256) _ _ (goto-IsFresh next_block_state _ (h, k)) (
        Whenever-entry IsFresh IsShort lit_extra_bits_parameters (symbol - 257) fatal _ lit-IsShort
          tt (λ parameters short. goto-IsFresh extra_bits_state _ (h, short))))

code_bit-IsFresh : (d : Deflate) (b : ℕ) → IsFresh d → Whenever IsFresh (receive_code_bit d b)
unfolding receive_code_bit
code_bit-IsFresh d b h = follow-Whenever d.hlit_current b _ (λ a.
    Whenever-if IsFresh (is_null a) _ _ (goto-IsFresh length_code_failed _ h) (
      Whenever-if IsFresh (is_leaf a) _ _
        (symbol-IsFresh (record d { hlit_current = d.hlit_root }) (symbol_of a) h) h))

distance_bit-IsFresh :
    (d : Deflate) (b : ℕ) → IsFresh d → Whenever IsFresh (receive_distance_bit d b)
unfolding receive_distance_bit begin_extra_bits
distance_bit-IsFresh d b (h, k) = follow-Whenever d.hdist_current b _ (λ a.
    Whenever-if IsFresh (is_null a) _ _ (goto-IsFresh distance_code_failed _ (h, k)) (
      Whenever-if IsFresh (is_leaf a) _ _
        (Whenever-entry IsFresh IsShort dist_extra_bits_parameters (symbol_of a) fatal _
          dist-IsShort tt (λ parameters short. goto-IsFresh extra_bits_state _ (h, short)))
        (h, k)))

copy-IsFresh : (count index : ℕ) (d : Deflate) → IsFresh d → Whenever IsFresh (copy count index d)
unfolding copy
copy-IsFresh zero index d h = h
copy-IsFresh (suc count) index d h =
    Whenever-option IsFresh (get_elem? d.look_back index) fatal _ tt
      (λ value. copy-IsFresh count (suc index) (write_output (value ∷ []) d) h)

distance-IsFresh : (d : Deflate) → IsFresh d → Whenever IsFresh (in_after_extra_distance_bits d)
unfolding in_after_extra_distance_bits
distance-IsFresh d h =
    Whenever-if IsFresh (ltb (length d.look_back) d.extra_bits) _ _
      (goto-IsFresh after_extra_distance_bits_failed d h)
      (Whenever->>= IsFresh IsFresh _ _ (copy-IsFresh d.copy_length _ d h)
        (λ d' k. goto-IsFresh length_code_state d' k))

abbrev Q : ProcessResult × Deflate → Type 0
Q (r, d) = IsFresh d

ready-IsFresh : (m : Outcome Deflate) → Whenever IsFresh m → Whenever Q (and_ready m)
ready-IsFresh m h = Whenever->>= IsFresh Q m (λ d. returns (ready, d)) h (λ d k. k)

nlen-IsFresh : (d : Deflate) → IsFresh d → Whenever Q (behind_nlen d)
unfolding behind_nlen
nlen-IsFresh d h =
    Whenever-if Q (d.nlen_frame.value == bit_xor d.len_frame.value 0xFFFF) _ _
      (Whenever-if Q (d.len_frame.value == 0) _ _
        (ready-IsFresh _ (goto-IsFresh next_block_state d h))
        (ready-IsFresh _ (goto-IsFresh uncompressed_data_state _ h)))
      (Whenever->>= IsFresh Q (goto nlen_failed d) _ (goto-IsFresh nlen_failed d h) (λ d' k. k))

-- The state is given as a pattern.
dispatch-IsWell :
    (state : State) (d : Deflate) (bs : List ℕ)
    → All (λ b. b < 256) bs
    → IsWell (record d { state = state })
    → Whenever (Behind IsWell) (dispatch state (record d { state = state }) (received_bytes bs))
unfolding dispatch in_bfinal in_hlit in_hdist in_hclen in_len in_nlen in_uncompressed_data
    in_hclen_lengths in_lengths in_extra_bits in_after_extra_length_bits
dispatch-IsWell next_block_state d bs h k =
    at_once-IsWell _ _ (next_block-IsFresh (record d { state = next_block_state }) k)
dispatch-IsWell bfinal_state d bs h k =
    short_reading 1 in_bfinal (record d { state = bfinal_state }) bs (omega arith) h k
      (λ s w r. goto-IsFresh btype_state _ (r, k.1))
dispatch-IsWell btype_state d bs h k =
    short_reading 2 in_btype (record d { state = btype_state }) bs (omega arith) h k
      (λ s w r. btype-IsFresh (record d { state = btype_state; buffer = s }) w (r, k.1))
dispatch-IsWell len_state d bs h k =
    through-IsWell _ _ _ len_failed _ (record d { state = len_state }) _ k (λ d' s q. q)
      (λ d' q. ready-IsFresh _ (goto-IsFresh nlen_state d' q))
dispatch-IsWell nlen_state d bs h k =
    through-IsWell _ _ _ nlen_failed _ (record d { state = nlen_state }) _ k (λ d' s q. q)
      nlen-IsFresh
dispatch-IsWell uncompressed_data_state d bs h k =
    through-IsWell _ _ _ uncompressed_data_failed _ (record d { state = uncompressed_data_state }) _
      k (λ d' s q. q) (λ d' q. ready-IsFresh _ (goto-IsFresh next_block_state d' q))
dispatch-IsWell hlit_state d bs h k =
    short_reading 5 in_hlit (record d { state = hlit_state }) bs (omega arith) h k
      (λ s w r. goto-IsFresh hdist_state _ (r, k.1))
dispatch-IsWell hdist_state d bs h k =
    short_reading 5 in_hdist (record d { state = hdist_state }) bs (omega arith) h k
      (λ s w r. goto-IsFresh hclen_state _ (r, k.1))
dispatch-IsWell hclen_state d bs h k =
    short_reading 4 in_hclen (record d { state = hclen_state }) bs (omega arith) h k
      (λ s w r. goto-IsFresh hclen_lengths_state _ (r, k.1))
dispatch-IsWell hclen_lengths_state d bs h k =
    Whenever-if (Behind IsWell) (d.hclen == d.hclen_count) _ _
      (at_once-IsWell _ _ (hclen_lengths-IsFresh (record d { state = hclen_lengths_state }) k))
      (short_reading 3 receive_hclen_length (record d { state = hclen_lengths_state }) bs
        (omega arith) h k
        (λ s w r.
          hclen_length-IsFresh (record d { state = hclen_lengths_state; buffer = s }) w (r, k.1)))
dispatch-IsWell lengths_state d bs h k =
    Whenever-if (Behind IsWell) (ltb (d.hlit + d.hdist) (length d.dynamic_code_lengths)) _ _
      (at_once-IsWell _ _ (goto-IsFresh lengths_failed _ k))
      (Whenever-if (Behind IsWell) (length d.dynamic_code_lengths == d.hlit + d.hdist) _ _
        (at_once-IsWell _ _ (lengths-IsFresh (record d { state = lengths_state }) k))
        (short_reading 1 receive_length_bit (record d { state = lengths_state }) bs (omega arith) h
          k
          (λ s w r.
            length_bit-IsFresh (record d { state = lengths_state; buffer = s }) w (r, k.1))))
dispatch-IsWell extra_bits_state d bs h (k, l) =
    reading-IsWell d.extra_bits_parameters.length _ (record d { state = extra_bits_state }) bs
      (omega (arith, l)) h k (λ s w r. goto-IsFresh d.state_after_extra_bits _ (r, l))
      (λ s r short. (r, l))
dispatch-IsWell lengths_after_extra_bits_state d bs h k =
    at_once-IsWell _ _ (after_extra-IsFresh (record d { state = lengths_after_extra_bits_state }) k)
dispatch-IsWell length_code_state d bs h k =
    short_reading 1 receive_code_bit (record d { state = length_code_state }) bs (omega arith) h k
      (λ s w r. code_bit-IsFresh (record d { state = length_code_state; buffer = s }) w (r, k.1))
dispatch-IsWell after_extra_length_bits_state d bs h k =
    at_once-IsWell _ _ (goto-IsFresh distance_code_state _ k)
dispatch-IsWell distance_code_state d bs h k =
    short_reading 1 receive_distance_bit (record d { state = distance_code_state }) bs (omega arith)
      h k
      (λ s w r.
        distance_bit-IsFresh (record d { state = distance_code_state; buffer = s }) w (r, k.1))
dispatch-IsWell after_extra_distance_bits_state d bs h k =
    at_once-IsWell _ _ (distance-IsFresh (record d { state = after_extra_distance_bits_state }) k)
dispatch-IsWell fixed_block_state d bs h k = tt
dispatch-IsWell lengths_extra_bits_state d bs h k = tt
dispatch-IsWell done_state d bs h k = tt
dispatch-IsWell btype_failed d bs h k = tt
dispatch-IsWell uncompressed_failed d bs h k = tt
dispatch-IsWell len_failed d bs h k = tt
dispatch-IsWell nlen_failed d bs h k = tt
dispatch-IsWell uncompressed_data_failed d bs h k = tt
dispatch-IsWell lengths_failed d bs h k = tt
dispatch-IsWell length_code_failed d bs h k = tt
dispatch-IsWell distance_code_failed d bs h k = tt
dispatch-IsWell after_extra_distance_bits_failed d bs h k = tt

-- A call of process_event on an event with bytes, in any state, keeps what the states rely on: the
-- bits in the buffer are no more than its length says, there are at most 7 of them, in
-- extra_bits_state at most 7 more than the extra bits it reads, and extra bits are at most 13.
pub process_event-IsWell :
    (d d' : Deflate) (bs : List ℕ) (result : ProcessResult) (event : Event)
    → All (λ b. b < 256) bs
    → IsWell d
    → dispatch d.state d (received_bytes bs) ≡ returns (result, d', event)
    → IsWell d'
process_event-IsWell d d' bs result event h k e =
    Whenever-returns (Behind IsWell) (dispatch d.state d (received_bytes bs)) (result, d', event)
      (dispatch-IsWell d.state d bs h k) e
