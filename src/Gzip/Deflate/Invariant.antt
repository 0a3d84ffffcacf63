-- ===== src/Gzip/Deflate/Invariant.antt =====
-- What every state of Deflate relies on in its bit buffer (Gzip.Deflate.cpp).
pub mod States
use webel.Prelude.{
  ==_self, ==→eq, All, All-append, Bool, Bool-cases, List, Option, Option-cases, Outcome,
  Outcome-cases, Returns, Returns-returns, [], ap, append-nil, append_assoc, arith, drop,
  drop-append, false, fatal, get_elem?, if◌then◌else◌, inl, inr, leb, leb→le, length, length-append,
  le→leb, ltb, ltb→lt, map, ne→==, none, not, refl, replicate, returns, set, some, subst, suc, sym,
  take, take-append, true, zero, ℕ, ◌%◌, ◌&&◌, ◌*◌, ◌++◌, ◌+◌, ◌-◌, ◌/◌, ◌<◌, ◌==◌, ◌>>=◌, ◌^◌,
  ◌||◌, ◌↔◌, ◌∎, ◌∙◌, ◌∷◌, ◌≡◌, ◌≡⟨◌⟩◌, ◌≢◌, ◌≤◌, ◌⊎◌, two_pow_add, two_pow_le, two_pow_positive,
  Whenever, Whenever->>=, Whenever-returns, Whenever-any, Whenever-if, Whenever-option,
}
use webel.Basic.Frame.{
  start_state, succeeded_state, is_in_progress, is_succeeded, is_failed, switch_to_state,
  ProcessResult, blocked, ready, exited, Event, element_stream_ending, received_bytes, other_event,
  read_next, read, Processed, Process, max_slices, process_event_loop, process_event,
  process_event_throw_error_on_fail, process_event_ignore_failures,
  process_event_change_state_on_fail,
}
use webel.Gzip.Bits.{BitBuffer, push_byte, fill, take_bits, Read, filled, read_next_bits}
use webel.Gzip.Bits.Reading.{value, bits, bit_count, IsReady, read_next-bits}
use webel.Gzip.Deflate.{
  State, next_block_state, bfinal_state, btype_state, len_state, nlen_state,
  uncompressed_data_state, fixed_block_state, hlit_state, hdist_state, hclen_state,
  hclen_lengths_state, lengths_state, lengths_extra_bits_state, lengths_after_extra_bits_state,
  length_code_state, extra_bits_state, after_extra_length_bits_state, distance_code_state,
  after_extra_distance_bits_state, done_state, btype_failed, uncompressed_failed, len_failed,
  nlen_failed, uncompressed_data_failed, lengths_failed, length_code_failed, distance_code_failed,
  after_extra_distance_bits_failed, code, ExtraBits, Deflate, hclen_index,
  clen_extra_bits_parameters, lit_extra_bits_parameters, dist_extra_bits_parameters, max_look_back,
  alphabet_or, lit_code_lengths, hlit_fixed, hdist_fixed, initial, goto, write_output, at_once,
  reading, follow, symbol_of,
}
use webel.Gzip.Deflate.Blocks.{
  shortened, in_next_block, in_bfinal, begin_fixed, in_btype, owner_or, through, and_ready, in_len,
  behind_nlen, in_nlen, take_written, in_uncompressed_data,
}

-- The bits that may stand in the buffer beside a rest of a byte: extra_bits_state may have to wait
-- with some of the bits that it reads at once.
abbrev pub slack : State → ExtraBits → ℕ
slack extra_bits_state parameters = parameters.length
slack state parameters = 0

-- No bits above the length, at most 7 of them but in extra_bits_state, and at most 13 extra bits.
abbrev pub IsWell : Deflate → Type 0
IsWell d =
    IsReady (slack d.state d.extra_bits_parameters) d.buffer × (d.extra_bits_parameters.length ≤ 13)

-- The same where no read waits.
abbrev pub IsFresh : Deflate → Type 0
IsFresh d = IsReady 0 d.buffer × (d.extra_bits_parameters.length ≤ 13)

pub IsFresh-IsWell : (d : Deflate) → IsFresh d → IsWell d
IsFresh-IsWell d ((h, k), l) = ((h, omega (arith, k)), l)

pub goto-IsFresh : (next : State) (d : Deflate) → IsFresh d → Whenever IsFresh (goto next d)
unfolding goto
goto-IsFresh next d h =
    Whenever->>= (λ n. Unit) IsFresh (switch_to_state (code d.state) (code next))
      (λ n. returns (record d { state = next })) (Whenever-any _) (λ n k. h)

-- The process behind a call.
abbrev pub Behind : (Deflate → Type 0) → ProcessResult × Deflate × Event → Type 0
Behind P (result, d, event) = P d

pub at_once-IsWell :
    (event : Event) (m : Outcome Deflate)
    → Whenever IsFresh m
    → Whenever (Behind IsWell) (at_once event m)
at_once-IsWell event m h =
    Whenever->>= IsFresh (Behind IsWell) m (λ d. returns (ready, d, event)) h
      (λ d k. IsFresh-IsWell d k)

pub reading-IsWell :
    (count : ℕ) (receive : Deflate → ℕ → Outcome Deflate) (d : Deflate) (bs : List ℕ)
    → count ≤ 15
    → All (λ b. b < 256) bs
    → IsReady count d.buffer
    → ((s : BitBuffer) (w : ℕ)
        → IsReady 0 s
        → Whenever IsFresh (receive (record d { buffer = s }) w))
    → ((s : BitBuffer)
        → IsReady count s
        → s.buffered_bits_length < count
        → IsWell (record d { buffer = s }))
    → Whenever (Behind IsWell) (reading count receive d (received_bytes bs))
unfolding reading
reading-IsWell count receive d bs h k r f g = elim (read_next-bits count d.buffer bs h k r) [
  | inl (enough, (w, s, rest, run, low, split, counted, ready_now)) ↦ rw run (
      Whenever->>= IsFresh (Behind IsWell) (receive (record d { buffer = s }) w)
        (λ d'. returns (ready, d', received_bytes rest)) (f s w ready_now)
        (λ d' q. IsFresh-IsWell d' q))
  | inr (short, (s, run, same, counted, waiting)) ↦
      rw run (g s waiting (omega (arith, short, counted)))
]

-- The owner of a frame is left as it is, or moved to a state.
owner-IsFresh :
    {S : Type 0} (p : Process S) (s : S) (event : Event) (to : State) (d : Deflate)
    → IsFresh d
    → Whenever
        (λ (r, s', event', owner). IsFresh (owner_or d owner))
        (process_event_change_state_on_fail p s event (goto to d))
unfolding process_event_change_state_on_fail
owner-IsFresh p s event to d h = elim (Outcome-cases (process_event p s event)) [
  | inl e ↦ rw (e, process_event_change_state_on_fail) tt
  | inr ((r, s', event'), e) ↦
      rw (e, process_event_change_state_on_fail)
        (elim (Bool-cases (p.failed s')) [
          | inl k ↦ rw k (
              Whenever->>= IsFresh (λ (r, s', event', owner). IsFresh (owner_or d owner))
                (goto to d) (λ owner. returns (blocked, s', event', some owner))
                (goto-IsFresh to d h) (λ d' q. q))
          | inr k ↦ rw k h
        ])
]

result-IsWell :
    (r : ProcessResult) (go_on : Deflate → Outcome (ProcessResult × Deflate)) (d : Deflate)
    (event : Event)
    → IsFresh d
    → Whenever (λ (r', d'). IsFresh d') (go_on d)
    → Whenever (Behind IsWell) (elim r [
      | blocked ↦ returns (blocked, d, event)
      | ready ↦ go_on d >>= λ (result', d''). returns (result', d'', event)
      | exited ↦ go_on d >>= λ (result', d''). returns (result', d'', event)
    ])
result-IsWell blocked go_on d event h g = IsFresh-IsWell d h
result-IsWell ready go_on d event h g =
    Whenever->>= (λ (r', d'). IsFresh d') (Behind IsWell) (go_on d)
      (λ (result', d''). returns (result', d'', event)) g (λ (r', d') q. IsFresh-IsWell d' q)
result-IsWell exited go_on d event h g =
    Whenever->>= (λ (r', d'). IsFresh d') (Behind IsWell) (go_on d)
      (λ (result', d''). returns (result', d'', event)) g (λ (r', d') q. IsFresh-IsWell d' q)

-- A state that runs a frame, whose results leave the buffer alone.
pub through-IsWell :
    {S : Type 0} (p : Process S) (get : Deflate → S) (put : Deflate → S → Deflate) (to : State)
    (go_on : Deflate → Outcome (ProcessResult × Deflate)) (d : Deflate) (event : Event)
    → IsFresh d
    → ((d' : Deflate) (s : S) → IsFresh d' → IsFresh (put d' s))
    → ((d' : Deflate) → IsFresh d' → Whenever (λ (r, d''). IsFresh d'') (go_on d'))
    → Whenever (Behind IsWell) (through p get put to go_on d event)
unfolding through
through-IsWell p get put to go_on d event h f g =
    Whenever->>= (λ (r, s, event', owner). IsFresh (owner_or d owner)) (Behind IsWell)
      (process_event_change_state_on_fail p (get d) event (goto to d)) _
      (owner-IsFresh p (get d) event to d h)
      (λ (r, s, event', owner) q.
        result-IsWell r go_on (put (owner_or d owner) s) event' (f (owner_or d owner) s q)
          (g (put (owner_or d owner) s) (f (owner_or d owner) s q)))

-- A table of extra bits whose entries have at most 13.
abbrev pub IsShort : ExtraBits → Type 0
IsShort parameters = parameters.length ≤ 13

abbrev are_short : List ExtraBits → Bool
are_short [] = true
are_short (p ∷ ps) = leb p.length 13 && are_short ps

are_short-All : (ps : List ExtraBits) → are_short ps ≡ true → All IsShort ps
are_short-All [] h = tt
are_short-All (p ∷ ps) h = elim (Bool-cases (leb p.length 13)) [
  | inl e ↦ (leb→le p.length 13 e, are_short-All ps (subst (λ b. (b && are_short ps) ≡ true) e h))
  | inr e ↦
      (let g : (false && are_short ps) ≡ true = subst (λ b. (b && are_short ps) ≡ true) e h in cc)
]

pub clen-IsShort : All IsShort clen_extra_bits_parameters
clen-IsShort = are_short-All clen_extra_bits_parameters refl

pub lit-IsShort : All IsShort lit_extra_bits_parameters
lit-IsShort = are_short-All lit_extra_bits_parameters refl

pub dist-IsShort : All IsShort dist_extra_bits_parameters
dist-IsShort = are_short-All dist_extra_bits_parameters refl

-- An entry of a table.
pub Whenever-entry :
    {A B : Type 0} (P : B → Type 0) (Q : A → Type 0) (xs : List A) (i : ℕ) (x : Outcome B)
    (f : A → Outcome B)
    → All Q xs
    → Whenever P x
    → ((a : A) → Q a → Whenever P (f a))
    → Whenever P (elim (get_elem? xs i) [ none ↦ x | some a ↦ f a ])
Whenever-entry P Q [] i x f q h k = h
Whenever-entry P Q (a ∷ xs) zero x f (q, qs) h k = k a q
Whenever-entry P Q (a ∷ xs) (suc i) x f (q, qs) h k = Whenever-entry P Q xs i x f qs h k
