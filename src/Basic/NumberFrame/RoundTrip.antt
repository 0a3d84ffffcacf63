-- ===== src/Basic/NumberFrame/RoundTrip.antt =====
-- A NumberFrame reads what serialize_number writes (Basic.NumberFrame.h).
use webel.Prelude.{
  ==_self, List, ap, arith, false, refl, returns, subst, suc, sym, zero, ℕ, ◌%◌, ◌*◌, ◌++◌, ◌+◌,
  ◌-◌, ◌/◌, ◌<◌, ◌==◌, ◌^◌, ◌∙◌, ◌∷◌, ◌≡◌, ◌≤◌,
}
use native.Mathlib.Nat.{
  div-add-mod, mod-lt, le_dest, add-mul, mod-eq_of_lt, add-mul-mod_self_left, pow-suc, mul-mod_left,
  mul-div_cancel, one-le-pow,
}
use webel.Basic.Frame.{
  start_state, succeeded_state, ready, exited, received_bytes, read_next, max_slices, process_event,
}
use webel.Basic.Frame.Iterations.{Advances, Advances-suc, Advances-one, Advances-exited}
use webel.Basic.NumberFrame.{
  serialize_number, NumberFrame, receiving_state, set_byte, receive_byte, number_step,
  number_process,
}

-- The highest byte of a number and the others, where `m` is the place of this byte.
byte_below : (b m : ℕ) → b < 256 → b * m + m ≤ m * 256
byte_below b m h =
    let below : b ≤ 255 = omega (arith, h) in
    let (c, e) = le_dest below in omega (arith, sym (add-mul b c m) ∙ ap (λ (t : ℕ). t * m) e)

top_byte : (w m : ℕ) → 0 < m → w % (m * 256) ≡ w / m % 256 * m + w % m
top_byte w m h =
    let q = w / m in
    let b = q % 256 in
    let r = w % m in
    let split = div-add-mod w m in
    let split_q = ap (λ (t : ℕ). t * m) (div-add-mod q 256) in
    let whole : w ≡ (b * m + r) + m * 256 * (q / 256) = omega (arith, split, split_q) in
    let small : b * m + r < m * 256 =
      omega (arith, mod-lt w h, byte_below b m (mod-lt q (omega arith))) in
    ap (λ (t : ℕ). t % (m * 256)) whole
    ∙ add-mul-mod_self_left (b * m + r) (m * 256) (q / 256)
    ∙ mod-eq_of_lt small

-- A byte in a number whose lower bytes are 0.
set_byte-zero : (h j b : ℕ) → set_byte (h * 256 ^ suc j) j b ≡ (h * 256 + b) * 256 ^ j
set_byte-zero h j b =
    let m = 256 ^ j in
    let positive : 0 < m = one-le-pow j 256 (omega arith) in
    let next : 256 ^ suc j ≡ m * 256 = pow-suc 256 j in
    let one_more : 256 ^ (j + 1) ≡ 256 ^ suc j = ap (λ (t : ℕ). 256 ^ t) (omega arith) in
    let above : h * 256 ^ suc j / 256 ^ (j + 1) ≡ h =
      ap (λ (t : ℕ). h * 256 ^ suc j / t) one_more
      ∙ mul-div_cancel h (one-le-pow (suc j) 256 (omega arith)) in
    let scaled : h * 256 ^ suc j / 256 ^ (j + 1) * 256 ^ (j + 1) ≡ h * 256 ^ (j + 1) =
      ap (λ (t : ℕ). t * 256 ^ (j + 1)) above in
    let places : h * 256 ^ (j + 1) ≡ h * (m * 256) = ap (λ (t : ℕ). h * t) (one_more ∙ next) in
    let below : h * 256 ^ suc j % m ≡ 0 =
      ap (λ (t : ℕ). t % m) (omega (arith, ap (λ (t : ℕ). h * t) next))
      ∙ mul-mod_left (h * 256) m in
    omega (arith, scaled, places, below)

module _ (n : ℕ) (short : n < 2 ^ 32) where
  -- The frame with `r` bytes received, whose value is `h` in front of `k` bytes that are 0.
  abbrev receiving : ℕ → ℕ → ℕ → NumberFrame
  receiving r k h = record { state = receiving_state; received = r; value = h * 256 ^ k }

  abbrev finished : ℕ → NumberFrame
  finished value = record { state = succeeded_state; received = n; value = value }

  inner_byte :
      (r j h b : ℕ) (bs : List ℕ)
      → r + suc (suc j) ≡ n
      → number_step n (receiving r (suc (suc j)) h) (received_bytes (b ∷ bs))
        ≡ returns (ready, receiving (suc r) (suc j) (h * 256 + b), received_bytes bs)
  unfolding number_step receive_byte read_next
  inner_byte r j h b bs e =
      let index : n - r - 1 ≡ suc j = omega (arith, e) in
      let count : (r + 1) % 2 ^ 32 ≡ suc r = mod-eq_of_lt (omega (arith, e, short)) ∙ omega arith in
      let more : (suc r == n) ≡ false = ground (arith, e) in
      rw (count, more, index, set_byte-zero h (suc j) b) refl

  last_byte :
      (r h b : ℕ) (bs : List ℕ)
      → r + 1 ≡ n
      → number_step n (receiving r 1 h) (received_bytes (b ∷ bs))
        ≡ returns (ready, finished (h * 256 + b), received_bytes bs)
  unfolding number_step receive_byte read_next
  last_byte r h b bs e =
      let index : n - r - 1 ≡ 0 = omega (arith, e) in
      let count : (r + 1) % 2 ^ 32 ≡ n = mod-eq_of_lt (omega (arith, e, short)) ∙ e in
      let value : (h * 256 + b) * 256 ^ 0 ≡ h * 256 + b = omega arith in
      rw (count, ==_self n, index, set_byte-zero h 0 b, value) refl

  bytes_read :
      (j r h w : ℕ) (rest : List ℕ)
      → r + suc j ≡ n
      → Advances
          (number_process n)
          (suc j)
          (receiving r (suc j) h)
          (received_bytes (serialize_number (suc j) w ++ rest))
          (finished (h * 256 ^ suc j + w % 256 ^ suc j))
          (received_bytes rest)
  unfolding serialize_number
  bytes_read zero r h w rest e =
      let value : h * 256 + w / 1 % 256 ≡ h * 256 ^ 1 + w % 256 ^ 1 = omega arith in
      subst
        (λ (v : ℕ).
          Advances (number_process n) 1 (receiving r 1 h) (received_bytes (w / 1 % 256 ∷ rest))
            (finished v) (received_bytes rest))
        value
        (Advances-one (number_process n) (receiving r 1 h) (received_bytes (w / 1 % 256 ∷ rest))
          (finished (h * 256 + w / 1 % 256)) (received_bytes rest) refl
          (last_byte r h (w / 1 % 256) rest e))
  bytes_read (suc j) r h w rest e =
      let b = w / 256 ^ suc j % 256 in
      let bytes = serialize_number (suc j) w ++ rest in
      let place = pow-suc 256 (suc j) in
      let top : w % 256 ^ suc (suc j) ≡ b * 256 ^ suc j + w % 256 ^ suc j =
        ap (λ (t : ℕ). w % t) place
        ∙ top_byte w (256 ^ suc j) (one-le-pow (suc j) 256 (omega arith)) in
      let value : (h * 256 + b) * 256 ^ suc j + w % 256 ^ suc j
          ≡ h * 256 ^ suc (suc j) + w % 256 ^ suc (suc j) =
        omega (arith, top, ap (λ (t : ℕ). h * t) place) in
      subst
        (λ (v : ℕ).
          Advances (number_process n) (suc (suc j)) (receiving r (suc (suc j)) h)
            (received_bytes (b ∷ bytes)) (finished v) (received_bytes rest))
        value
        (Advances-suc (number_process n) (suc j) (receiving r (suc (suc j)) h)
          (received_bytes (b ∷ bytes)) (receiving (suc r) (suc j) (h * 256 + b))
          (received_bytes bytes) (finished ((h * 256 + b) * 256 ^ suc j + w % 256 ^ suc j))
          (received_bytes rest) refl (inner_byte r j h b bytes e)
          (bytes_read j (suc r) (h * 256 + b) w rest (omega (arith, e))))

-- A NumberFrame, fresh or reset, whose type has as many bytes as are encoded, at least 1 and fewer
-- than 2 ^ 20, and that is given what serialize_number writes for a number of this type with more
-- bytes behind it: it exits with this number, whatever its value was before, and leaves the bytes
-- behind.
pub process_event-serialize_number :
    (k v old : ℕ) (rest : List ℕ)
    → suc k < 2 ^ 20
    → v < 256 ^ suc k
    → process_event
        (number_process (suc k))
        (record { state = start_state; received = 0; value = old })
        (received_bytes (serialize_number (suc k) v ++ rest))
      ≡ returns (
        exited,
        record { state = succeeded_state; received = suc k; value = v },
        received_bytes rest,
      )
unfolding process_event number_step
process_event-serialize_number k v old rest h l =
    let n = suc k in
    let bytes = received_bytes (serialize_number n v ++ rest) in
    let fresh : NumberFrame = record { state = start_state; received = 0; value = old } in
    let same : 0 * 256 ^ n + v % 256 ^ n ≡ v = omega (arith, mod-eq_of_lt l) in
    let read =
      subst
        (λ (w : ℕ).
          Advances (number_process n) n (receiving n (omega (arith, h)) 0 n 0) bytes
            (finished n (omega (arith, h)) w) (received_bytes rest))
        same (bytes_read n (omega (arith, h)) k 0 0 v rest (omega arith)) in
    let zeros : 0 ≡ 0 * 256 ^ n = omega arith in
    let begun : NumberFrame = record {
      state = receiving_state;
      received = 0;
      value = 0 * 256 ^ n;
    } in
    let begin : number_step n fresh bytes ≡ returns (ready, begun, bytes) =
      ap (λ (w : ℕ). returns (ready, record begun { value = w }, bytes)) zeros in
    Advances-exited (number_process n) (suc n) fresh bytes (finished n (omega (arith, h)) v)
      (received_bytes rest) max_slices
      (Advances-suc (number_process n) n fresh bytes (receiving n (omega (arith, h)) 0 n 0) bytes
        (finished n (omega (arith, h)) v) (received_bytes rest) refl begin read)
      refl (omega (arith, h))
