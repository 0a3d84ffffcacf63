-- ===== src/Basic/Frame/Bytes.antt =====
-- Frames that read one byte in each state, under the loop of Basic.Frame.cpp.
use webel.Prelude.{
  ℕ, zero, suc, ◌<◌, ◌≡◌, refl, ◌∙◌, Bool, true, false, none, some, List, [], ◌∷◌, ◌++◌, Outcome,
  returns, fatal, ◌>>=◌, length, if◌then◌else◌, arith, inl, inr, Bool-cases, Outcome-cases,
}
use webel.Basic.Frame.{
  ProcessResult, blocked, ready, exited, Event, received_bytes, read_next, Processed, Process,
  process_event_loop,
}

-- The frame reads a byte and hands it to `receive`.
abbrev pub byte_step : {S : Type 0} → (S → ℕ → Outcome S) → S → Event → Processed S
byte_step receive s event = read_next event >>= λ o. elim o [
  | none ↦ returns (blocked, s, event)
  | some (b, event') ↦ receive s b >>= λ s'. returns (ready, s', event')
]

module _ {S : Type 0} (in_progress failed : S → Bool) (receive : S → ℕ → Outcome S) where
  abbrev pub byte_process : Process S
  byte_process = record { in_progress = in_progress; failed = failed; step = byte_step receive }

  -- The bytes one by one, until the frame has ended; the second part is what it leaves unread.
  unfoldable pub feed : S → List ℕ → Outcome (S × List ℕ)
  feed s [] = returns (s, [])
  feed s (b ∷ bs) = elim (in_progress s) [
    | false ↦ returns (s, b ∷ bs)
    | true ↦ elim (receive s b) [ fatal ↦ fatal | returns s' ↦ feed s' bs ]
  ]

  abbrev pub finish : S × List ℕ → ProcessResult × S × Event
  finish (s, rest) = (if in_progress s then blocked else exited, s, received_bytes rest)

  module _ (s : S) (b : ℕ) (bs : List ℕ) where
    pub feed_ended : in_progress s ≡ false → feed s (b ∷ bs) ≡ returns (s, b ∷ bs)
    unfolding feed
    feed_ended e = rw (e, feed) refl

    pub feed_fatal : in_progress s ≡ true → receive s b ≡ fatal → feed s (b ∷ bs) ≡ fatal
    unfolding feed
    feed_fatal e f = rw (e, feed) (rw f refl)

    pub feed_received :
        (s' : S) → in_progress s ≡ true → receive s b ≡ returns s' → feed s (b ∷ bs) ≡ feed s' bs
    unfolding feed
    feed_received s' e f = rw (e, feed) (rw f refl)

  pub feed-nil : (s : S) → feed s [] ≡ returns (s, [])
  unfolding feed
  feed-nil s = refl

  -- With more iterations than bytes the loop reads byte by byte, and ends blocked if the frame waits
  -- for more, and exited if the frame has ended.
  pub loop-feed :
      (slices : ℕ) (s : S) (bs : List ℕ)
      → length bs < slices
      → process_event_loop byte_process slices s (received_bytes bs)
        ≡ (feed s bs >>= λ t. returns (finish t))
  unfolding process_event_loop read_next
  loop-feed zero s bs h = elim h [ ]
  loop-feed (suc slices) s [] h = elim (Bool-cases (in_progress s)) [
    | inl e ↦ rw (feed-nil, e) refl
    | inr e ↦ rw (feed-nil, e) refl
  ]
  loop-feed (suc slices) s (b ∷ bs) h = elim (Bool-cases (in_progress s)) [
    | inl e ↦ elim (Outcome-cases (receive s b)) [
      | inl f ↦ rw (feed_fatal s b bs e f, e) (rw f refl)
      | inr (s', f) ↦
          rw (feed_received s b bs s' e f, e) (rw f (loop-feed slices s' bs (omega arith)))
    ]
    | inr e ↦ rw (feed_ended s b bs e, e) refl
  ]

  -- Bytes that come in two pieces are read as if they had come in one.
  pub feed-append :
      (s : S) (xs ys : List ℕ) → feed s (xs ++ ys) ≡ (feed s xs >>= λ t. feed t.0 (t.1 ++ ys))
  feed-append s [] ys = rw feed-nil refl
  feed-append s (x ∷ xs) ys = elim (Bool-cases (in_progress s)) [
    | inl e ↦ elim (Outcome-cases (receive s x)) [
      | inl f ↦ rw (feed_fatal s x xs e f) (feed_fatal s x (xs ++ ys) e f)
      | inr (s', f) ↦
          rw (feed_received s x xs s' e f)
            (feed_received s x (xs ++ ys) s' e f ∙ feed-append s' xs ys)
    ]
    | inr e ↦ rw (feed_ended s x xs e) refl
  ]
