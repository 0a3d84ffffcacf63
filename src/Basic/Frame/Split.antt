-- ===== src/Basic/Frame/Split.antt =====
-- Basic::process_event on bytes that come in two events (Basic.Frame.cpp).
use webel.Prelude.{
  ℕ, ◌≤◌, ◌<◌, ◌≡◌, refl, sym, ◌∙◌, Bool, List, [], ◌∷◌, ◌++◌, Outcome, returns, ◌>>=◌, length,
  length-append, arith, inl, inr, Bool-cases, Outcome-cases,
}
use webel.Basic.Frame.{
  Event, element_stream_ending, received_bytes, other_event, process_event_loop,
}
use webel.Basic.Frame.Bytes.{
  byte_process, feed, finish, feed_ended, feed_fatal, feed_received, feed-nil, feed-append,
  loop-feed,
}

-- Bytes that come behind what is left of an event.
abbrev pub followed_by : Event → List ℕ → Event
followed_by (received_bytes bs) ys = received_bytes (bs ++ ys)
followed_by element_stream_ending ys = element_stream_ending
followed_by (other_event type) ys = other_event type

module _ {S : Type 0} (in_progress failed : S → Bool) (receive : S → ℕ → Outcome S) where
  abbrev run : S → List ℕ → Outcome (S × List ℕ)
  run = feed in_progress failed receive

  run-length :
      (xs : List ℕ) (s s' : S) (rest : List ℕ)
      → run s xs ≡ returns (s', rest)
      → length rest ≤ length xs
  run-length [] s s' rest h = ground (arith, sym (feed-nil in_progress failed receive s) ∙ h)
  run-length (x ∷ xs) s s' rest h = elim (Bool-cases (in_progress s)) [
    | inr e ↦ ground (arith, sym (feed_ended in_progress failed receive s x xs e) ∙ h)
    | inl e ↦ elim (Outcome-cases (receive s x)) [
      | inl f ↦ ground (arith, sym (feed_fatal in_progress failed receive s x xs e f) ∙ h)
      | inr (t, f) ↦ omega (
        arith,
        run-length xs t s' rest (sym (feed_received in_progress failed receive s x xs t e f) ∙ h),
      )
    ]
  ]

  -- For a frame that reads a byte in each state, an event with the bytes of two is processed as one
  -- with the first of them and then, with what that left unread before them, one with the others,
  -- where the iterations are more than the bytes.
  pub loop-append :
      (slices : ℕ) (s : S) (xs ys : List ℕ)
      → length (xs ++ ys) < slices
      → process_event_loop
          (byte_process in_progress failed receive)
          slices
          s
          (received_bytes (xs ++ ys))
        ≡ (process_event_loop (byte_process in_progress failed receive) slices s (received_bytes xs)
            >>= λ (result, s', left).
                process_event_loop
                  (byte_process in_progress failed receive)
                  slices
                  s'
                  (followed_by left ys))
  loop-append slices s xs ys h = elim (Outcome-cases (run s xs)) [
    | inl f ↦ both (rw f refl)
    | inr ((s', rest), f) ↦
        both (
          rw f (sym (loop-feed in_progress failed receive slices s' (rest ++ ys) (fits s' rest f))))
  ]
    where
      both :
          ((run s xs >>= λ t. run t.0 (t.1 ++ ys)) >>= λ t.
          returns (finish in_progress failed receive t))
            ≡ ((run s xs >>= λ t. returns (finish in_progress failed receive t))
                >>= λ (result, s', left).
                    process_event_loop
                      (byte_process in_progress failed receive)
                      slices
                      s'
                      (followed_by left ys))
          → process_event_loop
              (byte_process in_progress failed receive)
              slices
              s
              (received_bytes (xs ++ ys))
            ≡ (process_event_loop
                  (byte_process in_progress failed receive)
                  slices
                  s
                  (received_bytes xs)
                >>= λ (result, s', left).
                    process_event_loop
                      (byte_process in_progress failed receive)
                      slices
                      s'
                      (followed_by left ys))
      both e =
          rw
            (
              loop-feed in_progress failed receive slices s (xs ++ ys) h,
              loop-feed in_progress failed receive slices s xs
                  (omega (arith, h, length-append xs ys)),
              feed-append in_progress failed receive s xs ys,
            )
            e

      fits : (s' : S) (rest : List ℕ) → run s xs ≡ returns (s', rest) → length (rest ++ ys) < slices
      fits s' rest f =
          omega (arith, h, run-length xs s s' rest f, length-append xs ys, length-append rest ys)
