-- ===== src/Basic/Frame/Loop.antt =====
-- Frames of bytes that keep an invariant (Basic.Frame.cpp): the loop returns, and says why.
use webel.Prelude.{
  ℕ, ◌<◌, ◌≡◌, refl, ap, ◌∙◌, Bool, true, List, [], ◌∷◌, ◌++◌, Outcome, returns, Returns,
  Returns-returns, length, if◌then◌else◌, inl, inr, Bool-cases,
}
use webel.Basic.Frame.{blocked, exited, received_bytes, process_event, max_slices}
use webel.Basic.Frame.Bytes.{byte_process, feed, feed-nil, feed_received, feed_ended, loop-feed}

module _ {S : Type 0} (in_progress failed : S → Bool) (receive : S → ℕ → Outcome S)
    (Inv : S → Type 0)
    (keeps : (s : S) (b : ℕ) → Inv s → in_progress s ≡ true → Returns Inv (receive s b)) where
  -- What is true behind a run over `bs`: the invariant, and bytes are left only if the frame has
  -- ended; what is read and what is left make up the input.
  pub record Settled (bs : List ℕ) (s : S) (rest : List ℕ) : Type 0 where
    pub invariant : Inv s
    pub read : List ℕ
    pub parts : bs ≡ read ++ rest
    pub waits : in_progress s ≡ true → rest ≡ []

  pub feed-Settled :
      (bs : List ℕ) (s : S)
      → Inv s
      → (s' : S) × (rest : List ℕ) × (feed in_progress failed receive s bs ≡ returns (s', rest))
        × Settled bs s' rest
  feed-Settled [] s h = (
    s,
    [],
    feed-nil in_progress failed receive s,
    record { invariant = h; read = []; parts = refl; waits = λ _. refl },
  )
  feed-Settled (b ∷ bs) s h = elim (Bool-cases (in_progress s)) [
    | inl e ↦
        let (s1, received, h1) = Returns-returns Inv (receive s b) (keeps s b h e) in
        let (s', rest, fed, settled) = feed-Settled bs s1 h1 in
        (
          s',
          rest,
          feed_received in_progress failed receive s b bs s1 e received ∙ fed,
          record {
            invariant = settled.invariant;
            read = b ∷ settled.read;
            parts = ap (◌∷◌ b) settled.parts;
            waits = settled.waits;
          },
        )
    | inr e ↦ (
      s,
      b ∷ bs,
      feed_ended in_progress failed receive s b bs e,
      record { invariant = h; read = []; parts = refl; waits = λ p. cc },
    )
  ]

  -- With fewer bytes than iterations the loop throws nothing.
  pub process_event-Settled :
      (bs : List ℕ) (s : S)
      → length bs < max_slices
      → Inv s
      → (s' : S) × (rest : List ℕ) × (process_event
            (byte_process in_progress failed receive)
            s
            (received_bytes bs)
          ≡ returns (if in_progress s' then blocked else exited, s', received_bytes rest))
        × Settled bs s' rest
  unfolding process_event
  process_event-Settled bs s short h =
      let (s', rest, fed, settled) = feed-Settled bs s h in
      (s', rest, loop-feed in_progress failed receive max_slices s bs short ∙ rw fed refl, settled)
