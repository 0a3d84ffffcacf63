-- ===== src/Basic/Frame/Owner.antt =====
-- A frame that runs another one inside its own state, as the frames of the program do with
-- process_event_change_state_on_fail (Basic.Frame.cpp).
use webel.Prelude.{
  Bool-cases, Option, Outcome, Outcome-cases, false, inl, inr, none, refl, returns, some, ◌>>=◌,
  ◌≡◌, Whenever, Whenever->>=, Whenever-returns,
}
use webel.Basic.Frame.{
  ProcessResult, blocked, ready, exited, Event, Processed, Process, process_event,
  process_event_change_state_on_fail,
}

module _ {D : Type 0} where
  -- The owner, which the failure of its frame may have moved.
  abbrev owner_or : D → Option D → D
  owner_or d none = d
  owner_or d (some d') = d'

  -- What a call keeps of the owner.
  abbrev pub After : (D → Type 0) → ProcessResult × D × Event → Type 0
  After P (result, d, event) = P d

  went_on :
      (P : D → Type 0) (r : ProcessResult) (go_on : D → Outcome D) (d : D) (event : Event)
      → P d
      → Whenever P (go_on d)
      → Whenever (After P) (elim r [
        | blocked ↦ returns (blocked, d, event)
        | ready ↦ go_on d >>= λ d''. returns (ready, d'', event)
        | exited ↦ go_on d >>= λ d''. returns (ready, d'', event)
      ])
  went_on P blocked go_on d event h g = h
  went_on P ready go_on d event h g =
      Whenever->>= P (After P) (go_on d) (λ d''. returns (ready, d'', event)) g (λ d' q. q)
  went_on P exited go_on d event h g =
      Whenever->>= P (After P) (go_on d) (λ d''. returns (ready, d'', event)) g (λ d' q. q)

module _ {D S : Type 0} where
  -- The owner's state, `switched` where the frame fails, and what it goes on with where the frame is
  -- not blocked.
  unfoldable pub through :
      Process S → (D → S) → (D → S → D) → Outcome D → (D → Outcome D) → D → Event → Processed D
  through p get put switched go_on d event =
      process_event_change_state_on_fail p (get d) event switched >>= λ (result, s, event', owner).
      let d' = put (owner_or d owner) s in
      elim result [
        | blocked ↦ returns (blocked, d', event')
        | ready ↦ go_on d' >>= λ d''. returns (ready, d'', event')
        | exited ↦ go_on d' >>= λ d''. returns (ready, d'', event')
      ]

  -- What holds of the owner in whatever way it goes on.
  pub through-Whenever :
      (P : D → Type 0) (p : Process S) (get : D → S) (put : D → S → D) (switched : Outcome D)
      (go_on : D → Outcome D) (d : D) (event : Event)
      → ((s : S) → P (put d s))
      → Whenever (λ o. (s : S) → P (put o s)) switched
      → ((s : S) → Whenever P (go_on (put d s)))
      → Whenever (After P) (through p get put switched go_on d event)
  unfolding through process_event_change_state_on_fail
  through-Whenever P p get put switched go_on d event h k f =
      elim (Outcome-cases (process_event p (get d) event)) [
        | inl e ↦ rw (e, process_event_change_state_on_fail) tt
        | inr ((r, s, event'), e) ↦ elim (Bool-cases (p.failed s)) [
          | inl m ↦ elim (Outcome-cases switched) [
            | inl q ↦ rw (e, process_event_change_state_on_fail) (rw m (rw q tt))
            | inr (o, q) ↦
                rw (e, process_event_change_state_on_fail)
                  (rw m (rw q (Whenever-returns (λ o'. (s' : S) → P (put o' s')) switched o k q s)))
          ]
          | inr m ↦
              rw (e, process_event_change_state_on_fail)
                (rw m (went_on P r go_on (put d s) event' (h s) (f s)))
        ]
      ]

  -- A frame that has ended without failing.
  pub through-exited :
      (p : Process S) (get : D → S) (put : D → S → D) (switched : Outcome D) (go_on : D → Outcome D)
      (d d' : D) (s : S) (event event' : Event)
      → process_event p (get d) event ≡ returns (exited, s, event')
      → p.failed s ≡ false
      → go_on (put d s) ≡ returns d'
      → through p get put switched go_on d event ≡ returns (ready, d', event')
  unfolding through process_event_change_state_on_fail
  through-exited p get put switched go_on d d' s event event' e m g =
      rw (e, process_event_change_state_on_fail) (rw m (rw g refl))
