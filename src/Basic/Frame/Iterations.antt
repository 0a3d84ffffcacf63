-- ===== src/Basic/Frame/Iterations.antt =====
-- Runs of the loop of Basic::process_event (Basic.Frame.cpp) over some of its iterations.
use webel.Prelude.{
  ℕ, zero, suc, ◌+◌, ◌-◌, ◌≤◌, ◌<◌, ◌≡◌, refl, ap, ◌∙◌, true, false, returns, arith,
}
use webel.Basic.Frame.{Process, Event, ready, exited, process_event_loop}

module _ {S : Type 0} (p : Process S) where
  -- `k` iterations lead from one state and event to another.
  abbrev pub Advances : ℕ → S → Event → S → Event → Type 0
  Advances k s event s' event' =
      (slices : ℕ)
      → k ≤ slices
      → process_event_loop p slices s event ≡ process_event_loop p (slices - k) s' event'

  pub Advances-none : (s : S) (e : Event) → Advances 0 s e s e
  Advances-none s e slices h = ap (λ n. process_event_loop p n s e) (omega arith)

  pub Advances-suc :
      (k : ℕ) (s : S) (e : Event) (s' : S) (e' : Event) (s'' : S) (e'' : Event)
      → p.in_progress s ≡ true
      → p.step s e ≡ returns (ready, s', e')
      → Advances k s' e' s'' e''
      → Advances (suc k) s e s'' e''
  unfolding process_event_loop
  Advances-suc k s e s' e' s'' e'' h g a zero m = absurd (omega arith)
  Advances-suc k s e s' e' s'' e'' h g a (suc n) m =
      rw (h, process_event_loop)
        (rw g (a n (omega arith) ∙ ap (λ m. process_event_loop p m s'' e'') (omega arith)))

  pub Advances-one :
      (s : S) (event : Event) (s' : S) (event' : Event)
      → p.in_progress s ≡ true
      → p.step s event ≡ returns (ready, s', event')
      → Advances 1 s event s' event'
  Advances-one s event s' event' h e =
      Advances-suc 0 s event s' event' s' event' h e (Advances-none s' event')

  pub Advances-then :
      (k l : ℕ) (s : S) (e : Event) (s' : S) (e' : Event) (s'' : S) (e'' : Event)
      → Advances k s e s' e'
      → Advances l s' e' s'' e''
      → Advances (k + l) s e s'' e''
  Advances-then k l s e s' e' s'' e'' h g slices m =
      h slices (omega arith)
      ∙ g (slices - k) (omega arith)
      ∙ ap (λ n. process_event_loop p n s'' e'') (omega arith)

  loop_ended :
      (s : S) (e : Event) (n : ℕ)
      → p.in_progress s ≡ false
      → 0 < n
      → process_event_loop p n s e ≡ returns (exited, s, e)
  unfolding process_event_loop
  loop_ended s e zero g m = absurd (omega arith)
  loop_ended s e (suc n) g m = rw (g, process_event_loop) refl

  pub Advances-exited :
      (k : ℕ) (s : S) (e : Event) (s' : S) (e' : Event) (slices : ℕ)
      → Advances k s e s' e'
      → p.in_progress s' ≡ false
      → k < slices
      → process_event_loop p slices s e ≡ returns (exited, s', e')
  Advances-exited k s e s' e' slices h g m =
      h slices (omega arith) ∙ loop_ended s' e' (slices - k) g (omega arith)
