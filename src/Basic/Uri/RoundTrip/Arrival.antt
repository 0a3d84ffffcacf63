-- ===== src/Basic/Uri/RoundTrip/Arrival.antt =====
-- How far Uri::Parse has come in its input (Basic.Uri.cpp).
use webel.Basic.Uri.RoundTrip.Leads.{
  at, TurnsTo, CodeIs, moved, Leads, Leads-self, Leads-then, Leads-turn, code_at-length,
  code_at-end, Leads-char, Leads-again, Takes, Leads-takes, Leads-parse,
}
use webel.Basic.Uri.RoundTrip.Places.{authority_char, authority_takes, authority_ends}
use webel.Basic.Uri.Parser.{Parser, back, forward}
use webel.Basic.Uri.Parser.Loop.{advanced, begun, parse}
use webel.Basic.Uri.{State, Uri}
use webel.Basic.Uri.Progress.{forward-le, forward-back}
use webel.Prelude.{
  All, Bool, List, [], ap, append-nil, append_assoc, arith, length, length-append, none, refl,
  returns, subst, sym, true, ℕ, ◌++◌, ◌+◌, ◌<◌, ◌^◌, ◌∙◌, ◌∷◌, ◌≡◌, ◌≤◌,
}
use webel.Basic.Utf8.Encoder.{eof}

module _ (percent_format : ℕ → List ℕ) (input : List ℕ) (small : length input < 2 ^ 31)
    (uri : Uri) where
  abbrev start : Parser
  start = begun percent_format none none input uri

  -- Parse comes to the parser where `rest` is left of the input.
  abbrev pub Arrives : Parser → List ℕ → Type 0
  Arrives p rest =
      (before : List ℕ) × (before ++ rest ≡ input)
      × Leads percent_format input small start (moved p (length before))

  pub Arrives-start : Arrives start input
  Arrives-start = ([], refl, Leads-self percent_format input small start)

  pub Arrives-char :
      (c : ℕ) (rest : List ℕ) (p q : Parser)
      → Arrives p (c ∷ rest)
      → ((i : ℕ) → CodeIs input i c → TurnsTo percent_format input (moved p i) (moved q i))
      → Arrives q rest
  Arrives-char c rest p q (before, whole, leads) step = (
    before ++ c ∷ [],
    append_assoc before (c ∷ []) rest ∙ whole,
    Leads-then percent_format input small start (moved p (length before)) _ leads (
        Leads-char percent_format input small before c rest whole p q
          (step (length before) (code_at-length percent_format input small before c rest whole))),
  )

  pub Arrives-again :
      (c : ℕ) (rest : List ℕ) (p q : Parser)
      → Arrives p (c ∷ rest)
      → ((i : ℕ) → CodeIs input i c → TurnsTo percent_format input (moved p i) (moved q (back 1 i)))
      → Arrives q (c ∷ rest)
  Arrives-again c rest p q (before, whole, leads) step = (
    before,
    whole,
    Leads-then percent_format input small start (moved p (length before)) _ leads (
        Leads-again percent_format input small before c rest whole p q
          (step (length before) (code_at-length percent_format input small before c rest whole))),
  )

  pub Arrives-takes :
      (char : ℕ → Bool) (grown : List ℕ → Parser) (taken cs rest : List ℕ)
      → Takes percent_format input small char grown
      → All (λ c. char c ≡ true) cs
      → Arrives (grown taken) (cs ++ rest)
      → Arrives (grown (taken ++ cs)) rest
  Arrives-takes char grown taken cs rest takes each (before, whole, leads) = (
    before ++ cs,
    append_assoc before cs rest ∙ whole,
    Leads-then percent_format input small start (moved (grown taken) (length before)) _ leads
        (Leads-takes percent_format input small char grown takes taken before cs rest each whole),
  )

  pub Arrives-takes_rest :
      (char : ℕ → Bool) (grown : List ℕ → Parser) (cs : List ℕ)
      → Takes percent_format input small char grown
      → All (λ c. char c ≡ true) cs
      → Arrives (grown []) cs
      → Arrives (grown cs) []
  Arrives-takes_rest char grown cs takes each arrived =
      Arrives-takes char grown [] cs [] takes each (rw (append-nil cs) arrived)

  -- The last turn, on the end of the input.
  pub Arrives-end :
      (p q : Parser)
      → Arrives p []
      → ((i : ℕ) → CodeIs input i eof → TurnsTo percent_format input (moved p i) (moved q i))
      → parse percent_format none none input uri ≡ returns (true, q.uri)
  Arrives-end p q (before, whole, leads) step =
      let ended : length before ≡ length input = ap length (sym (append-nil before) ∙ whole) in
      let last : Parser = moved q (length input) in
      Leads-parse percent_format input small uri (advanced last)
        (Leads-then percent_format input small start (moved p (length input)) (advanced last)
          (subst (λ (i : ℕ). Leads percent_format input small start (moved p i)) ended leads)
          (Leads-turn percent_format input small (moved p (length input)) last (omega arith)
            (step (length input) (code_at-end percent_format input small))))
        (forward-le (length input) (length input) (omega arith) small)

  -- The authority is read twice: to its end, and from its start as a host.
  pub Arrives-authority :
      (u : Uri) (cs rest : List ℕ)
      → All (λ c. authority_char c ≡ true) cs
      → Arrives (at State.authority_state [] u 0) (cs ++ b'/' ∷ rest)
      → Arrives (at State.host_state [] u 0) (cs ++ b'/' ∷ rest)
  Arrives-authority u cs rest each (before, whole, leads) =
      let host : ℕ → Parser = λ i. at State.host_state [] u i in
      let end : ℕ = length (before ++ cs) in
      let split : end ≡ length before + length cs = length-append before cs in
      let behind : (before ++ cs) ++ b'/' ∷ rest ≡ input =
        append_assoc before cs (b'/' ∷ rest) ∙ whole in
      let inside : end ≤ length input =
        omega (arith, ap length behind, length-append (before ++ cs) (b'/' ∷ rest)) in
      let slash = code_at-length percent_format input small (before ++ cs) b'/' rest behind in
      let returned : forward (back (length cs + 1) end) ≡ length before =
        forward-back (length input) (length cs + 1) end inside small (omega (arith, split))
        ∙ omega (arith, split) in
      (
        before,
        whole,
        Leads-then percent_format input small start
            (moved (at State.authority_state [] u 0) (length before)) (host (length before)) leads
            (Leads-then percent_format input small _ (at State.authority_state cs u end) _
              (Leads-takes percent_format input small authority_char
                (λ taken. at State.authority_state taken u 0)
                (authority_takes percent_format input small u) [] before cs (b'/' ∷ rest) each
                whole)
              (subst
                (λ (i : ℕ).
                  Leads percent_format input small (at State.authority_state cs u end) (host i))
                returned
                (Leads-turn percent_format input small (at State.authority_state cs u end)
                  (host (back (length cs + 1) end)) inside
                  (authority_ends percent_format input small u cs end slash)))),
      )
