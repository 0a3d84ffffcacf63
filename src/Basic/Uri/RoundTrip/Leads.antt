-- ===== src/Basic/Uri/RoundTrip/Leads.antt =====
-- Stretches of the loop of Uri::Parse (Basic.Uri.cpp).
use webel.Prelude.{
  All, Bool, List, Outcome, [], ap, append-nil, append_assoc, arith, false, fatal, get_elem?,
  length, length-append, none, refl, returns, some, subst, suc, sym, true, ℕ, ◌*◌, ◌++◌, ◌+◌, ◌<◌,
  ◌^◌, ◌∙◌, ◌∷◌, ◌≡◌, ◌≤◌,
}
use webel.Basic.Utf8.Encoder.{eof}
use webel.Basic.Uri.{fatal, fatal, fatal, fatal, State, Uri}
use webel.Basic.Uri.Parser.{Parser, goes_on, back, forward, look}
use webel.Basic.Uri.Parser.Loop.{advanced, turn, parse_loop, begun, parse}
use webel.Basic.Uri.Parser.Turns.{parse_loop-goes_on, parse_loop-fatal, parse_loop-outside}
use webel.Basic.Uri.Progress.{forward-le, forward-back}
use webel.Basic.Uri.Progress.Termination.{parse-ends}

-- The parser in a state, without credentials and brackets.
abbrev pub at : State → List ℕ → Uri → ℕ → Parser
at state buffer uri pointer = record {
  uri = uri;
  state = state;
  buffer = buffer;
  at_flag = false;
  brackets_flag = false;
  pointer = pointer;
}

abbrev pub TurnsTo : (ℕ → List ℕ) → List ℕ → Parser → Parser → Type 0
TurnsTo percent_format input p q = turn percent_format none none input p ≡ returns (goes_on q)

-- The code point at a pointer.
abbrev pub CodeIs : List ℕ → ℕ → ℕ → Type 0
CodeIs input pointer c = (look input pointer).codepoint ≡ c

abbrev pub moved : Parser → ℕ → Parser
moved p pointer = record p { pointer = pointer }

get_elem?-append :
    (xs : List ℕ) (c : ℕ) (rest : List ℕ) → get_elem? (xs ++ c ∷ rest) (length xs) ≡ some c
get_elem?-append [] c rest = refl
get_elem?-append (x ∷ xs) c rest = get_elem?-append xs c rest

module _ (percent_format : ℕ → List ℕ) (input : List ℕ) (small : length input < 2 ^ 31) where
  abbrev loop : ℕ → Parser → Outcome (Bool × Uri)
  loop = parse_loop percent_format none none input fatal

  abbrev pub code_at : ℕ → ℕ
  code_at pointer = (look input pointer).codepoint

  -- From one parser the loop comes to the other.
  abbrev pub Leads : Parser → Parser → Type 0
  Leads p q = (fuel : ℕ) → (more : ℕ) × (fuel ≤ more) × (loop more p ≡ loop fuel q)

  pub Leads-self : (p : Parser) → Leads p p
  Leads-self p fuel = (fuel, omega arith, refl)

  pub Leads-then : (p q r : Parser) → Leads p q → Leads q r → Leads p r
  Leads-then p q r h k fuel =
      let (middle, below, e) = k fuel in
      let (more, below', e') = h middle in (more, omega arith, e' ∙ e)

  pub Leads-turn :
      (p q : Parser)
      → p.pointer ≤ length input
      → turn percent_format none none input p ≡ returns (goes_on q)
      → Leads p (advanced q)
  Leads-turn p q h e fuel = (
    suc fuel,
    omega arith,
    parse_loop-goes_on percent_format none none input fatal p fuel q (ground arith) e,
  )

  pub code_at-length :
      (before : List ℕ) (c : ℕ) (rest : List ℕ)
      → before ++ c ∷ rest ≡ input
      → code_at (length before) ≡ c
  unfolding look
  code_at-length before c rest e =
      let inside : length before < length input =
        omega (arith, ap length e, length-append before (c ∷ rest)) in
      let found : get_elem? input (length before) ≡ some c =
        ap (λ t. get_elem? t (length before)) (sym e) ∙ get_elem?-append before c rest in
      ground arith

  pub code_at-end : code_at (length input) ≡ eof
  unfolding look
  code_at-end = ground arith

  module _ (before : List ℕ) (c : ℕ) (rest : List ℕ) (whole : before ++ c ∷ rest ≡ input) where
    length_before : length before < length input
    length_before = omega (arith, ap length whole, length-append before (c ∷ rest))

    -- A turn that takes the code point, and one that leaves it to another state.
    pub Leads-char :
        (p q : Parser)
        → turn percent_format none none input (moved p (length before))
          ≡ returns (goes_on (moved q (length before)))
        → Leads (moved p (length before)) (moved q (length (before ++ c ∷ [])))
    Leads-char p q e =
        let next : forward (length before) ≡ length (before ++ c ∷ []) =
          forward-le (length input) (length before) (omega (arith, length_before)) small
          ∙ sym (length-append before (c ∷ [])) in
        subst (λ (i : ℕ). Leads (moved p (length before)) (moved q i)) next
          (Leads-turn (moved p (length before)) (moved q (length before))
            (omega (arith, length_before)) e)

    pub Leads-again :
        (p q : Parser)
        → turn percent_format none none input (moved p (length before))
          ≡ returns (goes_on (moved q (back 1 (length before))))
        → Leads (moved p (length before)) (moved q (length before))
    Leads-again p q e =
        let same : forward (back 1 (length before)) ≡ length before =
          forward-back (length input) 1 (length before) (omega (arith, length_before)) small
            (omega arith)
          ∙ omega arith in
        subst (λ (i : ℕ). Leads (moved p (length before)) (moved q i)) same
          (Leads-turn (moved p (length before)) (moved q (back 1 (length before)))
            (omega (arith, length_before)) e)

  -- A state that takes code points: `grown` is the parser by those that were taken.
  module _ (char : ℕ → Bool) (grown : List ℕ → Parser) where
    abbrev pub Takes : Type 0
    Takes =
        (taken : List ℕ) (c : ℕ) (pointer : ℕ)
        → char c ≡ true
        → code_at pointer ≡ c
        → turn percent_format none none input (moved (grown taken) pointer)
          ≡ returns (goes_on (moved (grown (taken ++ c ∷ [])) pointer))

    pub Leads-takes :
        (takes : Takes) (taken before cs rest : List ℕ)
        → All (λ c. char c ≡ true) cs
        → before ++ (cs ++ rest) ≡ input
        → Leads
            (moved (grown taken) (length before))
            (moved (grown (taken ++ cs)) (length (before ++ cs)))
    Leads-takes takes taken before [] rest h e =
        rw (append-nil taken, append-nil before) (Leads-self (moved (grown taken) (length before)))
    Leads-takes takes taken before (c ∷ cs) rest (h, hs) e =
        let here = code_at-length before c (cs ++ rest) e in
        let behind : (before ++ c ∷ []) ++ (cs ++ rest) ≡ input =
          append_assoc before (c ∷ []) (cs ++ rest) ∙ e in
        Leads-then (moved (grown taken) (length before))
          (moved (grown (taken ++ c ∷ [])) (length (before ++ c ∷ [])))
          (moved (grown (taken ++ c ∷ cs)) (length (before ++ c ∷ cs)))
          (Leads-char before c (cs ++ rest) e (grown taken) (grown (taken ++ c ∷ []))
            (takes taken c (length before) h here))
          (rw (sym (append_assoc taken (c ∷ []) cs), sym (append_assoc before (c ∷ []) cs))
            (Leads-takes takes (taken ++ c ∷ []) (before ++ c ∷ []) cs rest hs behind))

  -- The end of the input.
  pub Leads-parse :
      (uri : Uri) (p : Parser)
      → Leads (begun percent_format none none input uri) p
      → p.pointer ≡ length input + 1
      → parse percent_format none none input uri ≡ returns (true, p.uri)
  Leads-parse uri p h e =
      let (more, below, reached) = h (suc (suc (19 * (length input + 2)))) in
      sym (parse-ends percent_format none none input small uri fatal more (omega arith))
      ∙ reached
      ∙ parse_loop-outside percent_format none none input fatal p (suc (19 * (length input + 2)))
          (ground arith)

  -- A turn that faults.
  pub Leads-fault :
      (uri : Uri) (p : Parser)
      → Leads (begun percent_format none none input uri) p
      → p.pointer ≤ length input
      → turn percent_format none none input p ≡ fatal
      → parse percent_format none none input uri ≡ fatal
  Leads-fault uri p h inside e =
      let fuel : ℕ = suc (19 * (length input + 2)) in
      let (more, below, reached) = h (suc fuel) in
      sym (parse-ends percent_format none none input small uri fatal more (omega arith))
      ∙ reached
      ∙ parse_loop-fatal percent_format none none input fatal p fuel (ground arith) e
