-- ===== src/Basic/Uri/Progress/Termination.antt =====
-- The loop of Uri::Parse ends (Basic.Uri.cpp).
use webel.Prelude.{
  Bool, Bool-cases, List, Option, Option-cases, Outcome, Outcome-cases, [], arith, fatal, get_elem?,
  inl, inr, leb, length, ltb, refl, returns, some, suc, sym, true, zero, ℕ, ◌%◌, ◌*◌, ◌+◌, ◌<◌,
  ◌==◌, ◌^◌, ◌∙◌, ◌∷◌, ◌≡◌, ◌≤◌, Whenever, Whenever->>=, Whenever-returns,
}
use webel.Basic.Uri.Progress.{weight, Held, AdvancesTo, Advances}
use webel.Basic.Uri.{
  State, scheme_start_state, scheme_state, scheme_data_state, no_scheme_state,
  relative_or_authority_state, relative_state, relative_slash_state, authority_first_slash_state,
  authority_second_slash_state, authority_ignore_slashes_state, authority_state, file_host_state,
  host_state, hostname_state, port_state, relative_path_start_state, relative_path_state,
  query_state, fragment_state, Uri,
}
use webel.Basic.Uri.Parser.{Parser, goes_on, ends, look}
use webel.Basic.Uri.Parser.Loop.{advanced, dispatch, turn, parse_loop, turns, begun, parse}
use webel.Basic.Uri.Parser.Turns.{
  parse_loop-goes_on, parse_loop-ends, parse_loop-fatal, parse_loop-outside,
}
use webel.Basic.Uri.Progress.Opening.{
  in_scheme_start_state-Advances, in_scheme_data_state-Advances, in_no_scheme_state-Advances,
  in_scheme_state-Advances, in_relative_or_authority_state-Advances,
  in_authority_first_slash_state-Advances, in_authority_second_slash_state-Advances,
  in_authority_ignore_slashes_state-Advances, in_relative_state-Advances,
  in_relative_slash_state-Advances,
}
use webel.Basic.Uri.Progress.Hosts.{
  in_authority_state-Advances, in_file_host_state-Advances, in_host_state-Advances,
  in_hostname_state-Advances, in_port_state-Advances, in_relative_path_start_state-Advances,
  in_relative_path_state-Advances, in_query_state-Advances, in_fragment_state-Advances,
}

get_elem?-inside : (xs : List ℕ) (i : ℕ) {c : ℕ} → get_elem? xs i ≡ some c → i < length xs
get_elem?-inside [] i e = cc
get_elem?-inside (x ∷ xs) zero e = omega arith
get_elem?-inside (x ∷ xs) (suc i) e = omega (arith, get_elem?-inside xs i e)

-- A slash behind the code point stands inside of the input.
look-slash :
    (input : List ℕ) (pointer : ℕ)
    → ((look input pointer).remaining_0 == b'/') ≡ true
    → pointer + 1 < length input
unfolding look
look-slash input pointer e = elim (Option-cases (get_elem? input (pointer + 1))) [
  | inr (c, q) ↦ get_elem?-inside input (pointer + 1) q
  | inl q ↦ absurd (elim (Bool-cases (ltb pointer (length input))) [
    | inl t ↦ ground arith
    | inr t ↦ ground arith
  ])
]

pub Held-start : (state : State) → Held state 0 0
Held-start scheme_start_state = refl
Held-start state = omega arith

pub weight-start : (n : ℕ) (state : State) → weight n state 0 < suc (19 * (n + 2))
weight-start n scheme_start_state = omega arith
weight-start n state = omega arith

module _ (percent_format : ℕ → List ℕ) (base : Option Uri) (override : Option State) where
  module _ (input : List ℕ) (small : length input < 2 ^ 31) where
    abbrev size : ℕ
    size = length input

    dispatch-Advances :
        (state : State) (p : Parser)
        → p.pointer ≤ size
        → Held state (length p.buffer) p.pointer
        → Whenever (Advances size (weight size state p.pointer)) (
            dispatch percent_format base override state
              (look input p.pointer)
              (record p { state = state }))
    unfolding dispatch
    dispatch-Advances scheme_start_state p h k =
        in_scheme_start_state-Advances size p h small override (look input p.pointer) k
    dispatch-Advances scheme_state p h k =
        in_scheme_state-Advances size p h small override base (look input p.pointer)
    dispatch-Advances scheme_data_state p h k =
        in_scheme_data_state-Advances size p h small percent_format (look input p.pointer)
    dispatch-Advances no_scheme_state p h k = in_no_scheme_state-Advances size p h small base k
    dispatch-Advances relative_or_authority_state p h k =
        in_relative_or_authority_state-Advances size p h small (look input p.pointer) k
          (look-slash input p.pointer)
    dispatch-Advances relative_state p h k =
        Whenever->>= (AdvancesTo size (weight size relative_state p.pointer))
          (Advances size (weight size relative_state p.pointer)) _ _
          (in_relative_state-Advances size p h small base (look input p.pointer) k) (λ q a. a)
    dispatch-Advances relative_slash_state p h k =
        Whenever->>= (AdvancesTo size (weight size relative_slash_state p.pointer))
          (Advances size (weight size relative_slash_state p.pointer)) _ _
          (in_relative_slash_state-Advances size p h small base (look input p.pointer) k) (λ q a. a)
    dispatch-Advances authority_first_slash_state p h k =
        in_authority_first_slash_state-Advances size p h small (look input p.pointer) k
    dispatch-Advances authority_second_slash_state p h k =
        in_authority_second_slash_state-Advances size p h small (look input p.pointer) k
    dispatch-Advances authority_ignore_slashes_state p h k =
        in_authority_ignore_slashes_state-Advances size p h small (look input p.pointer) k
    dispatch-Advances authority_state p h k =
        in_authority_state-Advances size p h small percent_format (look input p.pointer) k
    dispatch-Advances file_host_state p h k =
        in_file_host_state-Advances size p h small (look input p.pointer)
    dispatch-Advances host_state p h k =
        in_host_state-Advances size p h small override (look input p.pointer)
    dispatch-Advances hostname_state p h k =
        in_hostname_state-Advances size p h small override (look input p.pointer)
    dispatch-Advances port_state p h k =
        in_port_state-Advances size p h small override (look input p.pointer)
    dispatch-Advances relative_path_start_state p h k =
        in_relative_path_start_state-Advances size p h small (look input p.pointer)
    dispatch-Advances relative_path_state p h k =
        in_relative_path_state-Advances size p h small percent_format override
          (look input p.pointer)
    dispatch-Advances query_state p h k =
        Whenever->>= (AdvancesTo size (weight size query_state p.pointer))
          (Advances size (weight size query_state p.pointer)) _ _
          (in_query_state-Advances size p h small percent_format override (look input p.pointer))
          (λ q a. a)
    dispatch-Advances fragment_state p h k =
        Whenever->>= (AdvancesTo size (weight size fragment_state p.pointer))
          (Advances size (weight size fragment_state p.pointer)) _ _
          (in_fragment_state-Advances size p h small percent_format (look input p.pointer))
          (λ q a. a)

    abbrev loop : Outcome (Bool × Uri) → ℕ → Parser → Outcome (Bool × Uri)
    loop = parse_loop percent_format base override input

    pub turn-Advances :
        (p q : Parser)
        → leb p.pointer (length input % 2 ^ 32) ≡ true
        → Held p.state (length p.buffer) p.pointer
        → turn percent_format base override input p ≡ returns (goes_on q)
        → AdvancesTo size (weight size p.state p.pointer) q
    unfolding turn
    turn-Advances p q e k t =
        Whenever-returns (Advances size (weight size p.state p.pointer)) _ (goes_on q)
          (dispatch-Advances p.state p (ground arith) k) t

    -- With more fuel than turns are left, neither more of it nor what stands at its end matters.
    parse_loop-more :
        (spent spent' : Outcome (Bool × Uri)) (fuel more : ℕ) (p : Parser)
        → Held p.state (length p.buffer) p.pointer
        → weight size p.state p.pointer < fuel
        → fuel ≤ more
        → loop spent' more p ≡ loop spent fuel p
    parse_loop-more spent spent' zero more p k w m = absurd (omega arith)
    parse_loop-more spent spent' (suc fuel) zero p k w m = absurd (omega arith)
    parse_loop-more spent spent' (suc fuel) (suc more) p k w m =
        elim (Bool-cases (leb p.pointer (length input % 2 ^ 32))) [
          | inr e ↦
              parse_loop-outside percent_format base override input spent' p more e
              ∙ sym (parse_loop-outside percent_format base override input spent p fuel e)
          | inl e ↦ elim (Outcome-cases (turn percent_format base override input p)) [
            | inl t ↦
                parse_loop-fatal percent_format base override input spent' p more e t
                ∙ sym (parse_loop-fatal percent_format base override input spent p fuel e t)
            | inr (ends result uri, t) ↦
                parse_loop-ends percent_format base override input spent' p more result uri e t
                ∙ sym
                    (parse_loop-ends percent_format base override input spent p fuel result uri e t)
            | inr (goes_on q, t) ↦
                let (lighter, inside, held) = turn-Advances p q e k t in
                parse_loop-goes_on percent_format base override input spent' p more q e t
                ∙ parse_loop-more spent spent' fuel more (advanced q) held (omega arith)
                    (omega arith)
                ∙ sym (parse_loop-goes_on percent_format base override input spent p fuel q e t)
          ]
        ]

    -- Parse ends on any input of fewer than 2 ^ 31 code points, whatever the base, the state that
    -- overrides the first one and the Uri are: with at least 19 turns for each code point and 39 more
    -- the loop gives what Parse gives, whatever it would give where its fuel runs out.
    pub parse-ends :
        (uri : Uri) (spent : Outcome (Bool × Uri)) (fuel : ℕ)
        → 19 * length input + 39 ≤ fuel
        → parse_loop percent_format base override input spent fuel
            (begun percent_format base override input uri)
          ≡ parse percent_format base override input uri
    unfolding parse
    parse-ends uri spent fuel h =
        parse_loop-more fatal spent (suc (turns percent_format base override input)) fuel
          (begun percent_format base override input uri)
          (Held-start (begun percent_format base override input uri).state)
          (weight-start size (begun percent_format base override input uri).state) (omega arith)
