-- ===== src/Basic/Uri/Progress/Opening.antt =====
-- The states of Uri::Parse up to the authority (Basic.Uri.cpp).
use webel.Basic.Uri.{State, Uri}
use webel.Basic.Uri.Parser.{Parser, back, forward, Look}
use webel.Basic.Uri.Parser.Schemes.{
  in_scheme_start_state, behind_scheme, end_scheme, in_scheme_state, in_scheme_data_state,
  in_no_scheme_state, in_relative_or_authority_state, in_authority_first_slash_state,
  in_authority_second_slash_state, in_authority_ignore_slashes_state,
}
use webel.Basic.Uri.Parser.Relative.{
  pop_back, begin_path, by_codepoint, in_relative_state, in_relative_slash_state,
}
use webel.Basic.Uri.Progress.{weight, AdvancesTo, Advances, forward-le, forward-back}
use webel.Prelude.{
  Bool-cases, List, Option, Whenever, arith, inl, inr, length, none, some, true, ℕ, ◌&&◌, ◌+◌, ◌<◌,
  ◌==◌, ◌^◌, ◌∙◌, ◌≡◌, ◌≤◌,
}

module _ (n : ℕ) (p : Parser) (inside : p.pointer ≤ n) (small : n < 2 ^ 31) where
  abbrev from : State → ℕ
  from state = weight n state p.pointer

  stays : forward (back 1 p.pointer) ≡ p.pointer
  stays = forward-back n 1 p.pointer inside small (omega arith) ∙ omega arith

  moves : forward p.pointer ≡ p.pointer + 1
  moves = forward-le n p.pointer inside small

  pub in_scheme_start_state-Advances :
      (override : Option State) (l : Look)
      → length p.buffer ≡ 0
      → Advances n
          (from State.scheme_start_state)
          (in_scheme_start_state override l (record p { state = State.scheme_start_state }))
  unfolding in_scheme_start_state
  in_scheme_start_state-Advances override l e = ground (arith, stays, moves)

  pub in_scheme_data_state-Advances :
      (percent_format : ℕ → List ℕ) (l : Look)
      → Whenever
          (Advances n (from State.scheme_data_state))
          (in_scheme_data_state percent_format l (record p { state = State.scheme_data_state }))
  unfolding in_scheme_data_state
  in_scheme_data_state-Advances percent_format l = ground (arith, moves)

  pub in_no_scheme_state-Advances :
      (base : Option Uri)
      → length p.buffer ≡ 0
      → Whenever
          (Advances n (from State.no_scheme_state))
          (in_no_scheme_state base (record p { state = State.no_scheme_state }))
  unfolding in_no_scheme_state
  in_no_scheme_state-Advances base e = ground (arith, stays)

  pub end_scheme-Advances :
      (override : Option State) (base : Option Uri)
      → Whenever
          (Advances n (from State.scheme_state))
          (end_scheme override base (record p { state = State.scheme_state }))
  unfolding end_scheme behind_scheme
  end_scheme-Advances override base = ground (arith, moves)

  pub in_scheme_state-Advances :
      (override : Option State) (base : Option Uri) (l : Look)
      → Whenever
          (Advances n (from State.scheme_state))
          (in_scheme_state override base l (record p { state = State.scheme_state }))
  unfolding in_scheme_state forward
  in_scheme_state-Advances override base l =
      ground (arith, moves, end_scheme-Advances override base)

  twice : p.pointer + 1 < n → forward (forward p.pointer) ≡ p.pointer + 2
  twice h = rw moves (forward-le n (p.pointer + 1) (omega (arith, h)) small ∙ omega arith)

  pub in_relative_or_authority_state-Advances :
      (l : Look)
      → length p.buffer ≡ 0
      → ((l.remaining_0 == b'/') ≡ true → p.pointer + 1 < n)
      → AdvancesTo n (from State.relative_or_authority_state) (
          in_relative_or_authority_state l (record p { state = State.relative_or_authority_state }))
  unfolding in_relative_or_authority_state
  in_relative_or_authority_state-Advances l e h =
      elim (Bool-cases (l.codepoint == b'/' && l.remaining_0 == b'/')) [
        | inr e' ↦ rw e' (ground (arith, stays))
        | inl e' ↦
            let second : (l.remaining_0 == b'/') ≡ true = ground arith in
            rw e'
              (rw (twice (h second)) (omega (arith, inside, h second), omega (arith, h second), e))
      ]

  pub in_authority_first_slash_state-Advances :
      (l : Look)
      → length p.buffer ≡ 0
      → AdvancesTo n (from State.authority_first_slash_state) (
          in_authority_first_slash_state l (record p { state = State.authority_first_slash_state }))
  unfolding in_authority_first_slash_state
  in_authority_first_slash_state-Advances l e = ground (arith, stays, moves)

  pub in_authority_second_slash_state-Advances :
      (l : Look)
      → length p.buffer ≡ 0
      → AdvancesTo n (from State.authority_second_slash_state) (
          in_authority_second_slash_state l
            (record p { state = State.authority_second_slash_state }))
  unfolding in_authority_second_slash_state
  in_authority_second_slash_state-Advances l e = ground (arith, stays, moves)

  pub in_authority_ignore_slashes_state-Advances :
      (l : Look)
      → length p.buffer ≡ 0
      → AdvancesTo n (from State.authority_ignore_slashes_state) (
          in_authority_ignore_slashes_state l
            (record p { state = State.authority_ignore_slashes_state }))
  unfolding in_authority_ignore_slashes_state
  in_authority_ignore_slashes_state-Advances l e = ground (arith, stays, moves)

  abbrev Onward : State → Parser → Type 0
  Onward state q = AdvancesTo n (from state) q

  pub begin_path-Advances :
      (base : Option Uri) (l : Look) (uri : Uri)
      → Whenever
          (Onward State.relative_state)
          (begin_path base l (record p { state = State.relative_state; uri = uri }))
  unfolding begin_path pop_back
  begin_path-Advances base l uri = ground (arith, stays)

  pub by_codepoint-Advances :
      (base : Option Uri) (l : Look) (uri : Uri)
      → length p.buffer ≡ 0
      → Whenever
          (Onward State.relative_state)
          (by_codepoint base l (record p { state = State.relative_state; uri = uri }))
  unfolding by_codepoint
  by_codepoint-Advances base l uri e = ground (arith, stays, moves, begin_path-Advances base l uri)

  pub in_relative_state-Advances :
      (base : Option Uri) (l : Look)
      → length p.buffer ≡ 0
      → Whenever
          (Onward State.relative_state)
          (in_relative_state base l (record p { state = State.relative_state }))
  unfolding in_relative_state
  in_relative_state-Advances none l e =
      ground (arith, by_codepoint-Advances none l (record p.uri { relative_flag = true }))
  in_relative_state-Advances (some b) l e = ground (
    arith,
    by_codepoint-Advances (some b) l (record p.uri { relative_flag = true }),
    by_codepoint-Advances (some b) l (record p.uri { relative_flag = true; scheme = b.scheme }),
  )

  pub in_relative_slash_state-Advances :
      (base : Option Uri) (l : Look)
      → length p.buffer ≡ 0
      → Whenever
          (Onward State.relative_slash_state)
          (in_relative_slash_state base l (record p { state = State.relative_slash_state }))
  unfolding in_relative_slash_state
  in_relative_slash_state-Advances base l e = ground (arith, stays, moves)
