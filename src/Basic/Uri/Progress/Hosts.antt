-- ===== src/Basic/Uri/Progress/Hosts.antt =====
-- The states of Uri::Parse from the authority on (Basic.Uri.cpp).
use webel.Prelude.{
  List, Option, [], arith, if◌then◌else◌, length, length-append, ℕ, ◌++◌, ◌+◌, ◌<◌, ◌^◌, ◌∙◌, ◌∷◌,
  ◌≡◌, ◌≤◌, Whenever, Whenever->>=, Whenever-any,
}
use webel.Basic.Uri.{State}
use webel.Basic.Uri.Parser.{Parser, back, forward, Look}
use webel.Basic.Uri.Parser.Hosts.{
  percent_forty, credentials, end_credentials, in_authority_state, end_host, in_file_host_state,
  in_host_state, end_port, in_port_state,
}
use webel.Basic.Uri.Parser.Paths.{
  in_relative_path_start_state, end_segment, in_relative_path_state, end_query, in_query_state,
  in_fragment_state,
}
use webel.Basic.Uri.Progress.{weight, AdvancesTo, Advances, forward-le, forward-back}

module _ (n : ℕ) (p : Parser) (inside : p.pointer ≤ n) (small : n < 2 ^ 31) where
  abbrev from : State → ℕ
  from state = weight n state p.pointer

  abbrev Onward : State → Parser → Type 0
  Onward state q = AdvancesTo n (from state) q

  stays : forward (back 1 p.pointer) ≡ p.pointer
  stays = forward-back n 1 p.pointer inside small (omega arith) ∙ omega arith

  moves : forward p.pointer ≡ p.pointer + 1
  moves = forward-le n p.pointer inside small

  length-push : (c : ℕ) → length (p.buffer ++ c ∷ []) ≡ length p.buffer + 1
  length-push c = length-append p.buffer (c ∷ [])

  end_credentials-Advances :
      (percent_format : ℕ → List ℕ)
      → Whenever
          (Advances n (from State.authority_state))
          (end_credentials percent_format (record p { state = State.authority_state }))
  unfolding end_credentials
  end_credentials-Advances percent_format =
      Whenever->>= (λ u. Unit) (Advances n (from State.authority_state))
        (credentials percent_format p.uri
          (if p.at_flag then percent_forty ++ p.buffer else p.buffer))
        _ (Whenever-any _) (λ u h. ground (arith, moves))

  pub in_authority_state-Advances :
      (percent_format : ℕ → List ℕ) (l : Look)
      → length p.buffer ≤ p.pointer
      → Whenever
          (Advances n (from State.authority_state))
          (in_authority_state percent_format l (record p { state = State.authority_state }))
  unfolding in_authority_state
  in_authority_state-Advances percent_format l e = ground (
    arith,
    moves,
    length-push l.codepoint,
    end_credentials-Advances percent_format,
    forward-back n (length p.buffer + 1) p.pointer inside small,
  )

  pub in_file_host_state-Advances :
      (l : Look)
      → Advances n
          (from State.file_host_state)
          (in_file_host_state l (record p { state = State.file_host_state }))
  unfolding in_file_host_state end_host
  in_file_host_state-Advances l = ground (arith, stays, moves)

  pub in_host_state-Advances :
      (override : Option State) (l : Look)
      → Advances n
          (from State.host_state)
          (in_host_state override l (record p { state = State.host_state }))
  unfolding in_host_state end_host
  in_host_state-Advances override l = ground (arith, stays, moves)

  pub in_hostname_state-Advances :
      (override : Option State) (l : Look)
      → Advances n
          (from State.hostname_state)
          (in_host_state override l (record p { state = State.hostname_state }))
  unfolding in_host_state end_host
  in_hostname_state-Advances override l = ground (arith, stays, moves)

  pub in_port_state-Advances :
      (override : Option State) (l : Look)
      → Whenever
          (Advances n (from State.port_state))
          (in_port_state override l (record p { state = State.port_state }))
  unfolding in_port_state end_port
  in_port_state-Advances override l = ground (arith, stays, moves)

  pub in_relative_path_start_state-Advances :
      (l : Look)
      → AdvancesTo n
          (from State.relative_path_start_state)
          (in_relative_path_start_state l (record p { state = State.relative_path_start_state }))
  unfolding in_relative_path_start_state
  in_relative_path_start_state-Advances l = ground (arith, stays, moves)

  pub in_relative_path_state-Advances :
      (percent_format : ℕ → List ℕ) (override : Option State) (l : Look)
      → AdvancesTo n (from State.relative_path_state) (
          in_relative_path_state percent_format override l
            (record p { state = State.relative_path_state }))
  unfolding in_relative_path_state end_segment
  in_relative_path_state-Advances percent_format override l = ground (arith, moves)

  pub in_query_state-Advances :
      (percent_format : ℕ → List ℕ) (override : Option State) (l : Look)
      → Whenever
          (Onward State.query_state)
          (in_query_state percent_format override l (record p { state = State.query_state }))
  unfolding in_query_state end_query
  in_query_state-Advances percent_format override l = ground (arith, moves)

  pub in_fragment_state-Advances :
      (percent_format : ℕ → List ℕ) (l : Look)
      → Whenever
          (Onward State.fragment_state)
          (in_fragment_state percent_format l (record p { state = State.fragment_state }))
  unfolding in_fragment_state
  in_fragment_state-Advances percent_format l = ground (arith, moves)
