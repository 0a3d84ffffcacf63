-- ===== src/Basic/Uri/Parser/Loop.antt =====
-- The loop of Uri::Parse over the code points (Basic.Uri.cpp).
use webel.Prelude.{
  Bool, List, Option, Outcome, [], false, fatal, leb, length, none, returns, some, suc, true, zero,
  ℕ, ◌%◌, ◌*◌, ◌+◌, ◌>>=◌, ◌^◌,
}
use webel.Basic.Uri.{
  State, scheme_start_state, scheme_state, scheme_data_state, no_scheme_state,
  relative_or_authority_state, relative_state, relative_slash_state, authority_first_slash_state,
  authority_second_slash_state, authority_ignore_slashes_state, authority_state, file_host_state,
  host_state, hostname_state, port_state, relative_path_start_state, relative_path_state,
  query_state, fragment_state, Uri,
}
use webel.Basic.Uri.Parser.{Parser, Turn, goes_on, ends, forward, Look, look}
use webel.Basic.Uri.Parser.Schemes.{
  in_scheme_start_state, in_scheme_state, in_scheme_data_state, in_no_scheme_state,
  in_relative_or_authority_state, in_authority_first_slash_state, in_authority_second_slash_state,
  in_authority_ignore_slashes_state,
}
use webel.Basic.Uri.Parser.Relative.{in_relative_state, in_relative_slash_state}
use webel.Basic.Uri.Parser.Hosts.{
  in_authority_state, in_file_host_state, in_host_state, in_port_state,
}
use webel.Basic.Uri.Parser.Paths.{
  in_relative_path_start_state, in_relative_path_state, in_query_state, in_fragment_state,
}

abbrev pub advanced : Parser → Parser
advanced p = record p { pointer = forward p.pointer }

abbrev pub going : Outcome Parser → Outcome Turn
going o = o >>= λ p. returns (goes_on p)

-- A call of Parse: the base, and the state that overrides the first one.
module _ (percent_format : ℕ → List ℕ) (base : Option Uri) (override : Option State) where
  -- The switch on the state.
  unfoldable pub dispatch : State → Look → Parser → Outcome Turn
  dispatch scheme_start_state l p = returns (in_scheme_start_state override l p)
  dispatch scheme_state l p = in_scheme_state override base l p
  dispatch scheme_data_state l p = in_scheme_data_state percent_format l p
  dispatch no_scheme_state l p = in_no_scheme_state base p
  dispatch relative_or_authority_state l p = returns (goes_on (in_relative_or_authority_state l p))
  dispatch relative_state l p = going (in_relative_state base l p)
  dispatch relative_slash_state l p = going (in_relative_slash_state base l p)
  dispatch authority_first_slash_state l p = returns (goes_on (in_authority_first_slash_state l p))
  dispatch authority_second_slash_state l p =
      returns (goes_on (in_authority_second_slash_state l p))
  dispatch authority_ignore_slashes_state l p =
      returns (goes_on (in_authority_ignore_slashes_state l p))
  dispatch authority_state l p = in_authority_state percent_format l p
  dispatch file_host_state l p = returns (in_file_host_state l p)
  dispatch host_state l p = returns (in_host_state override l p)
  dispatch hostname_state l p = returns (in_host_state override l p)
  dispatch port_state l p = in_port_state override l p
  dispatch relative_path_start_state l p = returns (goes_on (in_relative_path_start_state l p))
  dispatch relative_path_state l p =
      returns (goes_on (in_relative_path_state percent_format override l p))
  dispatch query_state l p = going (in_query_state percent_format override l p)
  dispatch fragment_state l p = going (in_fragment_state percent_format l p)

  module _ (input : List ℕ) where
    unfoldable pub turn : Parser → Outcome Turn
    turn p = dispatch p.state (look input p.pointer) p

    -- The for loop, on fuel. `spent` is the result where the fuel runs out, which Parse never comes
    -- to.
    unfoldable pub parse_loop : Outcome (Bool × Uri) → ℕ → Parser → Outcome (Bool × Uri)
    parse_loop spent zero p = spent
    parse_loop spent (suc fuel) p = elim (leb p.pointer (length input % 2 ^ 32)) [
      | false ↦ returns (true, p.uri)
      | true ↦ elim (turn p) [
        | fatal ↦ fatal
        | returns (ends result uri) ↦ returns (result, uri)
        | returns (goes_on p') ↦ parse_loop spent fuel (advanced p')
      ]
    ]

    abbrev first_state : Option State → State
    first_state none = State.scheme_start_state
    first_state (some state) = state

    -- Of 19 states each is entered once, and passes each code point and the end of the input once.
    abbrev pub turns : ℕ
    turns = 19 * (length input + 2)

    abbrev pub begun : Uri → Parser
    begun uri = record {
      uri = uri;
      state = first_state override;
      buffer = [];
      at_flag = false;
      brackets_flag = false;
      pointer = 0;
    }

    unfoldable pub parse : Uri → Outcome (Bool × Uri)
    parse uri = parse_loop fatal (suc turns) (begun uri)
