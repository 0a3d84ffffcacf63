-- ===== src/Basic/Uri/Progress/Ready.antt =====
-- A parser of Uris that reads through no null reference (Basic.Uri.cpp).
use webel.Prelude.{
  List, Option-cases, Returns, [], arith, if◌then◌else◌, inl, inr, none, some, true, ℕ, ◌++◌, ◌∷◌,
  ◌≡◌, Returns->>=,
}
use webel.Basic.Uri.Encoding.{default_encode_anti_set, utf_8_percent_encode}
use webel.Basic.Uri.{
  State, scheme_start_state, authority_state, query_state, fragment_state, Uri, scheme_port,
  is_some, is_relative_scheme,
}
use webel.Basic.Uri.Parser.{Parser, Turn, goes_on, ends, Look}
use webel.Basic.Uri.Parser.Schemes.{
  in_scheme_start_state, behind_scheme, end_scheme, in_scheme_state, in_scheme_data_state,
  in_no_scheme_state, in_relative_or_authority_state, in_authority_first_slash_state,
  in_authority_second_slash_state, in_authority_ignore_slashes_state,
}
use webel.Basic.Uri.Parser.Relative.{
  pop_back, begin_path, by_codepoint, in_relative_state, in_relative_slash_state,
}
use webel.Basic.Uri.Parser.Hosts.{
  percent_forty, credentials, end_credentials, in_authority_state, end_host, in_file_host_state,
  in_host_state, end_port, in_port_state,
}
use webel.Basic.Uri.Parser.Paths.{
  in_relative_path_start_state, end_segment, in_relative_path_state, end_query, in_query_state,
  in_fragment_state,
}
use webel.Basic.Uri.Parser.Loop.{dispatch}

-- What Initialize has set.
pub record IsInitialized (uri : Uri) : Type 0 where
  pub has_scheme : is_some uri.scheme ≡ true
  pub has_scheme_data : is_some uri.scheme_data ≡ true
  pub has_username : is_some uri.username ≡ true

-- What a state writes to.
abbrev pub HasTarget : State → Uri → Type 0
HasTarget query_state uri = is_some uri.query ≡ true
HasTarget fragment_state uri = is_some uri.fragment ≡ true
HasTarget state uri = Unit

abbrev pub IsReady : Parser → Type 0
IsReady p = IsInitialized p.uri × HasTarget p.state p.uri

abbrev pub IsReadyBehind : Turn → Type 0
IsReadyBehind (ends result uri) = Unit
IsReadyBehind (goes_on p) = IsReady p

module _ (percent_format : ℕ → List ℕ) where
  credentials-IsInitialized :
      (uri : Uri) (cs : List ℕ)
      → IsInitialized uri
      → Returns IsInitialized (credentials percent_format uri cs)
  unfolding credentials
  credentials-IsInitialized uri [] h = h
  credentials-IsInitialized uri (c ∷ cs) h =
      let encoded = utf_8_percent_encode percent_format c default_encode_anti_set in
      elim (Option-cases uri.password) [
        | inr (pw, e) ↦ ground (
          arith,
          credentials-IsInitialized uri cs h,
          credentials-IsInitialized (record uri { password = some (pw ++ encoded) }) cs,
        )
        | inl e ↦ elim (Option-cases uri.username) [
          | inl e' ↦ ground arith
          | inr (name, e') ↦ ground (
            arith,
            credentials-IsInitialized uri cs h,
            credentials-IsInitialized (record uri { password = some [] }) cs,
            credentials-IsInitialized (record uri { username = some (name ++ encoded) }) cs,
          )
        ]
      ]

  end_credentials-IsReady :
      (p : Parser)
      → IsInitialized p.uri
      → Returns IsReadyBehind
          (end_credentials percent_format (record p { state = State.authority_state }))
  unfolding end_credentials
  end_credentials-IsReady p i =
      Returns->>= IsInitialized IsReadyBehind
        (credentials percent_format p.uri
          (if p.at_flag then percent_forty ++ p.buffer else p.buffer))
        _ (credentials-IsInitialized p.uri _ i) (λ uri h. (h, tt))

  in_authority_state-IsReady :
      (l : Look) (p : Parser)
      → IsInitialized p.uri
      → Returns IsReadyBehind
          (in_authority_state percent_format l (record p { state = State.authority_state }))
  unfolding in_authority_state
  in_authority_state-IsReady l p i = ground (arith, end_credentials-IsReady p i)

  module _ (base : Uri) (has_base_scheme : is_some base.scheme ≡ true) where
    module _ (segment : List ℕ) (segments : List (List ℕ))
        (has_path : base.path ≡ segment ∷ segments) where
      pub dispatch-IsReady :
          (state : State) (l : Look) (p : Parser)
          → IsInitialized p.uri
          → HasTarget state p.uri
          → Returns IsReadyBehind
              (dispatch percent_format (some base) none state l (record p { state = state }))
      unfolding dispatch in_scheme_start_state in_scheme_state end_scheme is_relative_scheme
          scheme_port in_scheme_data_state in_no_scheme_state in_relative_or_authority_state
          in_relative_state by_codepoint begin_path pop_back in_relative_slash_state
          in_authority_first_slash_state in_authority_second_slash_state
          in_authority_ignore_slashes_state in_file_host_state end_host in_host_state in_port_state
          end_port in_relative_path_start_state in_relative_path_state end_segment in_query_state
          end_query in_fragment_state behind_scheme
      dispatch-IsReady scheme_start_state l p i h = ground arith
      dispatch-IsReady authority_state l p i h = in_authority_state-IsReady l p i
      dispatch-IsReady state l p i h = ground arith
