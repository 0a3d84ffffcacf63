-- ===== src/Basic/Uri/RoundTrip/Opening.antt =====
-- The scheme and the slashes of a Uri that was written (Basic.Uri.cpp).
use webel.Prelude.{List, [], arith, false, length, refl, some, true, ℕ, ◌<◌, ◌^◌, ◌∷◌, ◌≡◌}
use webel.Basic.Numbers.{lower_case}
use webel.Basic.Uri.{
  State, Uri, same_text, file_scheme, ports, find, scheme_port, is_relative_scheme, is_ascii_digit,
  is_ascii_alpha, is_ascii_alphanumeric,
}
use webel.Basic.Uri.Parser.{back}
use webel.Basic.Uri.Parser.Schemes.{
  in_scheme_start_state, behind_scheme, end_scheme, in_scheme_state, in_authority_first_slash_state,
  in_authority_second_slash_state, in_authority_ignore_slashes_state,
}
use webel.Basic.Uri.Parser.Loop.{dispatch, turn}
use webel.Basic.Uri.RoundTrip.{scheme_char, host_char}
use webel.Basic.Uri.RoundTrip.Leads.{at, TurnsTo, CodeIs, Takes}

module _ (percent_format : ℕ → List ℕ) (input : List ℕ) (small : length input < 2 ^ 31) where
  module _ (uri : Uri) where
    pub scheme_first :
        (c i : ℕ)
        → scheme_char c ≡ true
        → CodeIs input i c
        → TurnsTo percent_format input
            (at State.scheme_start_state [] uri i)
            (at State.scheme_state (c ∷ []) uri i)
    unfolding turn dispatch in_scheme_start_state is_ascii_alpha lower_case
    scheme_first c i h e = ground arith

    pub scheme_takes :
        Takes percent_format input small scheme_char (λ taken. at State.scheme_state taken uri 0)
    unfolding turn dispatch in_scheme_state is_ascii_alphanumeric is_ascii_alpha is_ascii_digit
        lower_case
    scheme_takes taken c i h e = ground arith

    pub scheme_ends :
        (scheme default : List ℕ) (i : ℕ)
        → find ports scheme ≡ some default
        → same_text scheme file_scheme ≡ false
        → CodeIs input i b':'
        → TurnsTo percent_format input (at State.scheme_state scheme uri i) (
            at State.authority_first_slash_state []
              (record uri { scheme = some scheme; relative_flag = true })
              i)
    unfolding turn dispatch in_scheme_state is_ascii_alphanumeric is_ascii_alpha is_ascii_digit
        end_scheme behind_scheme is_relative_scheme scheme_port
    scheme_ends scheme default i f g e = rw e (rw f (rw g refl))

    pub first_slash :
        (i : ℕ)
        → CodeIs input i b'/'
        → TurnsTo percent_format input
            (at State.authority_first_slash_state [] uri i)
            (at State.authority_second_slash_state [] uri i)
    unfolding turn dispatch in_authority_first_slash_state
    first_slash i e = rw e refl

    pub second_slash :
        (i : ℕ)
        → CodeIs input i b'/'
        → TurnsTo percent_format input
            (at State.authority_second_slash_state [] uri i)
            (at State.authority_ignore_slashes_state [] uri i)
    unfolding turn dispatch in_authority_second_slash_state
    second_slash i e = rw e refl

    pub no_more_slash :
        (c i : ℕ)
        → host_char c ≡ true
        → CodeIs input i c
        → TurnsTo percent_format input
            (at State.authority_ignore_slashes_state [] uri i)
            (at State.authority_state [] uri (back 1 i))
    unfolding turn dispatch in_authority_ignore_slashes_state
    no_more_slash c i h e = ground arith
