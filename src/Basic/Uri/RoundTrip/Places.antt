-- ===== src/Basic/Uri/RoundTrip/Places.antt =====
-- The host and the port of a Uri that was written (Basic.Uri.cpp).
use webel.Prelude.{
  All, Bool, List, [], ap, arith, false, inl, length, refl, some, true, ℕ, ◌%◌, ◌++◌, ◌+◌, ◌<◌,
  ◌==◌, ◌^◌, ◌||◌, ◌∙◌, ◌∷◌, ◌≡◌, ◌≢◌,
}
use webel.Basic.Utf8.Encoder.{encode_element, encode_elements}
use webel.Basic.Utf8.Decoder.{set_destination, write_elements}
use webel.Basic.Utf8.Scalar.{IsScalar}
use webel.Basic.Utf8.RoundTrip.{write_elements-encode_elements}
use webel.Basic.Uri.{State, Uri, same_text, ports, find, scheme_port, is_ascii_digit}
use webel.Basic.Uri.Encoding.{percent_decode, host_parse}
use webel.Basic.Uri.Encoding.RoundTrip.{percent_decode-plain}
use webel.Basic.Uri.Parser.{back}
use webel.Basic.Uri.Parser.Paths.{in_relative_path_start_state}
use webel.Basic.Uri.Parser.Hosts.{
  in_authority_state, end_host, in_host_state, trimmed, stored_port, end_port, in_port_state,
}
use webel.Basic.Uri.Parser.Loop.{dispatch, turn}
use webel.Basic.Uri.RoundTrip.{host_char, Each}
use webel.Basic.Uri.RoundTrip.Leads.{at, TurnsTo, CodeIs, Takes}

plain_byte :
    (c : ℕ) → host_char c ≡ true → (c % 256 ∷ [] ≡ encode_element 0x7F c) × (c ≢ b'%') × IsScalar c
unfolding encode_element
plain_byte c h = (ground arith, ground arith, (ground arith, inl (ground arith)))

decoded : (cs : List ℕ) → Each host_char cs → percent_decode cs ≡ encode_elements 0x7F cs
unfolding encode_elements percent_decode
decoded [] h = refl
decoded (c ∷ cs) (h, hs) =
    let (byte, plain, scalar) = plain_byte c h in
    percent_decode-plain c cs plain
    ∙ ap (λ t. c % 256 ∷ t) (decoded cs hs)
    ∙ ap (λ t. t ++ encode_elements 0x7F cs) byte

scalars : (cs : List ℕ) → Each host_char cs → All IsScalar cs
scalars [] h = tt
scalars (c ∷ cs) (h, hs) = ((plain_byte c h).2, scalars cs hs)

-- A host of these code points is its own UTF-8.
host_parse-plain :
    (h : ℕ) (hs : List ℕ) → Each host_char (h ∷ hs) → host_parse (h ∷ hs) ≡ some (h ∷ hs)
unfolding host_parse
host_parse-plain h hs e =
    ap (λ t. some (write_elements (set_destination 0) t).1) (decoded (h ∷ hs) e)
    ∙ ap (λ d. some d.1) (write_elements-encode_elements 0 0x7F (h ∷ hs) (scalars (h ∷ hs) e))

-- What stands in an authority without credentials: a host, and digits behind a colon.
abbrev pub authority_char : ℕ → Bool
authority_char c = host_char c || c == b':'

module _ (percent_format : ℕ → List ℕ) (input : List ℕ) (small : length input < 2 ^ 31) where
  module _ (uri : Uri) where
    pub authority_takes :
        Takes percent_format input small authority_char
          (λ taken. at State.authority_state taken uri 0)
    unfolding turn dispatch in_authority_state
    authority_takes taken c i h e = ground arith

    pub authority_ends :
        (taken : List ℕ) (i : ℕ)
        → CodeIs input i b'/'
        → TurnsTo percent_format input
            (at State.authority_state taken uri i)
            (at State.host_state [] uri (back (length taken + 1) i))
    unfolding turn dispatch in_authority_state
    authority_ends taken i e = rw e refl

    pub host_takes :
        Takes percent_format input small host_char (λ taken. at State.host_state taken uri 0)
    unfolding turn dispatch in_host_state
    host_takes taken c i h e = ground arith

    pub host_ends :
        (h : ℕ) (hs : List ℕ) (i : ℕ)
        → Each host_char (h ∷ hs)
        → CodeIs input i b'/'
        → TurnsTo percent_format input
            (at State.host_state (h ∷ hs) uri i)
            (at State.relative_path_start_state [] (record uri { host = some (h ∷ hs) }) (back 1 i))
    unfolding turn dispatch in_host_state end_host
    host_ends h hs i plain e = rw e (rw (host_parse-plain h hs plain, end_host) refl)

    pub host_colon :
        (h : ℕ) (hs : List ℕ) (i : ℕ)
        → Each host_char (h ∷ hs)
        → CodeIs input i b':'
        → TurnsTo percent_format input
            (at State.host_state (h ∷ hs) uri i)
            (at State.port_state [] (record uri { host = some (h ∷ hs) }) i)
    unfolding turn dispatch in_host_state end_host
    host_colon h hs i plain e = rw e (rw (host_parse-plain h hs plain, end_host) refl)

    pub port_takes :
        Takes percent_format input small is_ascii_digit (λ taken. at State.port_state taken uri 0)
    unfolding turn dispatch in_port_state
    port_takes taken c i h e = rw e (rw h refl)

    pub port_ends :
        (scheme default port : List ℕ) (i : ℕ)
        → uri.scheme ≡ some scheme
        → find ports scheme ≡ some default
        → trimmed port ≡ port
        → same_text port default ≡ false
        → CodeIs input i b'/'
        → TurnsTo percent_format input
            (at State.port_state port uri i)
            (at State.relative_path_start_state [] (record uri { port = some port }) (back 1 i))
    unfolding turn dispatch in_port_state is_ascii_digit end_port stored_port scheme_port
    port_ends scheme default port i s f t g e = rw e (rw s (rw f (rw t (rw g refl))))

    pub path_starts :
        (i : ℕ)
        → CodeIs input i b'/'
        → TurnsTo percent_format input
            (at State.relative_path_start_state [] uri i)
            (at State.relative_path_state [] uri i)
    unfolding turn dispatch in_relative_path_start_state
    path_starts i e = rw e refl
