-- ===== src/Basic/Uri/RoundTrip/Whole.antt =====
-- Uri::Parse reads what Uri::write_to_stream writes (Basic.Uri.cpp).
use webel.Basic.Uri.RoundTrip.Opening.{
  scheme_first, scheme_takes, scheme_ends, first_slash, second_slash, no_more_slash,
}
use webel.Basic.Uri.RoundTrip.Places.{
  authority_char, host_takes, host_ends, host_colon, port_takes, port_ends, path_starts,
}
use webel.Basic.Uri.RoundTrip.Arrival.{
  Arrives, Arrives-start, Arrives-char, Arrives-again, Arrives-takes, Arrives-authority,
}
use webel.Basic.Uri.RoundTrip.Leads.{at}
use webel.Basic.Uri.RoundTrip.Tail.{path_read}
use webel.Basic.Uri.RoundTrip.{
  scheme_char, host_char, query_char, fragment_char, Each, IsSegment, IsPort, IsPart,
}
use webel.Basic.Uri.{State, Uri, initialized, same_text, file_scheme, ports, find, is_ascii_digit}
use webel.Basic.Uri.Parser.{Parser}
use webel.Basic.Uri.Parser.Loop.{parse}
use webel.Basic.Uri.Writing.{
  write_credentials, marked, write_path, write_authority, write_scheme, write_place,
  write_to_stream,
}
use webel.Prelude.{
  All, All-append, List, Option, [], append_assoc, arith, false, length, none, refl, returns, some,
  subst, sym, true, ℕ, ◌++◌, ◌<◌, ◌^◌, ◌∙◌, ◌∷◌, ◌≡◌,
}

-- A Uri with an authority, of these parts.
abbrev pub absolute :
    List ℕ → List ℕ → List ℕ → List (List ℕ) → Option (List ℕ) → Option (List ℕ) → Uri
absolute scheme host port path query fragment = record {
  scheme = some scheme;
  scheme_data = some [];
  username = some [];
  password = none;
  host = some host;
  port = some port;
  path = path;
  query = query;
  fragment = fragment;
  relative_flag = true;
}

abbrev port_text : List ℕ → List ℕ
port_text port = marked b':' (some port)

-- The text, with its parts to the right.
abbrev text : List ℕ → List ℕ → List ℕ → List ℕ → List ℕ
text scheme host port tail =
    scheme ++ b':' ∷ b'/' ∷ b'/' ∷ (host ++ (port_text port ++ b'/' ∷ tail))

write_to_stream-absolute :
    (scheme host port : List ℕ) (path : List (List ℕ)) (query fragment : Option (List ℕ))
    → write_to_stream (absolute scheme host port path query fragment) false false
      ≡ returns
          (text scheme host port (write_path path ++ (marked b'?' query ++ marked b'#' fragment)))
unfolding write_to_stream write_scheme write_place write_authority write_credentials
write_to_stream-absolute scheme host port path query fragment = simp append_assoc

input_of : {xs ys : List ℕ} → returns xs ≡ returns ys → xs ≡ ys
input_of e = cc

-- A host character stands in an authority, and so does a port behind its colon.
host-authority : (cs : List ℕ) → Each host_char cs → Each authority_char cs
host-authority [] h = tt
host-authority (c ∷ cs) (h, hs) = (ground arith, host-authority cs hs)

digits-authority : (cs : List ℕ) → Each is_ascii_digit cs → Each authority_char cs
unfolding is_ascii_digit
digits-authority [] h = tt
digits-authority (c ∷ cs) (h, hs) = (ground arith, digits-authority cs hs)

port-authority :
    (default port : List ℕ) → IsPort default port → Each authority_char (port_text port)
port-authority default [] h = tt
port-authority default (d ∷ ds) (each, trim, other) = (refl, digits-authority (d ∷ ds) each)

module _ (percent_format : ℕ → List ℕ) (input : List ℕ) (small : length input < 2 ^ 31) where
  abbrev Here : Parser → List ℕ → Type 0
  Here = Arrives percent_format input small initialized

  -- From the scheme on.
  module _ (s : ℕ) (ss default : List ℕ) (known : find ports (s ∷ ss) ≡ some default)
      (no_file : same_text (s ∷ ss) file_scheme ≡ false) where
    abbrev schemed : Uri
    schemed = record initialized { scheme = some (s ∷ ss); relative_flag = true }

    scheme_read :
        (h : ℕ) (rest : List ℕ)
        → Each scheme_char (s ∷ ss)
        → host_char h ≡ true
        → input ≡ s ∷ ss ++ b':' ∷ b'/' ∷ b'/' ∷ h ∷ rest
        → Here (at State.authority_state [] schemed 0) (h ∷ rest)
    scheme_read h rest (e, es) eh whole =
        let c0 = at State.scheme_start_state [] initialized 0 in
        let c1 = at State.scheme_state (s ∷ []) initialized 0 in
        let c2 = at State.scheme_state (s ∷ ss) initialized 0 in
        let c3 = at State.authority_first_slash_state [] schemed 0 in
        let c4 = at State.authority_second_slash_state [] schemed 0 in
        let c5 = at State.authority_ignore_slashes_state [] schemed 0 in
        let c6 = at State.authority_state [] schemed 0 in
        let behind = b':' ∷ b'/' ∷ b'/' ∷ h ∷ rest in
        let a0 : Here c0 (s ∷ ss ++ behind) =
          subst (Here c0) whole (Arrives-start percent_format input small initialized) in
        let a1 : Here c1 (ss ++ behind) =
          Arrives-char percent_format input small initialized s (ss ++ behind) c0 c1 a0
            (λ i q. scheme_first percent_format input small initialized s i e q) in
        let a2 : Here c2 behind =
          Arrives-takes percent_format input small initialized scheme_char
            (λ taken. at State.scheme_state taken initialized 0) (s ∷ []) ss behind
            (scheme_takes percent_format input small initialized) es a1 in
        let a3 : Here c3 (b'/' ∷ b'/' ∷ h ∷ rest) =
          Arrives-char percent_format input small initialized b':' (b'/' ∷ b'/' ∷ h ∷ rest) c2 c3 a2
            (λ i q.
              scheme_ends percent_format input small initialized (s ∷ ss) default i known no_file
                q) in
        let a4 : Here c4 (b'/' ∷ h ∷ rest) =
          Arrives-char percent_format input small initialized b'/' (b'/' ∷ h ∷ rest) c3 c4 a3
            (first_slash percent_format input small schemed) in
        let a5 : Here c5 (h ∷ rest) =
          Arrives-char percent_format input small initialized b'/' (h ∷ rest) c4 c5 a4
            (second_slash percent_format input small schemed) in
        Arrives-again percent_format input small initialized h rest c5 c6 a5
          (λ i q. no_more_slash percent_format input small schemed h i eh q)

    module _ (h : ℕ) (hs : List ℕ) (each : Each host_char (h ∷ hs)) where
      abbrev hosted : List ℕ → Parser
      hosted taken = at State.host_state taken schemed 0

      abbrev placed : List ℕ → Parser
      placed port =
          at State.relative_path_start_state []
            (record schemed { host = some (h ∷ hs); port = some port }) 0

      host_taken :
          (port tail : List ℕ)
          → Here (hosted []) ((h ∷ hs) ++ (port_text port ++ b'/' ∷ tail))
          → Here (hosted (h ∷ hs)) (port_text port ++ b'/' ∷ tail)
      host_taken port tail here =
          Arrives-takes percent_format input small initialized host_char hosted [] (h ∷ hs)
            (port_text port ++ b'/' ∷ tail) (host_takes percent_format input small schemed) each
            here

      place_read :
          (port tail : List ℕ)
          → IsPort default port
          → Here (at State.host_state [] schemed 0) ((h ∷ hs) ++ (port_text port ++ b'/' ∷ tail))
          → Here
              (at State.relative_path_start_state []
                (record schemed { host = some (h ∷ hs); port = some port })
                0)
              (b'/' ∷ tail)
      place_read [] tail part here =
          Arrives-again percent_format input small initialized b'/' tail (hosted (h ∷ hs))
            (placed []) (host_taken [] tail here)
            (λ i q. host_ends percent_format input small schemed h hs i each q)
      place_read (d ∷ ds) tail (digits, trim, other) here =
          let with_host = record schemed { host = some (h ∷ hs) } in
          let ported : List ℕ → Parser = λ taken. at State.port_state taken with_host 0 in
          let text = (d ∷ ds) ++ b'/' ∷ tail in
          Arrives-again percent_format input small initialized b'/' tail (ported (d ∷ ds))
            (placed (d ∷ ds))
            (Arrives-takes percent_format input small initialized is_ascii_digit ported [] (d ∷ ds)
              (b'/' ∷ tail) (port_takes percent_format input small with_host) digits
              (Arrives-char percent_format input small initialized b':' text (hosted (h ∷ hs))
                (ported []) (host_taken (d ∷ ds) tail here)
                (λ i q. host_colon percent_format input small schemed h hs i each q)))
            (λ i q.
              port_ends percent_format input small with_host (s ∷ ss) default (d ∷ ds) i refl known
                trim other q)

-- An absolute Uri that write_to_stream has written is parsed back to itself, from a Uri that
-- Initialize has set up, without a base: where its scheme is one of those with a port, in lower
-- case, and not `file`, its host is not empty, its port is empty or one without leading zeros that
-- is not the scheme's own, its path has a segment and none that stands for one dot or two, its query
-- and its fragment are absent or not empty, there is no username and no password, and each part has
-- only code points that it takes as they are; and where the text has fewer than 2 ^ 31 of them.
pub parse-absolute :
    (percent_format : ℕ → List ℕ) (s : ℕ) (ss default : List ℕ) (h : ℕ) (hs port : List ℕ)
    (segment : List ℕ) (segments : List (List ℕ)) (query fragment : Option (List ℕ))
    (input : List ℕ)
    → Each scheme_char (s ∷ ss)
    → find ports (s ∷ ss) ≡ some default
    → same_text (s ∷ ss) file_scheme ≡ false
    → Each host_char (h ∷ hs)
    → IsPort default port
    → All IsSegment (segment ∷ segments)
    → IsPart query_char query
    → IsPart fragment_char fragment
    → write_to_stream
        (absolute (s ∷ ss) (h ∷ hs) port (segment ∷ segments) query fragment)
        false
        false
      ≡ returns input
    → length input < 2 ^ 31
    → parse percent_format none none input initialized
      ≡ returns (true, absolute (s ∷ ss) (h ∷ hs) port (segment ∷ segments) query fragment)
parse-absolute f s ss default h hs port segment segments query fragment input es known no_file eh
      part own part_q part_f written small =
    let tail = write_path (segment ∷ segments) ++ (marked b'?' query ++ marked b'#' fragment) in
    let rest = port_text port ++ b'/' ∷ tail in
    let host = h ∷ hs in
    let u0 = schemed f input small s ss default known no_file in
    let u1 : Uri = record u0 { host = some host; port = some port } in
    let whole : input ≡ text (s ∷ ss) host port tail = input_of (
      sym written
      ∙ write_to_stream-absolute (s ∷ ss) host port (segment ∷ segments) query fragment) in
    let at_authority =
      scheme_read f input small s ss default known no_file h (hs ++ rest) es eh.0 whole in
    let joined = append_assoc host (port_text port) (b'/' ∷ tail) in
    let at_host =
      Arrives-authority f input small initialized u0 (host ++ port_text port) tail
        (All-append (λ c. authority_char c ≡ true) host (port_text port) (host-authority host eh)
          (port-authority default port part))
        (subst (Here f input small (at State.authority_state [] u0 0)) (sym joined) at_authority) in
    let at_path =
      place_read f input small s ss default known no_file h hs eh port tail part
        (subst (Here f input small (at State.host_state [] u0 0)) joined at_host) in
    path_read f input small initialized query fragment part_q part_f u1 segment segments no_file own
      (Arrives-char f input small initialized b'/' tail (at State.relative_path_start_state [] u1 0)
        (at State.relative_path_state [] u1 0) at_path (path_starts f input small u1))
