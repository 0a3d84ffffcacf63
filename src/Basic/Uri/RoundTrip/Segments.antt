-- ===== src/Basic/Uri/RoundTrip/Segments.antt =====
-- The path, the query and the fragment of a Uri that was written (Basic.Uri.cpp).
use webel.Prelude.{
  Bool, List, [], ap, arith, false, length, none, refl, some, true, ℕ, ◌++◌, ◌<◌, ◌^◌, ◌∷◌, ◌≡◌,
}
use webel.Basic.Utf8.Encoder.{eof, encode_element, encode_elements}
use webel.Basic.Uri.{State, Uri, equals, file_scheme}
use webel.Basic.Uri.Encoding.{simple_encode_anti_set, default_encode_anti_set, utf_8_percent_encode}
use webel.Basic.Uri.Parser.Paths.{
  dots, drive, with_segment, end_segment, in_relative_path_state, query_byte, query_bytes,
  end_query, in_query_state, in_fragment_state,
}
use webel.Basic.Uri.Parser.Loop.{dispatch, turn}
use webel.Basic.Uri.RoundTrip.{path_char, query_char, fragment_char, Each, IsSegment}
use webel.Basic.Uri.RoundTrip.Leads.{at, TurnsTo, CodeIs, Takes}

drive-plain :
    (uri : Uri) (segment : List ℕ)
    → equals uri.scheme file_scheme ≡ false
    → drive uri segment ≡ segment
unfolding drive
drive-plain uri [] h = refl
drive-plain uri (c ∷ []) h = refl
drive-plain uri (c ∷ d ∷ []) h = rw h refl
drive-plain uri (c ∷ d ∷ e ∷ cs) h = refl

with_segment-plain :
    (uri : Uri) (slash : Bool) (segment : List ℕ)
    → equals uri.scheme file_scheme ≡ false
    → IsSegment segment
    → with_segment uri slash (dots segment) ≡ uri.path ++ segment ∷ []
unfolding with_segment
with_segment-plain uri slash segment h (each, own, one, two) =
    rw (own, two) (rw one (rw (drive-plain uri segment h) refl))

module _ (percent_format : ℕ → List ℕ) (input : List ℕ) (small : length input < 2 ^ 31) where
  query_char-plain :
      (c : ℕ)
      → query_char c ≡ true
      → (encode_element 0x3F c ≡ c ∷ []) × (query_byte percent_format none c ≡ c ∷ [])
  unfolding encode_element query_byte
  query_char-plain c h = (ground arith, ground arith)

  encode_elements-plain : (cs : List ℕ) → Each query_char cs → encode_elements 0x3F cs ≡ cs
  unfolding encode_elements
  encode_elements-plain [] h = refl
  encode_elements-plain (c ∷ cs) (h, hs) =
      rw (query_char-plain c h).0 (ap (λ t. c ∷ t) (encode_elements-plain cs hs))

  query_bytes-plain : (cs : List ℕ) → Each query_char cs → query_bytes percent_format none cs ≡ cs
  unfolding query_bytes
  query_bytes-plain [] h = refl
  query_bytes-plain (c ∷ cs) (h, hs) =
      rw (query_char-plain c h).1 (ap (λ t. c ∷ t) (query_bytes-plain cs hs))

  module _ (uri : Uri) where
    abbrev pub with_last : List ℕ → Uri
    with_last segment = record uri { path = uri.path ++ segment ∷ [] }

    pub path_takes :
        Takes percent_format input small path_char
          (λ taken. at State.relative_path_state taken uri 0)
    unfolding turn dispatch in_relative_path_state utf_8_percent_encode default_encode_anti_set
        simple_encode_anti_set
    path_takes taken c i h e = ground arith

    module _ (segment : List ℕ) (no_file : equals uri.scheme file_scheme ≡ false)
        (own : IsSegment segment) where
      pub segment_slash :
          (i : ℕ)
          → CodeIs input i b'/'
          → TurnsTo percent_format input
              (at State.relative_path_state segment uri i)
              (at State.relative_path_state [] (with_last segment) i)
      unfolding turn dispatch in_relative_path_state end_segment
      segment_slash i e = rw e (rw (with_segment-plain uri true segment no_file own) refl)

      pub segment_query :
          (i : ℕ)
          → CodeIs input i b'?'
          → TurnsTo percent_format input
              (at State.relative_path_state segment uri i)
              (at State.query_state [] (record (with_last segment) { query = some [] }) i)
      unfolding turn dispatch in_relative_path_state end_segment
      segment_query i e = rw e (rw (with_segment-plain uri false segment no_file own) refl)

      pub segment_fragment :
          (i : ℕ)
          → CodeIs input i b'#'
          → TurnsTo percent_format input
              (at State.relative_path_state segment uri i)
              (at State.fragment_state [] (record (with_last segment) { fragment = some [] }) i)
      unfolding turn dispatch in_relative_path_state end_segment
      segment_fragment i e = rw e (rw (with_segment-plain uri false segment no_file own) refl)

      pub segment_end :
          (i : ℕ)
          → CodeIs input i eof
          → TurnsTo percent_format input
              (at State.relative_path_state segment uri i)
              (at State.relative_path_state [] (with_last segment) i)
      unfolding turn dispatch in_relative_path_state end_segment
      segment_end i e = rw e (rw (with_segment-plain uri false segment no_file own) refl)

    pub query_takes :
        Takes percent_format input small query_char (λ taken. at State.query_state taken uri 0)
    unfolding turn dispatch in_query_state
    query_takes taken c i h e = ground arith

    module _ (q : ℕ) (qs : List ℕ) (each : Each query_char (q ∷ qs)) where
      pub query_fragment :
          (i : ℕ)
          → CodeIs input i b'#'
          → TurnsTo percent_format input
              (at State.query_state (q ∷ qs) (record uri { query = some [] }) i)
              (at State.fragment_state []
                (record uri { query = some (q ∷ qs); fragment = some [] })
                i)
      unfolding turn dispatch in_query_state end_query
      query_fragment i e = rw e (
          rw (encode_elements-plain (q ∷ qs) each, end_query)
            (rw (query_bytes-plain (q ∷ qs) each) refl))

      pub query_end :
          (i : ℕ)
          → CodeIs input i eof
          → TurnsTo percent_format input
              (at State.query_state (q ∷ qs) (record uri { query = some [] }) i)
              (at State.query_state [] (record uri { query = some (q ∷ qs) }) i)
      unfolding turn dispatch in_query_state end_query
      query_end i e = rw e (
          rw (encode_elements-plain (q ∷ qs) each, end_query)
            (rw (query_bytes-plain (q ∷ qs) each) refl))

    pub fragment_takes :
        Takes percent_format input small fragment_char
          (λ taken. at State.fragment_state [] (record uri { fragment = some taken }) 0)
    unfolding turn dispatch in_fragment_state utf_8_percent_encode simple_encode_anti_set
    fragment_takes taken c i h e = ground arith

    pub fragment_end :
        (i : ℕ)
        → CodeIs input i eof
        → TurnsTo percent_format input
            (at State.fragment_state [] uri i)
            (at State.fragment_state [] uri i)
    unfolding turn dispatch in_fragment_state
    fragment_end i e = rw e refl
