-- ===== src/Basic/Uri/RoundTrip/Tail.antt =====
-- The rest of a Uri that was written, from its path on (Basic.Uri.cpp).
use webel.Basic.Uri.RoundTrip.Segments.{
  path_takes, segment_slash, segment_query, segment_fragment, segment_end, query_takes,
  query_fragment, query_end, fragment_takes, fragment_end,
}
use webel.Basic.Uri.RoundTrip.Arrival.{
  Arrives, Arrives-char, Arrives-takes, Arrives-takes_rest, Arrives-end,
}
use webel.Basic.Uri.RoundTrip.Leads.{at}
use webel.Basic.Uri.RoundTrip.{path_char, query_char, fragment_char, Each, IsSegment, IsPart}
use webel.Prelude.{
  All, List, Option, [], append-nil, append_assoc, false, length, none, returns, some, subst, true,
  ℕ, ◌++◌, ◌<◌, ◌^◌, ◌∷◌, ◌≡◌,
}
use webel.Basic.Uri.{State, Uri, equals, file_scheme}
use webel.Basic.Uri.Parser.{Parser}
use webel.Basic.Uri.Parser.Loop.{parse}
use webel.Basic.Uri.Writing.{marked, write_segments}

module _ (percent_format : ℕ → List ℕ) (input : List ℕ) (small : length input < 2 ^ 31)
    (start : Uri) where
  abbrev Here : Parser → List ℕ → Type 0
  Here = Arrives percent_format input small start

  abbrev Parsed : Uri → Type 0
  Parsed uri = parse percent_format none none input start ≡ returns (true, uri)

  abbrev fragment_parser : Uri → List ℕ → Parser
  fragment_parser uri taken = at State.fragment_state [] (record uri { fragment = some taken }) 0

  fragment_read :
      (uri : Uri) (f : ℕ) (fs : List ℕ)
      → Each fragment_char (f ∷ fs)
      → Here (fragment_parser uri []) (f ∷ fs)
      → Parsed (record uri { fragment = some (f ∷ fs) })
  fragment_read uri f fs each here =
      let full = record uri { fragment = some (f ∷ fs) } in
      Arrives-end percent_format input small start (fragment_parser uri (f ∷ fs))
        (fragment_parser uri (f ∷ fs))
        (Arrives-takes_rest percent_format input small start fragment_char (fragment_parser uri)
          (f ∷ fs) (fragment_takes percent_format input small uri) each here)
        (fragment_end percent_format input small full)

  query_read :
      (uri : Uri) (q : ℕ) (qs : List ℕ) (fragment : Option (List ℕ))
      → Each query_char (q ∷ qs)
      → IsPart fragment_char fragment
      → Here
          (at State.query_state [] (record uri { query = some []; fragment = none }) 0)
          ((q ∷ qs) ++ marked b'#' fragment)
      → Parsed (record uri { query = some (q ∷ qs); fragment = fragment })
  query_read uri q qs none each part here =
      let plain = record uri { query = some []; fragment = none } in
      let grown : List ℕ → Parser = λ taken. at State.query_state taken plain 0 in
      Arrives-end percent_format input small start (grown (q ∷ qs))
        (at State.query_state [] (record plain { query = some (q ∷ qs) }) 0)
        (Arrives-takes percent_format input small start query_char grown [] (q ∷ qs) []
          (query_takes percent_format input small plain) each here)
        (query_end percent_format input small plain q qs each)
  query_read uri q qs (some []) each part here = absurd part
  query_read uri q qs (some (f ∷ fs)) each part here =
      let plain = record uri { query = some []; fragment = none } in
      let full = record uri { query = some (q ∷ qs) } in
      let grown : List ℕ → Parser = λ taken. at State.query_state taken plain 0 in
      fragment_read full f fs part (
        Arrives-char percent_format input small start b'#' (f ∷ fs) (grown (q ∷ qs))
          (fragment_parser full [])
          (Arrives-takes percent_format input small start query_char grown [] (q ∷ qs)
            (b'#' ∷ f ∷ fs) (query_takes percent_format input small plain) each here)
          (query_fragment percent_format input small plain q qs each))

  -- Behind the last segment.
  module _ (uri : Uri) (segment : List ℕ) (no_file : equals uri.scheme file_scheme ≡ false)
      (own : IsSegment segment) where
    abbrev bare : Uri
    bare = record uri { query = none; fragment = none }

    path_end :
        (query fragment : Option (List ℕ))
        → IsPart query_char query
        → IsPart fragment_char fragment
        → Here
            (at State.relative_path_state segment bare 0)
            (marked b'?' query ++ marked b'#' fragment)
        → Parsed
            (record uri { path = uri.path ++ segment ∷ []; query = query; fragment = fragment })
    path_end none none part part' here =
        Arrives-end percent_format input small start (at State.relative_path_state segment bare 0)
          (at State.relative_path_state [] (record bare { path = uri.path ++ segment ∷ [] }) 0) here
          (segment_end percent_format input small bare segment no_file own)
    path_end none (some []) part part' here = absurd part'
    path_end none (some (f ∷ fs)) part part' here =
        let longer = record bare { path = uri.path ++ segment ∷ [] } in
        fragment_read longer f fs part' (
          Arrives-char percent_format input small start b'#' (f ∷ fs)
            (at State.relative_path_state segment bare 0) (fragment_parser longer []) here
            (segment_fragment percent_format input small bare segment no_file own))
    path_end (some []) fragment part part' here = absurd part
    path_end (some (q ∷ qs)) fragment part part' here =
        let longer = record bare { path = uri.path ++ segment ∷ [] } in
        query_read longer q qs fragment part part' (
          Arrives-char percent_format input small start b'?' ((q ∷ qs) ++ marked b'#' fragment)
            (at State.relative_path_state segment bare 0)
            (at State.query_state [] (record longer { query = some [] }) 0) here
            (segment_query percent_format input small bare segment no_file own))

  abbrev plain : Uri → Uri
  plain uri = record uri { query = none; fragment = none }

  segment_read :
      (uri : Uri) (segment rest : List ℕ)
      → IsSegment segment
      → Here (at State.relative_path_state [] (plain uri) 0) (segment ++ rest)
      → Here (at State.relative_path_state segment (plain uri) 0) rest
  segment_read uri segment rest own here =
      Arrives-takes percent_format input small start path_char
        (λ taken. at State.relative_path_state taken (plain uri) 0) [] segment rest
        (path_takes percent_format input small (plain uri)) own.0 here

  module _ (query fragment : Option (List ℕ)) (part : IsPart query_char query)
      (part' : IsPart fragment_char fragment) where
    pub path_read :
        (uri : Uri) (segment : List ℕ) (segments : List (List ℕ))
        → equals uri.scheme file_scheme ≡ false
        → All IsSegment (segment ∷ segments)
        → Here
            (at State.relative_path_state [] (record uri { query = none; fragment = none }) 0)
            ((segment ++ write_segments segments) ++ (marked b'?' query ++ marked b'#' fragment))
        → Parsed (record uri {
          path = uri.path ++ segment ∷ segments;
          query = query;
          fragment = fragment;
        })
    path_read uri segment [] no_file (own, owns) here =
        path_end uri segment no_file own query fragment part part' (
          segment_read uri segment (marked b'?' query ++ marked b'#' fragment) own (
            subst
              (λ t.
                Here (at State.relative_path_state [] (plain uri) 0)
                  (t ++ (marked b'?' query ++ marked b'#' fragment)))
              (append-nil segment) here))
    path_read uri segment (s ∷ ss) no_file (own, owns) here =
        let marks = marked b'?' query ++ marked b'#' fragment in
        let longer = record uri { path = uri.path ++ segment ∷ [] } in
        let text = (s ++ write_segments ss) ++ marks in
        let apart : Here (at State.relative_path_state [] (plain uri) 0) (segment ++ b'/' ∷ text) =
          subst (Here (at State.relative_path_state [] (plain uri) 0))
            (append_assoc segment (b'/' ∷ s ++ write_segments ss) marks) here in
        subst (λ path. Parsed (record uri { path = path; query = query; fragment = fragment }))
          (append_assoc uri.path (segment ∷ []) (s ∷ ss))
          (path_read longer s ss no_file owns (
            Arrives-char percent_format input small start b'/' text
              (at State.relative_path_state segment (plain uri) 0)
              (at State.relative_path_state [] (plain longer) 0)
              (segment_read uri segment (b'/' ∷ text) own apart)
              (segment_slash percent_format input small (plain uri) segment no_file own)))
