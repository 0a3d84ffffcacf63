-- ===== src/Http/HeadersFrame/RoundTrip.antt =====
-- The frame reads back what serialize<NameValueCollection> writes (Http.HeadersFrame.h,
-- Http.HeadersFrame.cpp).
use webel.Prelude.{
  ℕ, ◌<◌, ◌≡◌, ◌≢◌, refl, ◌∙◌, true, Option, none, some, List, [], ◌∷◌, ◌++◌, Outcome, returns, All,
  append_assoc, append-nil, arith,
}
use webel.Basic.Frame.Bytes.{feed, feed_received}
use webel.Http.Characters.{cr, lf, sp, ht, colon, token, ascii_encode, encode_element}
use webel.Http.HeadersFrame.{
  State, receiving_name_state, expecting_value_state, expecting_next_header_state,
  receiving_value_state, done_state, Text, HeadersFrame, initial, receive, in_progress, failed,
  serialize,
}

abbrev run : HeadersFrame → List ℕ → Outcome (HeadersFrame × List ℕ)
run = feed in_progress failed receive

-- A byte of a value, and the first byte of one.
abbrev pub IsValueByte : ℕ → Type 0
IsValueByte b = (b < 0x80) × (b ≢ cr)

abbrev pub IsValue : Text → Type 0
IsValue [] = Unit {0}
IsValue (b ∷ bs) = (b ≢ sp) × (b ≢ ht) × IsValueByte b × All IsValueByte bs

abbrev pub IsName : Text → Type 0
IsName [] = ⊥
IsName (b ∷ bs) = (token b ≡ true) × All (λ c. token c ≡ true) bs

-- A header that the text format can carry: the name is a token, and the value is ASCII, holds no CR
-- and begins with no blank.
abbrev pub IsHeader : Text × Text → Type 0
IsHeader (n, v) = IsName n × IsValue v

-- The frame in a state, with its strings.
abbrev at : State → Option Text → Option Text → List (Text × Text) → HeadersFrame
at s n v nvc = record { state = s; name = n; value = v; nvc = nvc }

module _ (nvc : List (Text × Text)) where
  name_byte :
      (n : Text) (b : ℕ)
      → token b ≡ true
      → receive (at receiving_name_state (some n) none nvc) b
        ≡ returns (at receiving_name_state (some (n ++ b ∷ [])) none nvc)
  unfolding receive token
  name_byte n b h = ground arith

  run_name :
      (bs n rest : Text)
      → All (λ c. token c ≡ true) bs
      → run (at receiving_name_state (some n) none nvc) (bs ++ rest)
        ≡ run (at receiving_name_state (some (n ++ bs)) none nvc) rest
  run_name [] n rest h = rw append-nil refl
  run_name (b ∷ bs) n rest (h, hs) =
      feed_received in_progress failed receive _ b (bs ++ rest) _ refl (name_byte n b h)
      ∙ run_name bs (n ++ b ∷ []) rest hs
      ∙ rw append_assoc refl

  value_byte :
      (n : Text) (v : Text) (b : ℕ)
      → IsValueByte b
      → receive (at receiving_value_state (some n) (some v) nvc) b
        ≡ returns (at receiving_value_state (some n) (some (v ++ b ∷ [])) nvc)
  unfolding receive
  value_byte n v b h = ground arith

  run_value :
      (bs n v rest : Text)
      → All IsValueByte bs
      → run (at receiving_value_state (some n) (some v) nvc) (bs ++ rest)
        ≡ run (at receiving_value_state (some n) (some (v ++ bs)) nvc) rest
  run_value [] n v rest h = rw append-nil refl
  run_value (b ∷ bs) n v rest (h, hs) =
      feed_received in_progress failed receive _ b (bs ++ rest) _ refl (value_byte n v b h)
      ∙ run_value bs n (v ++ b ∷ []) rest hs
      ∙ rw append_assoc refl

  module _ (n : Text) (rest : List ℕ) where
    run-colon :
        run (at receiving_name_state (some n) none nvc) (colon ∷ sp ∷ rest)
        ≡ run (at expecting_value_state (some n) (some []) nvc) rest
    unfolding receive feed
    run-colon = refl

    run_line_end :
        (v : Text)
        → run (at receiving_value_state (some n) (some v) nvc) (cr ∷ lf ∷ rest)
          ≡ run (at expecting_next_header_state (some n) (some v) nvc) rest
    unfolding receive feed
    run_line_end v = refl

    run_empty_value :
        run (at expecting_value_state (some n) (some []) nvc) (cr ∷ lf ∷ rest)
        ≡ run (at expecting_next_header_state (some n) (some []) nvc) rest
    unfolding receive feed
    run_empty_value = refl

  first_value_byte :
      (n : Text) (b : ℕ)
      → b ≢ sp
      → b ≢ ht
      → IsValueByte b
      → receive (at expecting_value_state (some n) (some []) nvc) b
        ≡ returns (at receiving_value_state (some n) (some (b ∷ [])) nvc)
  unfolding receive
  first_value_byte n b h k l = ground arith

  run_value_line :
      (v n rest : Text)
      → IsValue v
      → run (at expecting_value_state (some n) (some []) nvc) (v ++ (cr ∷ lf ∷ rest))
        ≡ run (at expecting_next_header_state (some n) (some v) nvc) rest
  run_value_line [] n rest h = run_empty_value n rest
  run_value_line (b ∷ bs) n rest (h, k, l, hs) =
      feed_received in_progress failed receive _ b (bs ++ (cr ∷ lf ∷ rest)) _ refl
        (first_value_byte n b h k l)
      ∙ run_value bs n (b ∷ []) (cr ∷ lf ∷ rest) hs
      ∙ run_line_end n rest (b ∷ bs)

  -- The rest of a header line, behind the first byte of the name.
  run_header :
      (b : ℕ) (bs v rest : Text)
      → All (λ c. token c ≡ true) bs
      → IsValue v
      → run
          (at receiving_name_state (some (b ∷ [])) none nvc)
          (bs ++ (colon ∷ sp ∷ (v ++ (cr ∷ lf ∷ rest))))
        ≡ run (at expecting_next_header_state (some (b ∷ bs)) (some v) nvc) rest
  run_header b bs v rest h k =
      run_name bs (b ∷ []) (colon ∷ sp ∷ (v ++ (cr ∷ lf ∷ rest))) h
      ∙ run-colon (b ∷ bs) (v ++ (cr ∷ lf ∷ rest))
      ∙ run_value_line v (b ∷ bs) rest k

  first_name_byte :
      (b : ℕ)
      → token b ≡ true
      → receive (initial nvc) b ≡ returns (at receiving_name_state (some (b ∷ [])) none nvc)
  unfolding receive token
  first_name_byte b h = ground arith

  next_name_byte :
      (n v : Text) (b : ℕ)
      → token b ≡ true
      → receive (at expecting_next_header_state (some n) (some v) nvc) b
        ≡ returns (at receiving_name_state (some (b ∷ [])) none (nvc ++ (n, v) ∷ []))
  unfolding receive token
  next_name_byte n v b h = ground arith

run_done :
    (nvc : List (Text × Text)) (n v : Option Text) (rest : List ℕ)
    → run (at done_state n v nvc) rest ≡ returns (at done_state n v nvc, rest)
unfolding feed
run_done nvc n v [] = refl
run_done nvc n v (b ∷ rest) = refl

run_end :
    (nvc : List (Text × Text)) (n v rest : Text)
    → run (at expecting_next_header_state (some n) (some v) nvc) (cr ∷ lf ∷ rest)
      ≡ run (at done_state none none (nvc ++ (n, v) ∷ [])) rest
unfolding receive feed
run_end nvc n v rest = refl

run_no_headers :
    (nvc : List (Text × Text)) (rest : Text)
    → run (initial nvc) (cr ∷ lf ∷ rest) ≡ run (at done_state none none nvc) rest
unfolding receive feed
run_no_headers nvc rest = refl

-- ASCII goes out as it is.
encode_ascii :
    (pointer : ℕ → ℕ) (r : ℕ) (cs : Text) → All (λ c. c < 0x80) cs → ascii_encode pointer r cs ≡ cs
unfolding ascii_encode encode_element
encode_ascii pointer r [] h = refl
encode_ascii pointer r (c ∷ cs) (h, hs) = ground (arith, encode_ascii pointer r cs hs)

token-lt : (b : ℕ) → token b ≡ true → b < 0x80
unfolding token
token-lt b h = ground arith

tokens-lt : (bs : Text) → All (λ c. token c ≡ true) bs → All (λ c. c < 0x80) bs
tokens-lt [] h = tt
tokens-lt (b ∷ bs) (h, hs) = (token-lt b h, tokens-lt bs hs)

values-lt : (bs : Text) → All IsValueByte bs → All (λ c. c < 0x80) bs
values-lt [] h = tt
values-lt (b ∷ bs) (h, hs) = (h.0, values-lt bs hs)

value-lt : (v : Text) → IsValue v → All (λ c. c < 0x80) v
value-lt [] h = tt
value-lt (b ∷ bs) (h, k, l, hs) = (l.0, values-lt bs hs)

module _ (pointer : ℕ → ℕ) (r : ℕ) where
  abbrev encode : Text → List ℕ
  encode = ascii_encode pointer r

  serialize-cons :
      (b : ℕ) (bs v : Text) (hs : List (Text × Text)) (rest : List ℕ)
      → IsHeader (b ∷ bs, v)
      → serialize encode ((b ∷ bs, v) ∷ hs) ++ rest
        ≡ b ∷ (bs ++ (colon ∷ sp ∷ (v ++ (cr ∷ lf ∷ (serialize encode hs ++ rest)))))
  unfolding serialize
  serialize-cons b bs v hs rest ((h, k), l) =
      rw
        (
          encode_ascii pointer r (b ∷ bs) (token-lt b h, tokens-lt bs k),
          encode_ascii pointer r v (value-lt v l),
        )
        (simp append_assoc)

  -- A header is pending, and others follow.
  run_pending :
      (hs nvc : List (Text × Text)) (n v : Text) (rest : List ℕ)
      → All IsHeader hs
      → run (at expecting_next_header_state (some n) (some v) nvc) (serialize encode hs ++ rest)
        ≡ returns (at done_state none none (nvc ++ (n, v) ∷ hs), rest)
  run_pending [] nvc n v rest h =
      unfold serialize in (run_end nvc n v rest ∙ run_done _ none none rest)
  run_pending (([], v') ∷ hs) nvc n v rest (h, k) = absurd h.0
  run_pending ((b ∷ bs, v') ∷ hs) nvc n v rest (h, k) = rw (serialize-cons b bs v' hs rest h) (
      feed_received in_progress failed receive _ b _ _ refl (next_name_byte nvc n v b h.0.0)
      ∙ run_header (nvc ++ (n, v) ∷ []) b bs v' (serialize encode hs ++ rest) h.0.1 h.1
      ∙ run_pending hs (nvc ++ (n, v) ∷ []) (b ∷ bs) v' rest k
      ∙ rw append_assoc refl)

  -- For headers that the format can carry, a frame that is fed what serialize<NameValueCollection>
  -- writes, and anything behind it, ends in done_state with exactly these headers added, in their
  -- order, and leaves what is behind unread.
  pub feed-serialize :
      (hs nvc : List (Text × Text)) (rest : List ℕ)
      → All IsHeader hs
      → feed in_progress failed receive (initial nvc) (serialize encode hs ++ rest)
        ≡ returns (record { state = done_state; name = none; value = none; nvc = nvc ++ hs }, rest)
  feed-serialize [] nvc rest h =
      rw append-nil (unfold serialize in (run_no_headers nvc rest ∙ run_done nvc none none rest))
  feed-serialize (([], v) ∷ hs) nvc rest (h, k) = absurd h.0
  feed-serialize ((b ∷ bs, v) ∷ hs) nvc rest (h, k) = rw (serialize-cons b bs v hs rest h) (
      feed_received in_progress failed receive _ b _ _ refl (first_name_byte nvc b h.0.0)
      ∙ run_header nvc b bs v (serialize encode hs ++ rest) h.0.1 h.1
      ∙ run_pending hs nvc (b ∷ bs) v rest k)
