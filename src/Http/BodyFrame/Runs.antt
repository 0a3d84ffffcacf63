-- ===== src/Http/BodyFrame/Runs.antt =====
-- Bodies for headers, and one that ends with the connection (Http.BodyFrame.cpp,
-- Http.DisconnectBodyFrame.cpp).
use webel.Prelude.{[], arith, inr, none, refl, returns, some, true, ◌∷◌, ◌≡◌}
use webel.Basic.Numbers.{lower_case, base_10}
use webel.Basic.Frame.{succeeded_state, exited, element_stream_ending}
use webel.Basic.Uri.{same_text}
use webel.Http.LengthBodyFrame.{write_elements, write_eof}
use webel.Http.BodyFrame.{gzip, Headers, as_base_10, get_base_10, make_body_frame, of_length}
use webel.Http.BodyFrame.Choice.{make_body_frame-positional}
use webel.Http.BodyFrame.Disconnect.{receiving, feed, feed-calls}

-- Both lengths; the first one is no number.
abbrev two_lengths : Headers
two_lengths = record {
  content_type = some (b't' ∷ []);
  content_encoding = some gzip;
  transfer_encoding = none;
  transfer_length = some (b'x' ∷ []);
  content_length = some (b'4' ∷ b'2' ∷ []);
}

make_body_frame-positional_example :
    make_body_frame two_lengths ≡ some (record { decoded = true; framing = of_length 42 })
unfolding get_base_10 as_base_10 base_10 lower_case same_text
make_body_frame-positional_example =
    make_body_frame-positional two_lengths (b't' ∷ []) true (4 ∷ 2 ∷ []) refl refl tt
      (omega arith, (omega arith, tt)) (inr (refl, refl))

-- A length of 2 ^ 32 + 1 is read as 1.
wrapped_length :
    get_base_10 (some (b'4' ∷ b'2' ∷ b'9' ∷ b'4' ∷ b'9' ∷ b'6' ∷ b'7' ∷ b'2' ∷ b'9' ∷ b'7' ∷ []))
    ≡ some 1
unfolding get_base_10 as_base_10 base_10
wrapped_length = refl

feed-calls_example :
    feed (receiving []) ((1 ∷ 2 ∷ []) ∷ [] ∷ (3 ∷ []) ∷ [])
    ≡ returns (
      exited,
      record {
        state = succeeded_state;
        content = write_elements (1 ∷ 2 ∷ []) ∷ write_elements (3 ∷ []) ∷ write_eof ∷ [];
      },
      element_stream_ending,
    )
feed-calls_example =
    feed-calls [] ((1 ∷ 2 ∷ []) ∷ [] ∷ (3 ∷ []) ∷ [])
      (omega arith, (omega arith, (omega arith, tt)))
