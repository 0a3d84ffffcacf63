-- ===== src/Http/HeadersFrame.antt =====
-- class HeadersFrame (Http.HeadersFrame.h, Http.HeadersFrame.cpp). The multimap NameValueCollection
-- is the list of its entries in the order of insertion. `none` is the null pointer; a call through
-- it ends the run, as a FatalError does.
pub mod RoundTrip
pub mod Safety
mod Runs
use webel.Prelude.{
  ℕ, ◌+◌, Bool, ◌||◌, Option, none, some, List, [], ◌∷◌, ◌++◌, Outcome, returns, fatal, ◌>>=◌, ◌==◌,
  if◌then◌else◌,
}
use webel.Basic.Frame.{switch_to_state, is_in_progress, is_failed, succeeded_state, Process}
use webel.Basic.Frame.Bytes.{byte_process}
use webel.Http.Characters.{cr, lf, sp, ht, colon, token, ascii_encode}

pub data State : Type 0 where
  expecting_name_state receiving_name_state expecting_colon_state expecting_value_state : State
  expecting_next_header_state expecting_lf_after_value_state receiving_value_state : State
  expecting_lf_after_headers_state done_state expecting_name_error receiving_name_error : State
  expecting_colon_error expecting_lf_after_value_error expecting_next_header_error : State
  expecting_lf_after_headers_error : State

-- The numbers of the enum.
abbrev pub code : State → ℕ
code expecting_name_state = 0
code receiving_name_state = 1
code expecting_colon_state = 2
code expecting_value_state = 3
code expecting_next_header_state = 4
code expecting_lf_after_value_state = 5
code receiving_value_state = 6
code expecting_lf_after_headers_state = 7
code done_state = succeeded_state
code expecting_name_error = succeeded_state + 1
code receiving_name_error = succeeded_state + 2
code expecting_colon_error = succeeded_state + 3
code expecting_lf_after_value_error = succeeded_state + 4
code expecting_next_header_error = succeeded_state + 5
code expecting_lf_after_headers_error = succeeded_state + 6

abbrev pub Text : Type 0
Text = List ℕ

pub record HeadersFrame : Type 0 where
  pub state : State
  pub name : Option Text
  pub value : Option Text
  pub nvc : List (Text × Text)

-- The constructor, over the collection that the frame fills.
abbrev pub initial : List (Text × Text) → HeadersFrame
initial nvc = record { state = expecting_name_state; name = none; value = none; nvc = nvc }

goto : State → HeadersFrame → Outcome HeadersFrame
goto next h =
    switch_to_state (code h.state) (code next) >>= λ _. returns (record h { state = next })

push_name : ℕ → HeadersFrame → Outcome HeadersFrame
push_name b h = elim h.name [
  | none ↦ fatal
  | some n ↦ returns (record h { name = some (n ++ b ∷ []) })
]

push_value : ℕ → HeadersFrame → Outcome HeadersFrame
push_value b h = elim h.value [
  | none ↦ fatal
  | some v ↦ returns (record h { value = some (v ++ b ∷ []) })
]

-- `nvc->insert(value_type(name, value))`, of two strings.
insert : HeadersFrame → Outcome HeadersFrame
insert h = elim h.name [
  | none ↦ fatal
  | some n ↦ elim h.value [
    | none ↦ fatal
    | some v ↦ returns (record h { nvc = h.nvc ++ (n, v) ∷ [] })
  ]
]

blank : ℕ → Bool
blank b = b == sp || b == ht

in_expecting_name : HeadersFrame → ℕ → Outcome HeadersFrame
in_expecting_name h b =
    if b == cr
    then goto expecting_lf_after_headers_state h
    else if token b
    then goto receiving_name_state (record h { name = some (b ∷ []) })
    else goto expecting_name_error h

in_receiving_name : HeadersFrame → ℕ → Outcome HeadersFrame
in_receiving_name h b =
    if b == colon
    then goto expecting_value_state (record h { value = some [] })
    else if blank b
    then goto expecting_colon_state (record h { value = some [] })
    else if token b
    then push_name b h
    else if b == b';'
    then push_name b h
    else goto receiving_name_error h

in_expecting_colon : HeadersFrame → ℕ → Outcome HeadersFrame
in_expecting_colon h b =
    if b == colon
    then goto expecting_value_state h
    else if blank b
    then returns h
    else goto expecting_colon_error h

in_expecting_value : HeadersFrame → ℕ → Outcome HeadersFrame
in_expecting_value h b =
    if b == cr
    then goto expecting_lf_after_value_state h
    else if blank b
    then returns h
    else (push_value b h >>= goto receiving_value_state)

in_receiving_value : HeadersFrame → ℕ → Outcome HeadersFrame
in_receiving_value h b = if b == cr then goto expecting_lf_after_value_state h else push_value b h

in_expecting_lf_after_value : HeadersFrame → ℕ → Outcome HeadersFrame
in_expecting_lf_after_value h b =
    if b == lf then goto expecting_next_header_state h else goto expecting_lf_after_value_error h

in_expecting_next_header : HeadersFrame → ℕ → Outcome HeadersFrame
in_expecting_next_header h b =
    if b == cr
    then (insert h >>= λ h'.
        goto expecting_lf_after_headers_state (record h' { name = none; value = none }))
    else if blank b
    then (push_value sp h >>= goto expecting_value_state)
    else if token b
    then (insert h >>= λ h'.
        goto receiving_name_state (record h' { value = none; name = some (b ∷ []) }))
    else goto expecting_next_header_error h

in_expecting_lf_after_headers : HeadersFrame → ℕ → Outcome HeadersFrame
in_expecting_lf_after_headers h b =
    if b == lf then goto done_state h else goto expecting_lf_after_headers_error h

-- The switch on the state; the states that have ended are the default, which throws.
dispatch : State → HeadersFrame → ℕ → Outcome HeadersFrame
unfolding goto push_name push_value insert blank in_expecting_name in_receiving_name
    in_expecting_colon in_expecting_value in_receiving_value in_expecting_lf_after_value
    in_expecting_next_header in_expecting_lf_after_headers
dispatch expecting_name_state = in_expecting_name
dispatch receiving_name_state = in_receiving_name
dispatch expecting_colon_state = in_expecting_colon
dispatch expecting_value_state = in_expecting_value
dispatch receiving_value_state = in_receiving_value
dispatch expecting_lf_after_value_state = in_expecting_lf_after_value
dispatch expecting_next_header_state = in_expecting_next_header
dispatch expecting_lf_after_headers_state = in_expecting_lf_after_headers
dispatch _ = λ h b. fatal

-- What process_event does with the byte that it has read.
unfoldable pub receive : HeadersFrame → ℕ → Outcome HeadersFrame
unfolding dispatch
receive h b = dispatch h.state h b

abbrev pub in_progress : HeadersFrame → Bool
in_progress h = is_in_progress (code h.state)

abbrev pub failed : HeadersFrame → Bool
failed h = is_failed (code h.state)

-- process_event: one byte is read in each state.
abbrev pub process : Process HeadersFrame
process = byte_process in_progress failed receive

-- serialize<NameValueCollection>; `encode` is ascii_encode.
unfoldable pub serialize : (Text → List ℕ) → List (Text × Text) → List ℕ
serialize encode [] = cr ∷ lf ∷ []
serialize encode ((n, v) ∷ nvc) =
    encode n ++ (colon ∷ sp ∷ (encode v ++ (cr ∷ lf ∷ serialize encode nvc)))
