-- ===== src/Json/Frames/RoundTrip.antt =====
-- ValueFrame reads the tokens of a value as this value (Json.ValueFrame.cpp, Json.ArrayFrame.cpp,
-- Json.ObjectFrame.cpp).
use webel.Prelude.{List, [], ap, append_assoc, false, refl, ℕ, ◌++◌, ◌∙◌, ◌∷◌, ◌≡◌}
use webel.Json.Tokens.{
  Token, end_array_token, end_object_token, name_separator_token, string_token, ws,
}
use webel.Json.Values.{
  Value, null_value, bool_value, object_value, array_value, number_value, string_value, Values,
  no_values, value_cons, Members, no_members, member_cons,
}
use webel.Json.Documents.{tokens, more_tokens, more_member_tokens}
use webel.Json.Script.{Scripting}
use webel.Json.Frames.{
  written, value_start, value_done, expecting_first_element, element_pending,
  expecting_value_separator, expecting_next_element, array_done, expecting_first_name,
  expecting_member_separator, object_done, new_array, new_object,
}
use webel.Json.Frames.Containers.{is_among, push_back, names, add_last, insert}
use webel.Json.Frames.Write.{
  write_value_start, write_element_start, write_first_element, write_value_separator, observe,
  write_first_name, write_next_name, write_separator, write_member_separator, array_written,
  object_written, Replay, write_value_frame,
}
use webel.Json.Frames.Feeding.{feed}
use webel.Json.Frames.Passing.{
  array_of, object_of, feed_value, feed_array, feed_object, feed-element_pending,
  feed-member_pending, feed-value_array, feed-value_object,
}

module _ {F : Type 0} where
  -- No object has two members of the same name.
  unfoldable mutual
    pub HasDistinctNames : Value F → Type 0
    HasDistinctNames (array_value vs) = HaveDistinctNames vs
    HasDistinctNames (object_value ms) = AreNew [] ms
    HasDistinctNames v = Unit

    pub HaveDistinctNames : Values F → Type 0
    HaveDistinctNames no_values = Unit
    HaveDistinctNames (value_cons v vs) = HasDistinctNames v × HaveDistinctNames vs

    -- The names are neither among `used` nor twice among the members.
    pub AreNew : List (List ℕ) → Members F → Type 0
    AreNew used no_members = Unit
    AreNew used (member_cons n v ms) =
        (is_among n used ≡ false) × HasDistinctNames v × AreNew (used ++ n ∷ []) ms

  module _ (read : F → F) where
    -- The value with `read` of its numbers.
    unfoldable mutual
      pub with_numbers : Value F → Value F
      with_numbers null_value = null_value
      with_numbers (bool_value b) = bool_value b
      with_numbers (number_value x) = number_value (read x)
      with_numbers (string_value s) = string_value s
      with_numbers (array_value vs) = array_value (all_with_numbers vs)
      with_numbers (object_value ms) = object_value (members_with_numbers ms)

      pub all_with_numbers : Values F → Values F
      all_with_numbers no_values = no_values
      all_with_numbers (value_cons v vs) = value_cons (with_numbers v) (all_with_numbers vs)

      pub members_with_numbers : Members F → Members F
      members_with_numbers no_members = no_members
      members_with_numbers (member_cons n v ms) =
          member_cons n (with_numbers v) (members_with_numbers ms)

  unfoldable append : Values F → Values F → Values F
  append no_values ws = ws
  append (value_cons v vs) ws = value_cons v (append vs ws)

  unfoldable append_members : Members F → Members F → Members F
  append_members no_members ls = ls
  append_members (member_cons n v ms) ls = member_cons n v (append_members ms ls)

  append-no_values : (vs : Values F) → append vs no_values ≡ vs
  unfolding append
  append-no_values no_values = refl
  append-no_values (value_cons v vs) = rw (append-no_values vs) refl

  append-push_back :
      (vs : Values F) (w : Value F) (ws : Values F)
      → append (push_back vs w) ws ≡ append vs (value_cons w ws)
  unfolding append push_back
  append-push_back no_values w ws = refl
  append-push_back (value_cons v vs) w ws = rw (append-push_back vs w ws) refl

  append-no_members : (ms : Members F) → append_members ms no_members ≡ ms
  unfolding append_members
  append-no_members no_members = refl
  append-no_members (member_cons n v ms) = rw (append-no_members ms) refl

  append-add_last :
      (ms : Members F) (n : List ℕ) (w : Value F) (ls : Members F)
      → append_members (add_last ms n w) ls ≡ append_members ms (member_cons n w ls)
  unfolding append_members add_last
  append-add_last no_members n w ls = refl
  append-add_last (member_cons m v ms) n w ls = rw (append-add_last ms n w ls) refl

  names-add_last :
      (ms : Members F) (n : List ℕ) (w : Value F) → names (add_last ms n w) ≡ names ms ++ n ∷ []
  unfolding names add_last
  names-add_last no_members n w = refl
  names-add_last (member_cons m v ms) n w = rw (names-add_last ms n w) refl

  insert-new :
      (ms : Members F) (n : List ℕ) (w : Value F)
      → is_among n (names ms) ≡ false
      → insert ms n w ≡ add_last ms n w
  unfolding insert
  insert-new ms n w h = rw h refl

-- The tokens behind the bracket that opens an array, an object.
module _ {F : Type 0} (read : F → F) where
  abbrev pub element_tokens : Values F → List (Token F)
  element_tokens no_values = end_array_token ∷ []
  element_tokens (value_cons v vs) = tokens read v ++ (more_tokens read vs ++ end_array_token ∷ [])

  abbrev pub member_tokens : Members F → List (Token F)
  member_tokens no_members = end_object_token ∷ []
  member_tokens (member_cons n v ms) =
      string_token n
      ∷ name_separator_token
      ∷ (tokens read v ++ (more_member_tokens read ms ++ end_object_token ∷ []))

module _ {N F : Type 0} (html : Scripting N F) (replay : Replay html) (read : F → F) where
  -- The first token of a value is passed on to a frame of its own.
  first_element :
      (v : Value F) (domain : N) (rest : List (Token F))
      → feed_array html replay (expecting_first_element (new_array domain)) (tokens read v ++ rest)
        ≡ feed_array html replay
            (element_pending (new_array domain) (value_start domain))
            (tokens read v ++ rest)
  unfolding tokens feed write_value_frame observe write_first_element write_element_start
  first_element null_value domain rest = refl
  first_element (bool_value b) domain rest = refl
  first_element (number_value x) domain rest = refl
  first_element (string_value s) domain rest = refl
  first_element (array_value no_values) domain rest = refl
  first_element (array_value (value_cons v vs)) domain rest = refl
  first_element (object_value no_members) domain rest = refl
  first_element (object_value (member_cons n v ms)) domain rest = refl

  next_element :
      (v : Value F) (domain : N) (vs : Values F) (rest : List (Token F))
      → feed_array html replay (expecting_next_element (array_of domain vs)) (tokens read v ++ rest)
        ≡ feed_array html replay
            (element_pending (array_of domain vs) (value_start domain))
            (tokens read v ++ rest)
  unfolding tokens feed write_value_frame observe write_element_start
  next_element null_value domain ws rest = refl
  next_element (bool_value b) domain ws rest = refl
  next_element (number_value x) domain ws rest = refl
  next_element (string_value s) domain ws rest = refl
  next_element (array_value no_values) domain ws rest = refl
  next_element (array_value (value_cons v vs)) domain ws rest = refl
  next_element (object_value no_members) domain ws rest = refl
  next_element (object_value (member_cons n v ms)) domain ws rest = refl

  mutual
    unfolding tokens feed write_value_frame write_value_start observe HasDistinctNames with_numbers
        write_first_name write_separator write_member_separator write_next_name
        write_value_separator append append_members push_back add_last names write_first_element
        array_written object_written

    value_fed :
        (v : Value F) (domain : N)
        → HasDistinctNames v
        → feed_value html replay (value_start domain) (tokens read v)
          ≡ written (value_done (with_numbers read v))
    value_fed null_value domain h = refl
    value_fed (bool_value b) domain h = refl
    value_fed (number_value x) domain h = refl
    value_fed (string_value s) domain h = refl
    value_fed (array_value no_values) domain h = refl
    value_fed (array_value (value_cons v vs)) domain h =
        feed-value_array html replay (expecting_first_element (new_array domain))
          (element_tokens read (value_cons v vs)) (all_with_numbers read (value_cons v vs)) refl
          (elements_fed (value_cons v vs) domain h)
    value_fed (object_value no_members) domain h = refl
    value_fed (object_value (member_cons n v ms)) domain h =
        feed-value_object html replay (expecting_first_name (new_object domain))
          (member_tokens read (member_cons n v ms)) (members_with_numbers read (member_cons n v ms))
          refl (members_fed (member_cons n v ms) domain h)

    pub elements_fed :
        (vs : Values F) (domain : N)
        → HaveDistinctNames vs
        → feed_array html replay
            (expecting_first_element (new_array domain))
            (element_tokens read vs)
          ≡ written (array_done (all_with_numbers read vs))
    elements_fed no_values domain h = refl
    elements_fed (value_cons v vs) domain (h, k) =
        let rest = more_tokens read vs ++ end_array_token ∷ [] in
        let w = with_numbers read v in
        first_element v domain rest
        ∙ (feed-element_pending html replay domain no_values (tokens read v) rest w
              (value_fed v domain h)
            ∙ more_fed vs domain (value_cons w no_values) k)

    pub members_fed :
        (ms : Members F) (domain : N)
        → AreNew [] ms
        → feed_object html replay (expecting_first_name (new_object domain)) (member_tokens read ms)
          ≡ written (object_done (members_with_numbers read ms))
    members_fed no_members domain h = refl
    members_fed (member_cons n v ms) domain (h, k, l) =
        let rest = more_member_tokens read ms ++ end_object_token ∷ [] in
        let w = with_numbers read v in
        feed-member_pending html replay domain n no_members (tokens read v) rest w
          (value_fed v domain k)
        ∙ rw (insert-new no_members n w h)
            (more_members_fed ms domain n (member_cons n w no_members) l)

    more_fed :
        (ws : Values F) (domain : N) (vs : Values F)
        → HaveDistinctNames ws
        → feed_array html replay
            (expecting_value_separator (array_of domain vs))
            (more_tokens read ws ++ end_array_token ∷ [])
          ≡ written (array_done (append vs (all_with_numbers read ws)))
    more_fed no_values domain vs h = rw (append-no_values vs) refl
    more_fed (value_cons w ws) domain vs (h, k) =
        let rest = more_tokens read ws ++ end_array_token ∷ [] in
        let v = with_numbers read w in
        rw append_assoc (
          next_element w domain vs rest
          ∙ (feed-element_pending html replay domain vs (tokens read w) rest v
                (value_fed w domain h)
              ∙ (more_fed ws domain (push_back vs v) k
                  ∙ ap (λ vs'. written (array_done vs')) (append-push_back vs v _))))

    more_members_fed :
        (ls : Members F) (domain : N) (n : List ℕ) (ms : Members F)
        → AreNew (names ms) ls
        → feed_object html replay
            (expecting_member_separator (object_of domain n ms))
            (more_member_tokens read ls ++ end_object_token ∷ [])
          ≡ written (object_done (append_members ms (members_with_numbers read ls)))
    more_members_fed no_members domain n ms h = rw (append-no_members ms) refl
    more_members_fed (member_cons m w ls) domain n ms (h, k, l) =
        let rest = more_member_tokens read ls ++ end_object_token ∷ [] in
        let v = with_numbers read w in
        rw append_assoc (
          feed-member_pending html replay domain m ms (tokens read w) rest v (value_fed w domain k)
          ∙ rw (insert-new ms m v h) (
              more_members_fed ls domain m (add_last ms m v) (rw names-add_last l)
              ∙ ap (λ ms'. written (object_done ms')) (append-add_last ms m v _)))

  -- A ValueFrame in its first state that is fed the tokens of any value in which no object has two
  -- members of the same name ends with this value, each number as it is read. It does so before any
  -- script is asked, whatever the loop over scripted elements would do.
  pub write_value_frame-tokens :
      (v : Value F) (domain : N)
      → HasDistinctNames v
      → feed_value html replay (value_start domain) (tokens read v)
        ≡ written (value_done (with_numbers read v))
  write_value_frame-tokens = value_fed
