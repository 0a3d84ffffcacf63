-- ===== src/Json/Frames/Passing.antt =====
-- A frame passes the tokens on to the frame it owns (Json.ValueFrame.cpp, Json.ArrayFrame.cpp,
-- Json.ObjectFrame.cpp), where no script is about.
use webel.Prelude.{List, [], append-nil, false, refl, sym, true, ℕ, ◌++◌, ◌≡◌}
use webel.Json.Tokens.{Token}
use webel.Json.Values.{Value, object_value, array_value, Values, Members}
use webel.Json.Script.{Scripting}
use webel.Json.Frames.{
  Run, written, throws, ArrayFields, ObjectFields, ValueFrame, value_start, value_script,
  value_array, value_object, value_done, value_failed, ArrayFrame, expecting_first_element,
  array_script, script_execution, element_pending, expecting_value_separator,
  expecting_next_element, array_done, array_failed, ObjectFrame, expecting_first_name,
  object_script, expecting_next_name, expecting_separator, member_pending,
  expecting_member_separator, object_done, object_failed, new_array, new_object, value_is_ended,
  array_is_ended, object_is_ended,
}
use webel.Json.Frames.Containers.{push_back, insert}
use webel.Json.Frames.Write.{
  element_written, observe, member_written, array_written, object_written, Replay,
  write_value_frame, write_array_frame, write_object_frame,
}
use webel.Json.Frames.Feeding.{feed, feed-pending}

-- The fields of the frames where there are no scripts.
module _ {N F : Type 0} where
  abbrev pub array_of : N → Values F → ArrayFields N F
  array_of domain vs = record (new_array domain) { elements = vs }

  abbrev pub object_of : N → List ℕ → Members F → ObjectFields N F
  object_of domain n ms = record (new_object domain) { member_name = n; members = ms }

module _ {N F : Type 0} (html : Scripting N F) (replay : Replay html) where
  abbrev pub feed_value : ValueFrame N F → List (Token F) → Run (ValueFrame N F)
  feed_value = feed (write_value_frame html replay)

  abbrev pub feed_array : ArrayFrame N F → List (Token F) → Run (ArrayFrame N F)
  feed_array = feed (write_array_frame html replay)

  abbrev pub feed_object : ObjectFrame N F → List (Token F) → Run (ObjectFrame N F)
  feed_object = feed (write_object_frame html replay)

  pub value_throws :
      (f : ValueFrame N F) (t : Token F)
      → value_is_ended f ≡ true
      → write_value_frame html replay f t ≡ throws
  unfolding write_value_frame
  value_throws (value_done v) t h = refl
  value_throws (value_failed e) t h = refl
  value_throws (value_start d) t h = cc
  value_throws (value_script d f) t h = cc
  value_throws (value_array f) t h = cc
  value_throws (value_object f) t h = cc

  pub array_throws :
      (f : ArrayFrame N F) (t : Token F)
      → array_is_ended f ≡ true
      → write_array_frame html replay f t ≡ throws
  unfolding write_value_frame
  array_throws (array_done vs) t h = refl
  array_throws (array_failed e) t h = refl
  array_throws (expecting_first_element a) t h = cc
  array_throws (array_script a f) t h = cc
  array_throws (script_execution a f) t h = cc
  array_throws (element_pending a f) t h = cc
  array_throws (expecting_value_separator a) t h = cc
  array_throws (expecting_next_element a) t h = cc

  pub object_throws :
      (f : ObjectFrame N F) (t : Token F)
      → object_is_ended f ≡ true
      → write_object_frame html replay f t ≡ throws
  unfolding write_value_frame
  object_throws (object_done ms) t h = refl
  object_throws (object_failed e) t h = refl
  object_throws (expecting_first_name o) t h = cc
  object_throws (object_script to o f) t h = cc
  object_throws (expecting_next_name o) t h = cc
  object_throws (expecting_separator o) t h = cc
  object_throws (member_pending o f) t h = cc
  object_throws (expecting_member_separator o) t h = cc

  element_waits :
      (a : ArrayFields N F) (f : ValueFrame N F)
      → value_is_ended f ≡ false
      → element_written a f ≡ element_pending a f
  unfolding element_written
  element_waits a (value_done v) h = cc
  element_waits a (value_failed e) h = cc
  element_waits a (value_start d) h = refl
  element_waits a (value_script d f) h = refl
  element_waits a (value_array f) h = refl
  element_waits a (value_object f) h = refl

  member_waits :
      (o : ObjectFields N F) (f : ValueFrame N F)
      → value_is_ended f ≡ false
      → member_written o f ≡ member_pending o f
  unfolding member_written
  member_waits o (value_done v) h = cc
  member_waits o (value_failed e) h = cc
  member_waits o (value_start d) h = refl
  member_waits o (value_script d f) h = refl
  member_waits o (value_array f) h = refl
  member_waits o (value_object f) h = refl

  array_waits : (f : ArrayFrame N F) → array_is_ended f ≡ false → array_written f ≡ value_array f
  unfolding array_written
  array_waits (array_done vs) h = cc
  array_waits (array_failed e) h = cc
  array_waits (expecting_first_element a) h = refl
  array_waits (array_script a f) h = refl
  array_waits (script_execution a f) h = refl
  array_waits (element_pending a f) h = refl
  array_waits (expecting_value_separator a) h = refl
  array_waits (expecting_next_element a) h = refl

  object_waits :
      (f : ObjectFrame N F) → object_is_ended f ≡ false → object_written f ≡ value_object f
  unfolding object_written
  object_waits (object_done ms) h = cc
  object_waits (object_failed e) h = cc
  object_waits (expecting_first_name o) h = refl
  object_waits (object_script to o f) h = refl
  object_waits (expecting_next_name o) h = refl
  object_waits (expecting_separator o) h = refl
  object_waits (member_pending o f) h = refl
  object_waits (expecting_member_separator o) h = refl

  -- The last token of an element, a member's value, an array, an object.
  pub feed-element_pending :
      (domain : N) (vs : Values F) (ts rest : List (Token F)) (v : Value F)
      → feed_value (value_start domain) ts ≡ written (value_done v)
      → feed_array (element_pending (array_of domain vs) (value_start domain)) (ts ++ rest)
        ≡ feed_array (expecting_value_separator (array_of domain (push_back vs v))) rest
  unfolding write_value_frame observe element_written
  feed-element_pending domain vs ts rest v h =
      let a = array_of domain vs in
      feed-pending (write_value_frame html replay) (write_array_frame html replay) value_is_ended
        (λ f. element_pending a f) (λ f. element_written a f) ts (value_start domain) (value_done v)
        rest (value_throws, element_waits a, λ c t. refl) refl refl h

  pub feed-member_pending :
      (domain : N) (n : List ℕ) (ms : Members F) (ts rest : List (Token F)) (v : Value F)
      → feed_value (value_start domain) ts ≡ written (value_done v)
      → feed_object (member_pending (object_of domain n ms) (value_start domain)) (ts ++ rest)
        ≡ feed_object (expecting_member_separator (object_of domain n (insert ms n v))) rest
  unfolding write_value_frame member_written
  feed-member_pending domain n ms ts rest v h =
      let o = object_of domain n ms in
      feed-pending (write_value_frame html replay) (write_object_frame html replay) value_is_ended
        (λ f. member_pending o f) (λ f. member_written o f) ts (value_start domain) (value_done v)
        rest (value_throws, member_waits o, λ c t. refl) refl refl h

  pub feed-value_array :
      (f : ArrayFrame N F) (ts : List (Token F)) (vs : Values F)
      → array_is_ended f ≡ false
      → feed_array f ts ≡ written (array_done vs)
      → feed_value (value_array f) ts ≡ written (value_done (array_value vs))
  unfolding write_value_frame array_written feed
  feed-value_array f ts vs k h = rw (sym (append-nil ts)) (
      feed-pending (write_array_frame html replay) (write_value_frame html replay) array_is_ended
        (λ g. value_array g) (λ g. array_written g) ts f (array_done vs) []
        (array_throws, array_waits, λ c t. refl) k refl h)

  pub feed-value_object :
      (f : ObjectFrame N F) (ts : List (Token F)) (ms : Members F)
      → object_is_ended f ≡ false
      → feed_object f ts ≡ written (object_done ms)
      → feed_value (value_object f) ts ≡ written (value_done (object_value ms))
  unfolding write_value_frame object_written feed
  feed-value_object f ts ms k h = rw (sym (append-nil ts)) (
      feed-pending (write_object_frame html replay) (write_value_frame html replay) object_is_ended
        (λ g. value_object g) (λ g. object_written g) ts f (object_done ms) []
        (object_throws, object_waits, λ c t. refl) k refl h)
