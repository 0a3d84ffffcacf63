-- ===== src/Json/Text/Passing.antt =====
-- A Text that is fed the tokens of an array or of an object (Json.Text.cpp).
use webel.Prelude.{List, [], append-nil, false, refl, sym, true, ◌≡◌}
use webel.Json.Tokens.{Token}
use webel.Json.Values.{
  Value, null_value, bool_value, object_value, array_value, number_value, string_value, Values,
  no_values, value_cons, Members, no_members, member_cons, is_complex,
}
use webel.Json.Documents.{tokens}
use webel.Json.Script.{Scripting}
use webel.Json.Frames.{
  written, ArrayFrame, expecting_first_element, array_script, script_execution, element_pending,
  expecting_value_separator, expecting_next_element, array_done, array_failed, ObjectFrame,
  expecting_first_name, object_script, expecting_next_name, expecting_separator, member_pending,
  expecting_member_separator, object_done, object_failed, new_array, new_object, array_is_ended,
  object_is_ended,
}
use webel.Json.Frames.Write.{Replay, write_array_frame, write_object_frame}
use webel.Json.Frames.Feeding.{feed, feed-pending}
use webel.Json.Frames.Passing.{feed_array, feed_object, array_throws, object_throws}
use webel.Json.Frames.RoundTrip.{
  element_tokens, member_tokens, HasDistinctNames, with_numbers, elements_fed, members_fed,
}
use webel.Json.Text.{
  expecting_root, text_array, text_object, text_done, write_root, text_array_written,
  text_object_written, write_text,
}

module _ {N F : Type 0} where
  array_waits :
      (f : ArrayFrame N F) → array_is_ended f ≡ false → text_array_written f ≡ text_array f
  unfolding text_array_written
  array_waits (array_done vs) h = cc
  array_waits (array_failed e) h = cc
  array_waits (expecting_first_element a) h = refl
  array_waits (array_script a f) h = refl
  array_waits (script_execution a f) h = refl
  array_waits (element_pending a f) h = refl
  array_waits (expecting_value_separator a) h = refl
  array_waits (expecting_next_element a) h = refl

  object_waits :
      (f : ObjectFrame N F) → object_is_ended f ≡ false → text_object_written f ≡ text_object f
  unfolding text_object_written
  object_waits (object_done ms) h = cc
  object_waits (object_failed e) h = cc
  object_waits (expecting_first_name o) h = refl
  object_waits (object_script to o f) h = refl
  object_waits (expecting_next_name o) h = refl
  object_waits (expecting_separator o) h = refl
  object_waits (member_pending o f) h = refl
  object_waits (expecting_member_separator o) h = refl

module _ {N F : Type 0} (html : Scripting N F) (replay : Replay html) where
  feed-text_array :
      (f : ArrayFrame N F) (ts : List (Token F)) (vs : Values F)
      → array_is_ended f ≡ false
      → feed_array html replay f ts ≡ written (array_done vs)
      → feed (write_text html replay) (text_array f) ts ≡ written (text_done (array_value vs))
  unfolding write_text text_array_written feed
  feed-text_array f ts vs k h = rw (sym (append-nil ts)) (
      feed-pending (write_array_frame html replay) (write_text html replay) array_is_ended
        (λ g. text_array g) (λ g. text_array_written g) ts f (array_done vs) []
        (array_throws html replay, array_waits, λ c t. refl) k refl h)

  feed-text_object :
      (f : ObjectFrame N F) (ts : List (Token F)) (ms : Members F)
      → object_is_ended f ≡ false
      → feed_object html replay f ts ≡ written (object_done ms)
      → feed (write_text html replay) (text_object f) ts ≡ written (text_done (object_value ms))
  unfolding write_text text_object_written feed
  feed-text_object f ts ms k h = rw (sym (append-nil ts)) (
      feed-pending (write_object_frame html replay) (write_text html replay) object_is_ended
        (λ g. text_object g) (λ g. text_object_written g) ts f (object_done ms) []
        (object_throws html replay, object_waits, λ c t. refl) k refl h)

  pub root_fed :
      (v : Value F) (read : F → F) (domain : N)
      → is_complex v ≡ true
      → HasDistinctNames v
      → feed (write_text html replay) (expecting_root domain) (tokens read v)
        ≡ written (text_done (with_numbers read v))
  unfolding feed write_text write_root tokens with_numbers HasDistinctNames
  root_fed null_value read domain h k = cc
  root_fed (bool_value b) read domain h k = cc
  root_fed (number_value x) read domain h k = cc
  root_fed (string_value s) read domain h k = cc
  root_fed (array_value no_values) read domain h k =
      feed-text_array (expecting_first_element (new_array domain)) (element_tokens read no_values)
        no_values refl (elements_fed html replay read no_values domain k)
  root_fed (array_value (value_cons v vs)) read domain h k =
      feed-text_array (expecting_first_element (new_array domain))
        (element_tokens read (value_cons v vs)) _ refl
        (elements_fed html replay read (value_cons v vs) domain k)
  root_fed (object_value no_members) read domain h k =
      feed-text_object (expecting_first_name (new_object domain)) (member_tokens read no_members)
        no_members refl (members_fed html replay read no_members domain k)
  root_fed (object_value (member_cons n v ms)) read domain h k =
      feed-text_object (expecting_first_name (new_object domain))
        (member_tokens read (member_cons n v ms)) _ refl
        (members_fed html replay read (member_cons n v ms) domain k)
