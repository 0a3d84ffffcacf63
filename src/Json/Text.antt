-- ===== src/Json/Text.antt =====
-- class Text (Json.Text.h, Json.Text.cpp): the frame of a whole JSON text, an array or an object.
pub mod Passing
pub mod Parsing
mod Runs
use webel.Prelude.{
  ==_self, ==→eq, All, All-append, Bool, Bool-cases, List, Option, Option-cases, Outcome,
  Outcome-cases, Returns, Returns-returns, [], ap, append-nil, append_assoc, arith, drop,
  drop-append, false, fatal, get_elem?, if◌then◌else◌, inl, inr, leb, leb→le, length, length-append,
  le→leb, ltb, ltb→lt, map, ne→==, none, not, refl, replicate, returns, set, some, subst, suc, sym,
  take, take-append, true, zero, ℕ, ◌%◌, ◌&&◌, ◌*◌, ◌++◌, ◌+◌, ◌-◌, ◌/◌, ◌<◌, ◌==◌, ◌>>=◌, ◌^◌,
  ◌||◌, ◌↔◌, ◌∎, ◌∙◌, ◌∷◌, ◌≡◌, ◌≡⟨◌⟩◌, ◌≢◌, ◌≤◌, ◌⊎◌,
}
use webel.Json.Tokens.{
  LongDouble, Token, begin_script_token, end_script_token, begin_parameter_token,
  end_parameter_token, token_separator_token, token_token, begin_array_token, begin_object_token,
  end_array_token, end_object_token, name_separator_token, value_separator_token, string_token,
  number_token, bool_token, null_token, Literal, json_false, json_null, json_true, spelling,
  literal_token, begin_script, end_script, begin_parameter, end_parameter, token_separator,
  begin_array, begin_object, end_array, end_object, name_separator, value_separator, quote,
  backslash, ws,
}
use webel.Json.Values.{
  Value, null_value, bool_value, object_value, array_value, number_value, string_value, Values,
  no_values, value_cons, Members, no_members, member_cons, escape_letter, escape, write_characters,
  write_value, is_complex, has_complex, has_complex_member, gap, last_gap, name_gap,
  write_to_stream, write_more, write_more_members,
}
use webel.Json.Script.{
  same_text, equals, equals_method, starts_with_method, first_text_method, deep_text_method,
  text_equals_method, children_count_equals_method, Scripting, Script, new_script, sanitized, find,
  execute_node, deep_text, found_text, direct_text, execute_text,
}
use webel.Json.Frames.{
  Run, written, throws, out_of_fuel, ◌>>◌, ScriptState, expecting_element, after_element,
  expecting_attribute, after_attribute, expecting_method, expecting_begin_parameter,
  after_begin_parameter, expecting_end_parameter, expecting_end_script, script_done, parse_error,
  ValueError, value_script_failed, start_state_error, array_frame_failed, object_frame_failed,
  ArrayError, array_script_failed, element_frame_failed, expecting_value_separator_error,
  ObjectError, object_script_failed, expecting_first_name_error, expecting_separator_error,
  member_value_frame_failed, expecting_member_separator_error, expecting_next_name_error, ReturnTo,
  to_first_name, to_next_name, ArrayFields, ObjectFields, ScriptFrame, script_in,
  expecting_parameter, ValueFrame, value_start, value_script, value_array, value_object, value_done,
  value_failed, ArrayFrame, expecting_first_element, array_script, script_execution,
  element_pending, expecting_value_separator, expecting_next_element, array_done, array_failed,
  ObjectFrame, expecting_first_name, object_script, expecting_next_name, expecting_separator,
  member_pending, expecting_member_separator, object_done, object_failed, new_script_frame,
  new_array, new_object, value_is_ended, array_is_ended, object_is_ended,
}
use webel.Json.Frames.Write.{
  write_value_start, parameter_written, write_script, element_written, write_element_start,
  write_first_element, write_value_separator, observe, write_first_name, write_next_name,
  write_separator, write_member_separator, member_written, array_written, object_written, executed,
  value_script_written, find_next_script_element, begin_execution, array_script_written, return_to,
  domain_or, object_script_written, Replay, replayed, execution_written, write_script_frame,
  write_value_frame, write_array_frame, write_object_frame,
}
use webel.Json.Frames.Feeding.{feed, feed-written, PassesOn, feed-pending}

pub data TextError : Type 0 where
  expecting_root_error text_script_failed text_array_failed text_object_failed : TextError

pub data Text (N F : Type 0) : Type 0 where
  expecting_root : N → Text N F
  text_script : N → ScriptFrame N F → Text N F
  text_array : ArrayFrame N F → Text N F
  text_object : ObjectFrame N F → Text N F
  text_done : Value F → Text N F
  text_failed : TextError → Text N F

module _ {N F : Type 0} where
  unfoldable pub write_root : N → Token F → Text N F
  write_root domain begin_script_token = text_script domain (new_script_frame domain)
  write_root domain begin_array_token = text_array (expecting_first_element (new_array domain))
  write_root domain begin_object_token = text_object (expecting_first_name (new_object domain))
  write_root domain token = text_failed expecting_root_error

  -- Text behind a token of its array or object.
  unfoldable pub text_array_written : ArrayFrame N F → Text N F
  text_array_written (array_done vs) = text_done (array_value vs)
  text_array_written (array_failed e) = text_failed text_array_failed
  text_array_written frame = text_array frame

  unfoldable pub text_object_written : ObjectFrame N F → Text N F
  text_object_written (object_done ms) = text_done (object_value ms)
  text_object_written (object_failed e) = text_failed text_object_failed
  text_object_written frame = text_object frame

module _ {N F : Type 0} (html : Scripting N F) where
  -- Text behind a token of its script, which may choose another domain.
  unfoldable pub text_script_written : N → ScriptFrame N F → Text N F
  text_script_written domain (script_in script_done d script) =
      expecting_root (domain_or html domain (execute_node html script domain none))
  text_script_written domain (script_in parse_error d script) = text_failed text_script_failed
  text_script_written domain frame = text_script domain frame

  module _ (replay : Replay html) where
    unfoldable pub write_text : Text N F → Token F → Run (Text N F)
    write_text (expecting_root domain) token = written (write_root domain token)
    write_text (text_script domain frame) token =
        write_script_frame html replay frame token >> λ frame'.
        written (text_script_written domain frame')
    write_text (text_array frame) token =
        write_array_frame html replay frame token >> λ frame'. written (text_array_written frame')
    write_text (text_object frame) token =
        write_object_frame html replay frame token >> λ frame'. written (text_object_written frame')
    write_text (text_done v) token = throws
    write_text (text_failed e) token = throws
