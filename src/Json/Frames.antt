-- ===== src/Json/Frames.antt =====
-- The frames that make values of tokens: ValueFrame, ArrayFrame, ObjectFrame and ScriptFrame
-- (Json.ValueFrame.h, Json.ArrayFrame.h, Json.ObjectFrame.h, Json.ScriptFrame.h). A frame is a
-- constructor for its state with the fields that this state reads; a frame that another one owns
-- stands inside of it. The array or object that a frame fills stands in the frame as its elements
-- or members. A frame that has failed keeps only its state.
pub mod Containers
pub mod Write
pub mod Replay
pub mod Feeding
pub mod Passing
pub mod RoundTrip
pub mod Scripted
use webel.Prelude.{
  ==_self, ==→eq, All, All-append, Bool, Bool-cases, List, Option, Option-cases, Outcome,
  Outcome-cases, Returns, Returns-returns, [], ap, append-nil, append_assoc, arith, drop,
  drop-append, false, fatal, get_elem?, if◌then◌else◌, inl, inr, leb, leb→le, length, length-append,
  le→leb, ltb, ltb→lt, map, ne→==, none, not, refl, replicate, returns, set, some, subst, suc, sym,
  take, take-append, true, zero, ℕ, ◌%◌, ◌&&◌, ◌*◌, ◌++◌, ◌+◌, ◌-◌, ◌/◌, ◌<◌, ◌==◌, ◌>>=◌, ◌^◌,
  ◌||◌, ◌↔◌, ◌∎, ◌∙◌, ◌∷◌, ◌≡◌, ◌≡⟨◌⟩◌, ◌≢◌, ◌≤◌, ◌⊎◌,
}
use webel.Json.Tokens.{
  LongDouble, Token, begin_script_token, end_script_token, begin_parameter_token,
  end_parameter_token, token_separator_token, token_token, begin_array_token, begin_object_token,
  end_array_token, end_object_token, name_separator_token, value_separator_token, string_token,
  number_token, bool_token, null_token, Literal, json_false, json_null, json_true, spelling,
  literal_token, begin_script, end_script, begin_parameter, end_parameter, token_separator,
  begin_array, begin_object, end_array, end_object, name_separator, value_separator, quote,
  backslash, ws,
}
use webel.Json.Values.{
  Value, null_value, bool_value, object_value, array_value, number_value, string_value, Values,
  no_values, value_cons, Members, no_members, member_cons, escape_letter, escape, write_characters,
  write_value, is_complex, has_complex, has_complex_member, gap, last_gap, name_gap,
  write_to_stream, write_more, write_more_members,
}
use webel.Json.Script.{
  same_text, equals, equals_method, starts_with_method, first_text_method, deep_text_method,
  text_equals_method, children_count_equals_method, Scripting, Script, new_script, sanitized, find,
  execute_node, deep_text, found_text, direct_text, execute_text,
}

-- A call returns, throws a FatalError, or replays scripted tokens deeper than the fuel allows.
pub data Run (A : Type 0) : Type 0 where
  written : A → Run A
  throws : Run A
  out_of_fuel : Run A

infixl 5 ◌>>◌
abbrev pub ◌>>◌ : {A B : Type 0} → Run A → (A → Run B) → Run B
written a >> f = f a
throws >> f = throws
out_of_fuel >> f = out_of_fuel

-- The states of ScriptFrame but expecting_parameter_state, which reads its ValueFrame.
pub data ScriptState : Type 0 where
  expecting_element after_element expecting_attribute after_attribute expecting_method : ScriptState
  expecting_begin_parameter after_begin_parameter expecting_end_parameter : ScriptState
  expecting_end_script script_done parse_error : ScriptState

-- The states above Succeeded_State.
pub data ValueError : Type 0 where
  value_script_failed start_state_error array_frame_failed object_frame_failed : ValueError

pub data ArrayError : Type 0 where
  array_script_failed element_frame_failed expecting_value_separator_error : ArrayError

pub data ObjectError : Type 0 where
  object_script_failed expecting_first_name_error expecting_separator_error : ObjectError
  member_value_frame_failed expecting_member_separator_error expecting_next_name_error : ObjectError

-- The two states that `return_to` of ObjectFrame holds.
pub data ReturnTo : Type 0 where
  to_first_name to_next_name : ReturnTo

-- The fields of an ArrayFrame, with the elements of its array.
pub record ArrayFields (N F : Type 0) : Type 0 where
  pub domain : N
  pub element_domain : N
  pub start_from : Option N
  pub script : Script F
  pub scripted_tokens : Option (List (Token F))
  pub elements : Values F

-- The fields of an ObjectFrame, with the members of its object.
pub record ObjectFields (N F : Type 0) : Type 0 where
  pub domain : N
  pub element_domain : N
  pub member_name : List ℕ
  pub members : Members F

mutual
  pub data ScriptFrame (N F : Type 0) : Type 0 where
    script_in : ScriptState → N → Script F → ScriptFrame N F
    expecting_parameter : N → Script F → ValueFrame N F → ScriptFrame N F

  pub data ValueFrame (N F : Type 0) : Type 0 where
    value_start : N → ValueFrame N F
    value_script : N → ScriptFrame N F → ValueFrame N F
    value_array : ArrayFrame N F → ValueFrame N F
    value_object : ObjectFrame N F → ValueFrame N F
    value_done : Value F → ValueFrame N F
    value_failed : ValueError → ValueFrame N F

  pub data ArrayFrame (N F : Type 0) : Type 0 where
    expecting_first_element : ArrayFields N F → ArrayFrame N F
    array_script : ArrayFields N F → ScriptFrame N F → ArrayFrame N F
    script_execution : ArrayFields N F → ValueFrame N F → ArrayFrame N F
    element_pending : ArrayFields N F → ValueFrame N F → ArrayFrame N F
    expecting_value_separator : ArrayFields N F → ArrayFrame N F
    expecting_next_element : ArrayFields N F → ArrayFrame N F
    array_done : Values F → ArrayFrame N F
    array_failed : ArrayError → ArrayFrame N F

  pub data ObjectFrame (N F : Type 0) : Type 0 where
    expecting_first_name : ObjectFields N F → ObjectFrame N F
    object_script : ReturnTo → ObjectFields N F → ScriptFrame N F → ObjectFrame N F
    expecting_next_name : ObjectFields N F → ObjectFrame N F
    expecting_separator : ObjectFields N F → ObjectFrame N F
    member_pending : ObjectFields N F → ValueFrame N F → ObjectFrame N F
    expecting_member_separator : ObjectFields N F → ObjectFrame N F
    object_done : Members F → ObjectFrame N F
    object_failed : ObjectError → ObjectFrame N F

module _ {N F : Type 0} where
  -- The constructors of the frames.
  abbrev pub new_script_frame : N → ScriptFrame N F
  new_script_frame domain = script_in expecting_element domain new_script

  abbrev pub new_array : N → ArrayFields N F
  new_array domain = record {
    domain = domain;
    element_domain = domain;
    start_from = none;
    script = new_script;
    scripted_tokens = none;
    elements = no_values;
  }

  abbrev pub new_object : N → ObjectFields N F
  new_object domain = record {
    domain = domain;
    element_domain = domain;
    member_name = [];
    members = no_members;
  }

  -- in_progress of each frame, negated.
  abbrev pub value_is_ended : ValueFrame N F → Bool
  value_is_ended (value_done v) = true
  value_is_ended (value_failed e) = true
  value_is_ended frame = false

  abbrev pub array_is_ended : ArrayFrame N F → Bool
  array_is_ended (array_done vs) = true
  array_is_ended (array_failed e) = true
  array_is_ended frame = false

  abbrev pub object_is_ended : ObjectFrame N F → Bool
  object_is_ended (object_done ms) = true
  object_is_ended (object_failed e) = true
  object_is_ended frame = false
