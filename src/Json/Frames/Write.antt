-- ===== src/Json/Frames/Write.antt =====
-- write_element of ValueFrame, ArrayFrame, ObjectFrame and ScriptFrame (Json.ValueFrame.cpp,
-- Json.ArrayFrame.cpp, Json.ObjectFrame.cpp, Json.ScriptFrame.cpp). The loop in which an
-- ArrayFrame replays the tokens of a scripted element is the parameter `replay`.
use webel.Prelude.{Bool, List, Option, [], false, none, some, true, ℕ, ◌++◌, ◌∷◌}
use webel.Json.Tokens.{
  Token, begin_script_token, end_script_token, begin_parameter_token, end_parameter_token,
  token_separator_token, token_token, begin_array_token, begin_object_token, end_array_token,
  end_object_token, name_separator_token, value_separator_token, string_token, number_token,
  bool_token, null_token,
}
use webel.Json.Values.{
  Value, null_value, bool_value, object_value, array_value, number_value, string_value,
}
use webel.Json.Script.{Scripting, Script, new_script, execute_node, execute_text}
use webel.Json.Frames.{
  Run, written, throws, ◌>>◌, ScriptState, expecting_element, after_element, expecting_attribute,
  after_attribute, expecting_method, expecting_begin_parameter, after_begin_parameter,
  expecting_end_parameter, expecting_end_script, script_done, parse_error, value_script_failed,
  start_state_error, array_frame_failed, object_frame_failed, array_script_failed,
  element_frame_failed, expecting_value_separator_error, object_script_failed,
  expecting_first_name_error, expecting_separator_error, member_value_frame_failed,
  expecting_member_separator_error, expecting_next_name_error, ReturnTo, to_first_name,
  to_next_name, ArrayFields, ObjectFields, ScriptFrame, script_in, expecting_parameter, ValueFrame,
  value_start, value_script, value_array, value_object, value_done, value_failed, ArrayFrame,
  expecting_first_element, array_script, script_execution, element_pending,
  expecting_value_separator, expecting_next_element, array_done, array_failed, ObjectFrame,
  expecting_first_name, object_script, expecting_next_name, expecting_separator, member_pending,
  expecting_member_separator, object_done, object_failed, new_script_frame, new_array, new_object,
}
use webel.Json.Frames.Containers.{push_back, insert}

module _ {N F : Type 0} where
  -- ValueFrame in start_state.
  unfoldable pub write_value_start : N → Token F → ValueFrame N F
  write_value_start domain begin_script_token = value_script domain (new_script_frame domain)
  write_value_start domain begin_array_token =
      value_array (expecting_first_element (new_array domain))
  write_value_start domain begin_object_token =
      value_object (expecting_first_name (new_object domain))
  write_value_start domain (number_token x) = value_done (number_value x)
  write_value_start domain (string_token s) = value_done (string_value s)
  write_value_start domain (bool_token b) = value_done (bool_value b)
  write_value_start domain null_token = value_done null_value
  write_value_start domain token = value_failed start_state_error

  -- ScriptFrame behind a token of its parameter.
  unfoldable pub parameter_written : N → Script F → ValueFrame N F → ScriptFrame N F
  parameter_written domain script (value_done v) =
      script_in expecting_end_parameter domain (record script { parameter_value = some v })
  parameter_written domain script (value_failed e) = script_in parse_error domain script
  parameter_written domain script frame = expecting_parameter domain script frame

  -- ScriptFrame in the states that look at the token only.
  unfoldable pub write_script : ScriptState → N → Script F → Token F → Run (ScriptFrame N F)
  write_script expecting_element domain script (token_token name) =
      written (script_in after_element domain (record script { element_name = some name }))
  write_script expecting_element domain script token_separator_token =
      written (script_in expecting_attribute domain script)
  write_script expecting_element domain script end_script_token =
      written (script_in script_done domain script)
  write_script after_element domain script token_separator_token =
      written (script_in expecting_attribute domain script)
  write_script after_element domain script end_script_token =
      written (script_in script_done domain script)
  write_script after_element domain script begin_parameter_token = written (
      script_in after_begin_parameter domain
        (record script { method_name = script.element_name; element_name = none }))
  write_script expecting_attribute domain script (token_token name) =
      written (script_in after_attribute domain (record script { attribute_name = some name }))
  write_script after_attribute domain script token_separator_token =
      written (script_in expecting_method domain script)
  write_script after_attribute domain script begin_parameter_token = written (
      script_in after_begin_parameter domain
        (record script { method_name = script.attribute_name; attribute_name = none }))
  write_script after_attribute domain script end_script_token =
      written (script_in script_done domain script)
  write_script expecting_method domain script (token_token name) =
      written
        (script_in expecting_begin_parameter domain (record script { method_name = some name }))
  write_script expecting_begin_parameter domain script begin_parameter_token =
      written (script_in after_begin_parameter domain script)
  write_script after_begin_parameter domain script end_parameter_token =
      written (script_in expecting_end_script domain script)
  write_script after_begin_parameter domain script token =
      written (parameter_written domain script (write_value_start domain token))
  write_script expecting_end_parameter domain script end_parameter_token =
      written (script_in expecting_end_script domain script)
  write_script expecting_end_script domain script end_script_token =
      written (script_in script_done domain script)
  write_script script_done domain script token = throws
  write_script parse_error domain script token = throws
  write_script state domain script token = written (script_in parse_error domain script)

  -- ArrayFrame behind a token of an element that no script repeats.
  unfoldable pub element_written : ArrayFields N F → ValueFrame N F → ArrayFrame N F
  element_written a (value_done v) =
      expecting_value_separator (record a { elements = push_back a.elements v })
  element_written a (value_failed e) = array_failed element_frame_failed
  element_written a frame = element_pending a frame

  -- ArrayFrame where an element or a script begins.
  unfoldable pub write_element_start : ArrayFields N F → Token F → ArrayFrame N F
  write_element_start a begin_script_token =
      array_script (record a { script = new_script }) (new_script_frame a.domain)
  write_element_start a token = element_written a (write_value_start a.element_domain token)

  unfoldable pub write_first_element : ArrayFields N F → Token F → ArrayFrame N F
  write_first_element a end_array_token = array_done a.elements
  write_first_element a token = write_element_start a token

  unfoldable pub write_value_separator : ArrayFields N F → Token F → ArrayFrame N F
  write_value_separator a end_array_token = array_done a.elements
  write_value_separator a value_separator_token = expecting_next_element a
  write_value_separator a token = array_failed expecting_value_separator_error

  -- ArrayFrame::write_element keeps the token where a script repeats the element.
  unfoldable pub observe : ArrayFields N F → Token F → ArrayFields N F
  observe a token = elim a.scripted_tokens [
    | none ↦ a
    | some tokens ↦ record a { scripted_tokens = some (tokens ++ token ∷ []) }
  ]

  -- ObjectFrame where a name, a script or the end is expected.
  unfoldable pub write_first_name : ObjectFields N F → Token F → ObjectFrame N F
  write_first_name o begin_script_token = object_script to_first_name o (new_script_frame o.domain)
  write_first_name o end_object_token = object_done o.members
  write_first_name o (string_token n) = expecting_separator (record o { member_name = n })
  write_first_name o token = object_failed expecting_first_name_error

  unfoldable pub write_next_name : ObjectFields N F → Token F → ObjectFrame N F
  write_next_name o begin_script_token = object_script to_next_name o (new_script_frame o.domain)
  write_next_name o (string_token n) = expecting_separator (record o { member_name = n })
  write_next_name o token = object_failed expecting_next_name_error

  unfoldable pub write_separator : ObjectFields N F → Token F → ObjectFrame N F
  write_separator o name_separator_token = member_pending o (value_start o.element_domain)
  write_separator o token = object_failed expecting_separator_error

  unfoldable pub write_member_separator : ObjectFields N F → Token F → ObjectFrame N F
  write_member_separator o end_object_token = object_done o.members
  write_member_separator o value_separator_token = expecting_next_name o
  write_member_separator o token = object_failed expecting_member_separator_error

  unfoldable pub member_written : ObjectFields N F → ValueFrame N F → ObjectFrame N F
  member_written o (value_done v) =
      expecting_member_separator (record o { members = insert o.members o.member_name v })
  member_written o (value_failed e) = object_failed member_value_frame_failed
  member_written o frame = member_pending o frame

  -- ValueFrame behind a token of its array or object.
  unfoldable pub array_written : ArrayFrame N F → ValueFrame N F
  array_written (array_done vs) = value_done (array_value vs)
  array_written (array_failed e) = value_failed array_frame_failed
  array_written frame = value_array frame

  unfoldable pub object_written : ObjectFrame N F → ValueFrame N F
  object_written (object_done ms) = value_done (object_value ms)
  object_written (object_failed e) = value_failed object_frame_failed
  object_written frame = value_object frame

module _ {N F : Type 0} (html : Scripting N F) where
  -- The value that Script::Execute gives.
  abbrev pub executed : Option (List ℕ) → Value F
  executed none = null_value
  executed (some text) = string_value text

  -- ValueFrame behind a token of its script.
  unfoldable pub value_script_written : N → ScriptFrame N F → ValueFrame N F
  value_script_written domain (script_in script_done d script) =
      value_done (executed (execute_text html script domain))
  value_script_written domain (script_in parse_error d script) = value_failed value_script_failed
  value_script_written domain frame = value_script domain frame

  -- ArrayFrame::FindNextScriptElement.
  unfoldable pub find_next_script_element : ArrayFields N F → Bool × ArrayFields N F
  find_next_script_element a = elim (execute_node html a.script a.domain a.start_from) [
    | none ↦ (false, record a { start_from = none; element_domain = a.domain })
    | some node ↦ (true, record a { start_from = some node; element_domain = node })
  ]

  -- The state behind the script: the tokens are kept if an element was found.
  abbrev pub begin_execution : Bool × ArrayFields N F → ArrayFrame N F
  begin_execution (true, a) =
      script_execution (record a { scripted_tokens = some [] }) (value_start a.element_domain)
  begin_execution (false, a) = script_execution a (value_start a.element_domain)

  -- ArrayFrame behind a token of its script.
  unfoldable pub array_script_written : ArrayFields N F → ScriptFrame N F → ArrayFrame N F
  array_script_written a (script_in script_done d script) =
      begin_execution (find_next_script_element (record a { script = script }))
  array_script_written a (script_in parse_error d script) = array_failed array_script_failed
  array_script_written a frame = array_script a frame

  -- ObjectFrame behind a token of its script.
  abbrev pub return_to : ReturnTo → ObjectFields N F → ObjectFrame N F
  return_to to_first_name o = expecting_first_name o
  return_to to_next_name o = expecting_next_name o

  abbrev pub domain_or : N → Option N → N
  domain_or domain none = domain
  domain_or domain (some node) = node

  unfoldable pub object_script_written :
      ReturnTo → ObjectFields N F → ScriptFrame N F → ObjectFrame N F
  object_script_written to o (script_in script_done d script) =
      return_to to
        (record o { element_domain = domain_or o.domain (execute_node html script o.domain none) })
  object_script_written to o (script_in parse_error d script) = object_failed object_script_failed
  object_script_written to o frame = object_script to o frame

  -- The loop of script_execution_state: the array's fields behind it, or `none` where the frame of
  -- an element has failed. It is given the value of the element and its tokens.
  abbrev pub Replay : Type 0
  Replay = ArrayFields N F → Value F → List (Token F) → Run (Option (ArrayFields N F))

  abbrev pub replayed : Option (ArrayFields N F) → ArrayFrame N F
  replayed none = array_failed element_frame_failed
  replayed (some a) = expecting_value_separator a

  module _ (replay : Replay) where
    -- ArrayFrame behind an element that a script may repeat. Where the script has found nothing, the
    -- element is dropped.
    unfoldable pub element_executed :
        ArrayFields N F → Option (List (Token F)) → Value F → Run (ArrayFrame N F)
    element_executed a none v = written (expecting_value_separator a)
    element_executed a (some tokens) v =
        replay (record a { elements = push_back a.elements v; scripted_tokens = none }) v tokens
        >> λ result. written (replayed result)

    unfoldable pub execution_written : ArrayFields N F → ValueFrame N F → Run (ArrayFrame N F)
    execution_written a (value_done v) = element_executed a a.scripted_tokens v
    execution_written a (value_failed e) = written (array_failed element_frame_failed)
    execution_written a frame = written (script_execution a frame)

    unfoldable mutual
      pub write_script_frame : ScriptFrame N F → Token F → Run (ScriptFrame N F)
      write_script_frame (script_in state domain script) token =
          write_script state domain script token
      write_script_frame (expecting_parameter domain script frame) token =
          write_value_frame frame token >> λ frame'.
          written (parameter_written domain script frame')

      pub write_value_frame : ValueFrame N F → Token F → Run (ValueFrame N F)
      write_value_frame (value_start domain) token = written (write_value_start domain token)
      write_value_frame (value_script domain frame) token =
          write_script_frame frame token >> λ frame'. written (value_script_written domain frame')
      write_value_frame (value_array frame) token =
          write_array_frame frame token >> λ frame'. written (array_written frame')
      write_value_frame (value_object frame) token =
          write_object_frame frame token >> λ frame'. written (object_written frame')
      write_value_frame (value_done v) token = throws
      write_value_frame (value_failed e) token = throws

      pub write_array_frame : ArrayFrame N F → Token F → Run (ArrayFrame N F)
      write_array_frame (expecting_first_element a) token =
          written (write_first_element (observe a token) token)
      write_array_frame (array_script a frame) token = write_script_frame frame token >> λ frame'.
          written (array_script_written (observe a token) frame')
      write_array_frame (script_execution a frame) token =
          write_value_frame frame token >> λ frame'. execution_written (observe a token) frame'
      write_array_frame (element_pending a frame) token = write_value_frame frame token >> λ frame'.
          written (element_written (observe a token) frame')
      write_array_frame (expecting_value_separator a) token =
          written (write_value_separator (observe a token) token)
      write_array_frame (expecting_next_element a) token =
          written (write_element_start (observe a token) token)
      write_array_frame (array_done vs) token = throws
      write_array_frame (array_failed e) token = throws

      pub write_object_frame : ObjectFrame N F → Token F → Run (ObjectFrame N F)
      write_object_frame (expecting_first_name o) token = written (write_first_name o token)
      write_object_frame (object_script to o frame) token =
          write_script_frame frame token >> λ frame'. written (object_script_written to o frame')
      write_object_frame (expecting_next_name o) token = written (write_next_name o token)
      write_object_frame (expecting_separator o) token = written (write_separator o token)
      write_object_frame (member_pending o frame) token =
          write_value_frame frame token >> λ frame'. written (member_written o frame')
      write_object_frame (expecting_member_separator o) token =
          written (write_member_separator o token)
      write_object_frame (object_done ms) token = throws
      write_object_frame (object_failed e) token = throws
