-- ===== src/Json/Frames/Replay.antt =====
-- The loop of script_execution_state of ArrayFrame (Json.ArrayFrame.cpp), on fuel: it bounds the
-- elements that a script finds and the depth of scripts in the tokens that are replayed.
use webel.Prelude.{Option, Bool, false, none, some, suc, true, zero, ℕ}
use webel.Json.Values.{Value, object_value, array_value, Values, no_values, Members, no_members}
use webel.Json.Script.{Scripting}
use webel.Json.Frames.{
  Run, Token, List, ArrayFields, written, throws, out_of_fuel, ValueFrame, value_start,
  value_script, value_array, value_object, value_done, value_failed, ArrayFrame,
  expecting_first_element, array_script, script_execution, element_pending,
  expecting_value_separator, expecting_next_element, array_done, array_failed, ObjectFrame,
  expecting_first_name, object_script, expecting_next_name, expecting_separator, member_pending,
  expecting_member_separator, object_done, object_failed,
}
use webel.Json.Frames.Containers.{push_back}
use webel.Json.Frames.Write.{find_next_script_element, Replay, write_value_frame}
use webel.Json.Frames.Feeding.{feed}

module _ {N F : Type 0} where
  -- What a frame has stored through its pointer so far.
  abbrev pub elements_so_far : ArrayFrame N F → Values F
  elements_so_far (expecting_first_element a) = a.elements
  elements_so_far (array_script a frame) = a.elements
  elements_so_far (script_execution a frame) = a.elements
  elements_so_far (element_pending a frame) = a.elements
  elements_so_far (expecting_value_separator a) = a.elements
  elements_so_far (expecting_next_element a) = a.elements
  elements_so_far (array_done vs) = vs
  elements_so_far (array_failed e) = no_values

  abbrev pub members_so_far : ObjectFrame N F → Members F
  members_so_far (expecting_first_name o) = o.members
  members_so_far (object_script to o frame) = o.members
  members_so_far (expecting_next_name o) = o.members
  members_so_far (expecting_separator o) = o.members
  members_so_far (member_pending o frame) = o.members
  members_so_far (expecting_member_separator o) = o.members
  members_so_far (object_done ms) = ms
  members_so_far (object_failed e) = no_members

  -- The element behind the replay: what it was before, `v`, if the frame has stored nothing.
  abbrev pub stored : Value F → ValueFrame N F → Value F
  stored v (value_start domain) = v
  stored v (value_script domain frame) = v
  stored v (value_array frame) = array_value (elements_so_far frame)
  stored v (value_object frame) = object_value (members_so_far frame)
  stored v (value_done w) = w
  stored v (value_failed e) = v

  abbrev pub has_failed : ValueFrame N F → Bool
  has_failed (value_failed e) = true
  has_failed frame = false

module _ {N F : Type 0} (html : Scripting N F) where
  -- One round behind FindNextScriptElement, and the rounds after it.
  unfoldable pub replay_element :
      Replay html
      → Bool × ArrayFields N F
      → Value F
      → List (Token F)
      → Run (Option (ArrayFields N F))
  replay_element again (false, a) v tokens = written (some a)
  replay_element again (true, a) v tokens =
      elim (feed (write_value_frame html again) (value_start a.element_domain) tokens) [
        | throws ↦ throws
        | out_of_fuel ↦ out_of_fuel
        | written frame ↦ elim (has_failed frame) [
          | true ↦ written none
          | false ↦
              let w = stored v frame in
              again (record a { elements = push_back a.elements w }) w tokens
        ]
      ]

  unfoldable pub replay : ℕ → Replay html
  replay zero a v tokens = out_of_fuel
  replay (suc fuel) a v tokens =
      replay_element (replay fuel) (find_next_script_element html a) v tokens
