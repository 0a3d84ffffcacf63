-- ===== src/Json/Text/Runs.antt =====
-- Runs of the frames of JSON and the theorems at them: nodes are numbers, of which a script finds 1,
-- then 2, and then no more.
use webel.Prelude.{
  List, Option, [], arith, if◌then◌else◌, none, refl, some, ℕ, ◌++◌, ◌+◌, ◌==◌, ◌∷◌, ◌≡◌, ◌≤◌,
}
use webel.Json.Tokens.{
  Token, begin_script_token, end_script_token, begin_parameter_token, end_parameter_token,
  token_separator_token, token_token, begin_array_token, end_array_token, string_token,
}
use webel.Json.Values.{Value, array_value, string_value, no_values, value_cons, write_to_stream}
use webel.Json.Frames.Passing.{feed_value}
use webel.Json.Documents.{tokens}
use webel.Json.Tokenizer.State.{start_state, Tokenizer}
use webel.Json.Tokenizer.Numerals.{numeral_value}
use webel.Json.Script.{
  same_text, equals, deep_text_method, text_equals_method, Scripting, Script, find, execute_node,
  deep_text, direct_text, execute_text,
}
use webel.Json.Frames.{
  written, script_done, script_in, value_start, value_done, expecting_value_separator, new_array,
}
use webel.Json.Frames.Containers.{is_among, push_back}
use webel.Json.Frames.Write.{
  write_value_start, parameter_written, write_script, write_element_start, write_first_element,
  write_value_separator, observe, array_written, value_script_written, find_next_script_element,
  array_script_written, element_executed, execution_written, write_value_frame, write_array_frame,
}
use webel.Json.Frames.Feeding.{feed}
use webel.Json.Frames.Replay.{replay_element, replay}
use webel.Json.Frames.Scripted.{Finds, filled, write_array_frame-scripted}
use webel.Json.Frames.RoundTrip.{HasDistinctNames, with_numbers, write_value_frame-tokens}
use webel.Json.Text.{expecting_root, text_done}
use webel.Json.Text.Parsing.{parse, parse-write_to_stream}
use webel.Json.Runs.{natural, begun, one_digit, print_digit, document}

abbrev next_node : Option ℕ → Option ℕ
next_node none = some 1
next_node (some n) = if n == 1 then some 2 else none

abbrev page : Scripting ℕ ℕ
page = record {
  find_element = λ n name attribute. some 3;
  find_element_with_child_count = λ n after name count. next_node after;
  find_element_with_attribute_prefix = λ n after name attribute value. next_node after;
  find_element_with_attribute_value = λ n after name attribute value. next_node after;
  find_element_with_text_value = λ n after name value. next_node after;
  get_attribute = λ n name. n ∷ [];
  extract_text = λ n. (b'0' + n) ∷ [];
  first_text = λ n. (b'0' + n) ∷ [];
  to_uint32 = λ n. n;
}

-- <a.text_equals("b")> and <deep_text()>.
abbrev find_script : List (Token ℕ)
find_script =
    begin_script_token
    ∷ token_token (b'a' ∷ [])
    ∷ token_separator_token
    ∷ token_token text_equals_method
    ∷ begin_parameter_token
    ∷ string_token (b'b' ∷ [])
    ∷ end_parameter_token
    ∷ end_script_token
    ∷ []

abbrev text_script_tokens : List (Token ℕ)
text_script_tokens =
    begin_script_token
    ∷ token_token deep_text_method
    ∷ begin_parameter_token
    ∷ end_parameter_token
    ∷ end_script_token
    ∷ []

abbrev found_script : Script ℕ
found_script = record {
  element_name = some (b'a' ∷ []);
  attribute_name = none;
  method_name = some text_equals_method;
  parameter_value = some (string_value (b'b' ∷ []));
}

abbrev node_text : ℕ → Value ℕ
node_text n = string_value (deep_text page n)

node_text_read :
    (n : ℕ) (fuel : ℕ)
    → 0 ≤ fuel
    → feed (write_value_frame page (replay page fuel)) (value_start n) text_script_tokens
      ≡ written (value_done (node_text n))
unfolding feed write_value_frame write_value_start write_script parameter_written
    value_script_written execute_text direct_text equals same_text
node_text_read n fuel h = refl

write_array_frame-scripted_example :
    feed
      (write_array_frame page (replay page 3))
      (array_script_written page
        (record (new_array 0) { scripted_tokens = none })
        (script_in script_done 0 found_script))
      text_script_tokens
    ≡ written (
        expecting_value_separator (
          filled page text_script_tokens node_text 0 node_text_read
            (record (new_array 0) { script = found_script; scripted_tokens = none })
            (1 ∷ 2 ∷ [])))
unfolding Finds execute_node find equals same_text
write_array_frame-scripted_example =
    write_array_frame-scripted page text_script_tokens node_text 0 node_text_read (1 ∷ 2 ∷ [])
      (new_array 0) 0 found_script 3 (omega arith) (refl, (refl, refl))

-- The array of this script, read from its first token on.
scripted_array :
    feed
      (write_value_frame page (replay page 3))
      (value_start 0)
      (begin_array_token ∷ (find_script ++ (text_script_tokens ++ end_array_token ∷ [])))
    ≡ written
        (value_done (array_value (value_cons (node_text 1) (value_cons (node_text 2) no_values))))
unfolding feed write_value_frame write_value_start write_script parameter_written
    value_script_written execute_text direct_text equals same_text execute_node find replay
    replay_element find_next_script_element array_script_written execution_written element_executed
    observe write_first_element write_element_start write_value_separator array_written push_back
scripted_array = refl

write_value_frame-tokens_example :
    feed_value page (replay page 0) (value_start 0) (tokens (λ x. 7) document)
    ≡ written (value_done (with_numbers (λ x. 7) document))
unfolding HasDistinctNames is_among same_text
write_value_frame-tokens_example =
    write_value_frame-tokens page (replay page 0) (λ x. 7) document 0
      (refl, (tt, (tt, tt)), (refl, tt, tt))

parse-write_to_stream_example :
    (t' : Tokenizer ℕ) × (parse natural page
        (replay page 0)
        (record begun { state = start_state })
        (expecting_root 0)
        (write_to_stream print_digit document ++ 0x20 ∷ [])
      ≡ written (t', text_done (with_numbers (λ x. numeral_value natural (one_digit x)) document)))
unfolding HasDistinctNames is_among same_text
parse-write_to_stream_example =
    parse-write_to_stream natural page (replay page 0) print_digit one_digit (λ x. refl)
      (λ x. ((omega arith, tt), omega arith)) document begun 0 refl
      (refl, (tt, (tt, tt)), (refl, tt, tt))
