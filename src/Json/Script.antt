-- ===== src/Json/Script.antt =====
-- class Script (Json.Script.h, Json.Script.cpp), and the comparison of strings that it uses
-- (Basic.String.h). What it asks of the tree of an Html document is the record `Scripting`.
use webel.Prelude.{
  Bool, List, Option, [], false, if◌then◌else◌, none, some, true, ℕ, ◌&&◌, ◌==◌, ◌∷◌,
}
use webel.Basic.TextSanitizer.{before_first_word, write_elements}
use webel.Json.Values.{Value, number_value, string_value}

-- basic_string::equals and equals, case sensitive.
unfoldable pub same_text : List ℕ → List ℕ → Bool
same_text [] [] = true
same_text [] (d ∷ ds) = false
same_text (c ∷ cs) [] = false
same_text (c ∷ cs) (d ∷ ds) = c == d && same_text cs ds

-- With a null pointer on the left; the right one is never null.
unfoldable pub equals : Option (List ℕ) → List ℕ → Bool
equals none right = false
equals (some left) right = same_text left right

abbrev pub equals_method : List ℕ
equals_method = b'e' ∷ b'q' ∷ b'u' ∷ b'a' ∷ b'l' ∷ b's' ∷ []

abbrev pub starts_with_method : List ℕ
starts_with_method = b's' ∷ b't' ∷ b'a' ∷ b'r' ∷ b't' ∷ b's' ∷ b'_' ∷ b'w' ∷ b'i' ∷ b't' ∷ b'h' ∷ []

abbrev pub first_text_method : List ℕ
first_text_method = b'f' ∷ b'i' ∷ b'r' ∷ b's' ∷ b't' ∷ b'_' ∷ b't' ∷ b'e' ∷ b'x' ∷ b't' ∷ []

abbrev pub deep_text_method : List ℕ
deep_text_method = b'd' ∷ b'e' ∷ b'e' ∷ b'p' ∷ b'_' ∷ b't' ∷ b'e' ∷ b'x' ∷ b't' ∷ []

abbrev pub text_equals_method : List ℕ
text_equals_method = b't' ∷ b'e' ∷ b'x' ∷ b't' ∷ b'_' ∷ b'e' ∷ b'q' ∷ b'u' ∷ b'a' ∷ b'l' ∷ b's' ∷ []

abbrev pub children_count_equals_method : List ℕ
children_count_equals_method =
    b'c' ∷ b'h' ∷ b'i' ∷ b'l' ∷ b'd' ∷ b'r' ∷ b'e' ∷ b'n' ∷ b'_' ∷ b'c' ∷ b'o' ∷ b'u' ∷ b'n' ∷ b't'
    ∷ b'_' ∷ equals_method

-- The functions of Html::Node, over nodes `N`: the first argument is the node itself, then come
-- `after`, the local name of an element in the namespace of HTML, and what the function is named
-- for. The text functions give the code points that they write to their stream, and get_attribute
-- the value of an attribute that the element has. `to_uint32` is the cast of a long double.
pub record Scripting (N F : Type 0) : Type 0 where
  pub find_element : N → List ℕ → List ℕ → Option N
  pub find_element_with_child_count : N → Option N → List ℕ → ℕ → Option N
  pub find_element_with_attribute_prefix : N → Option N → List ℕ → List ℕ → List ℕ → Option N
  pub find_element_with_attribute_value : N → Option N → List ℕ → List ℕ → List ℕ → Option N
  pub find_element_with_text_value : N → Option N → List ℕ → List ℕ → Option N
  pub get_attribute : N → List ℕ → List ℕ
  pub extract_text : N → List ℕ
  pub first_text : N → List ℕ
  pub to_uint32 : F → ℕ

pub record Script (F : Type 0) : Type 0 where
  pub element_name : Option (List ℕ)
  pub attribute_name : Option (List ℕ)
  pub method_name : Option (List ℕ)
  pub parameter_value : Option (Value F)

abbrev pub new_script : {F : Type 0} → Script F
new_script = record {
  element_name = none;
  attribute_name = none;
  method_name = none;
  parameter_value = none;
}

-- What a stream of a TextSanitizer makes of a text.
abbrev pub sanitized : List ℕ → List ℕ
sanitized text = (write_elements before_first_word text).1

module _ {N F : Type 0} (html : Scripting N F) where
  -- The cases of a script that names an element, by its attribute and its parameter.
  unfoldable pub find :
      N → Option N → List ℕ → Option (List ℕ) → Option (List ℕ) → Option (Value F) → Option N
  find domain after name none method (some (number_value x)) =
      if equals method children_count_equals_method
      then html.find_element_with_child_count domain after name (html.to_uint32 x)
      else none
  find domain after name none method (some (string_value s)) =
      if equals method text_equals_method
      then html.find_element_with_text_value domain after name s
      else none
  find domain after name (some attribute) method (some (string_value s)) =
      if equals method starts_with_method
      then html.find_element_with_attribute_prefix domain after name attribute s
      else if equals method equals_method
      then html.find_element_with_attribute_value domain after name attribute s
      else none
  find domain after name attribute method parameter = none

  -- Script::Execute with a node as result.
  unfoldable pub execute_node : Script F → N → Option N → Option N
  execute_node script domain after = elim script.element_name [
    | none ↦ none
    | some name ↦
        find domain after name script.attribute_name script.method_name script.parameter_value
  ]

  abbrev pub deep_text : N → List ℕ
  deep_text domain = sanitized (html.extract_text domain)

  -- The text of the node that a script finds.
  abbrev pub found_text : Option N → Option (List ℕ)
  found_text none = none
  found_text (some node) = some (deep_text node)

  -- The two cases that do not ask for a node as above: an attribute's value, and the text of the
  -- domain. `none` where neither applies.
  unfoldable pub direct_text :
      N → Option (List ℕ) → Option (List ℕ) → Option (List ℕ) → Option (Value F) → Option (List ℕ)
  direct_text domain (some name) (some attribute) none parameter =
      elim (html.find_element domain name attribute) [
        | none ↦ none
        | some node ↦ some (html.get_attribute node attribute)
      ]
  direct_text domain none none (some method) none =
      if equals (some method) deep_text_method
      then some (deep_text domain)
      else if equals (some method) first_text_method
      then some (sanitized (html.first_text domain))
      else none
  direct_text domain name attribute method parameter = none

  -- Script::Execute with a text as result.
  unfoldable pub execute_text : Script F → N → Option (List ℕ)
  execute_text script domain =
      elim (direct_text domain script.element_name script.attribute_name script.method_name
        script.parameter_value) [
          | some text ↦ some text
          | none ↦ found_text (execute_node script domain none)
        ]
