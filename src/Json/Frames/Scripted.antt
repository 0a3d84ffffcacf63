-- ===== src/Json/Frames/Scripted.antt =====
-- script_execution_state of ArrayFrame (Json.ArrayFrame.cpp): one element for each node that the
-- script finds.
use webel.Prelude.{
  Bool-cases, List, Option, [], append-nil, append_assoc, arith, false, inl, inr, length, none,
  refl, some, suc, sym, true, zero, ℕ, ◌++◌, ◌+◌, ◌<◌, ◌∙◌, ◌∷◌, ◌≡◌, ◌≤◌,
}
use webel.Json.Tokens.{Token}
use webel.Json.Values.{Value, Values}
use webel.Json.Script.{Scripting, Script, execute_node}
use webel.Json.Frames.{
  written, script_done, ArrayFields, script_in, ValueFrame, value_start, value_script, value_array,
  value_object, value_done, value_failed, script_execution, expecting_value_separator,
  value_is_ended,
}
use webel.Json.Frames.Containers.{push_back}
use webel.Json.Frames.Write.{
  element_executed, observe, find_next_script_element, array_script_written, Replay,
  execution_written, write_value_frame, write_array_frame,
}
use webel.Json.Frames.Feeding.{>>-written, feed, feed-written, Run-cases, feed-ended}
use webel.Json.Frames.Passing.{value_throws, feed_value, feed_array}
use webel.Json.Frames.Replay.{replay_element, replay}

-- The fields behind the tokens of an element.
module _ {N F : Type 0} where
  unfoldable observe_all : ArrayFields N F → List (Token F) → ArrayFields N F
  observe_all a [] = a
  observe_all a (t ∷ ts) = observe_all (observe a t) ts

  observe_all-none :
      (a : ArrayFields N F) (ts : List (Token F))
      → observe_all (record a { scripted_tokens = none }) ts ≡ record a { scripted_tokens = none }
  unfolding observe_all observe
  observe_all-none a [] = refl
  observe_all-none a (t ∷ ts) = observe_all-none a ts

  observe_all-some :
      (a : ArrayFields N F) (ts us : List (Token F))
      → observe_all (record a { scripted_tokens = some us }) ts
        ≡ record a { scripted_tokens = some (us ++ ts) }
  unfolding observe_all observe
  observe_all-some a [] us = rw (append-nil us) refl
  observe_all-some a (t ∷ ts) us =
      observe_all-some a ts (us ++ t ∷ []) ∙ rw (append_assoc us (t ∷ []) ts) refl

module _ {N F : Type 0} (html : Scripting N F) (loop : Replay html) where
  execution_waits :
      (a : ArrayFields N F) (f : ValueFrame N F)
      → value_is_ended f ≡ false
      → execution_written html loop a f ≡ written (script_execution a f)
  unfolding execution_written
  execution_waits a (value_done v) h = cc
  execution_waits a (value_failed e) h = cc
  execution_waits a (value_start d) h = refl
  execution_waits a (value_script d f) h = refl
  execution_waits a (value_array f) h = refl
  execution_waits a (value_object f) h = refl

  feed-script_execution :
      (ts : List (Token F)) (a : ArrayFields N F) (f : ValueFrame N F) (v : Value F)
      → value_is_ended f ≡ false
      → feed_value html loop f ts ≡ written (value_done v)
      → feed_array html loop (script_execution a f) ts
        ≡ execution_written html loop (observe_all a ts) (value_done v)
  unfolding feed write_value_frame observe_all
  feed-script_execution [] a f v h e = cc
  feed-script_execution (t ∷ ts) a f v h e = elim (Run-cases (write_value_frame html loop f t)) [
    | inl g ↦ cc
    | inr (inl g) ↦ cc
    | inr (inr (f', g)) ↦
        let e' = sym (feed-written (write_value_frame html loop) f f' t ts g) ∙ e in
        elim (Bool-cases (value_is_ended f')) [
          | inl k ↦
              let (nil, same) =
                feed-ended (write_value_frame html loop) value_is_ended ts f' (value_done v)
                  (value_throws html loop) k e' in
              rw (g, nil, same) (>>-written _)
          | inr k ↦
              rw (g, execution_waits (observe a t) f' k)
                (feed-script_execution ts (observe a t) f' v k e')
        ]
  ]

-- The nodes that a script finds one behind the other, in the order in which it finds them.
module _ {N F : Type 0} (html : Scripting N F) where
  unfoldable pub Finds : Script F → N → Option N → List N → Type 0
  Finds script domain after [] = execute_node html script domain after ≡ none
  Finds script domain after (n ∷ ns) =
      (execute_node html script domain after ≡ some n) × Finds script domain (some n) ns

  finds_none :
      (a : ArrayFields N F)
      → execute_node html a.script a.domain a.start_from ≡ none
      → find_next_script_element html a
        ≡ (false, record a { start_from = none; element_domain = a.domain })
  unfolding find_next_script_element
  finds_none a h = rw (h, find_next_script_element) refl

  finds_node :
      (a : ArrayFields N F) (n : N)
      → execute_node html a.script a.domain a.start_from ≡ some n
      → find_next_script_element html a
        ≡ (true, record a { start_from = some n; element_domain = n })
  unfolding find_next_script_element
  finds_node a n h = rw (h, find_next_script_element) refl

module _ {N F : Type 0} (html : Scripting N F) (ts : List (Token F)) (value : N → Value F)
    (enough : ℕ)
    (reads : (n : N) (fuel : ℕ)
      → enough ≤ fuel
      → feed (write_value_frame html (replay html fuel)) (value_start n) ts
        ≡ written (value_done (value n))) where
  -- One element for each node.
  unfoldable pub push_values : Values F → List N → Values F
  push_values vs [] = vs
  push_values vs (n ∷ ns) = push_values (push_back vs (value n)) ns

  -- The fields behind the elements.
  abbrev pub filled : ArrayFields N F → List N → ArrayFields N F
  filled a ns = record a {
    start_from = none;
    element_domain = a.domain;
    elements = push_values a.elements ns;
  }

  replay_fed :
      (ns : List N) (a : ArrayFields N F) (v : Value F) (fuel : ℕ)
      → enough + length ns < fuel
      → Finds html a.script a.domain a.start_from ns
      → replay html fuel a v ts ≡ written (some (filled a ns))
  unfolding replay replay_element Finds push_values
  replay_fed ns a v zero h k = absurd (omega (arith, h))
  replay_fed [] a v (suc fuel) h k = rw (finds_none html a k) refl
  replay_fed (n ∷ ns) a v (suc fuel) h (found, k) = rw (finds_node html a n found) (
      rw (reads n fuel (omega (arith, h)), replay_element)
        (replay_fed ns
          (record a {
            start_from = some n;
            element_domain = n;
            elements = push_back a.elements (value n);
          })
          (value n) fuel (omega (arith, h)) k))

  -- Behind the script of an array's element, the array reads the tokens of the element and has then
  -- one element for each node that the script finds, in this order: the value that a ValueFrame makes
  -- of these tokens in the node. Where the script finds no node, the element is dropped. The loop
  -- ends: it needs no more fuel than the nodes and what such a ValueFrame needs.
  pub write_array_frame-scripted :
      (ns : List N) (a : ArrayFields N F) (d : N) (script : Script F) (fuel : ℕ)
      → enough + length ns < fuel
      → Finds html script a.domain a.start_from ns
      → feed
          (write_array_frame html (replay html fuel))
          (array_script_written html
            (record a { scripted_tokens = none })
            (script_in script_done d script))
          ts
        ≡ written (
            expecting_value_separator
              (filled (record a { script = script; scripted_tokens = none }) ns))
  unfolding Finds array_script_written push_values execution_written element_executed
  write_array_frame-scripted [] a d script fuel h k =
      let b : ArrayFields N F = record a {
        script = script;
        start_from = none;
        element_domain = a.domain;
        scripted_tokens = none;
      } in
      rw (finds_none html (record a { script = script; scripted_tokens = none }) k) (
        feed-script_execution html (replay html fuel) ts b (value_start a.domain) (value a.domain)
          refl (reads a.domain fuel (omega (arith, h)))
        ∙ rw (observe_all-none b ts) refl)
  write_array_frame-scripted (n ∷ ns) a d script fuel h (found, k) =
      let b : ArrayFields N F = record a {
        script = script;
        start_from = some n;
        element_domain = n;
        scripted_tokens = some [];
      } in
      let c : ArrayFields N F = record b {
        elements = push_back a.elements (value n);
        scripted_tokens = none;
      } in
      rw (finds_node html (record a { script = script; scripted_tokens = none }) n found) (
        feed-script_execution html (replay html fuel) ts b (value_start n) (value n) refl
          (reads n fuel (omega (arith, h)))
        ∙ rw (observe_all-some b ts [])
            (rw (replay_fed ns c (value n) fuel (omega (arith, h)) k) refl))
