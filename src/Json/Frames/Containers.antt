-- ===== src/Json/Frames/Containers.antt =====
-- What the frames do with the containers: push_back on ValueList, and insert on MemberList
-- (Json.Types.h), an unordered_map whose keys are compared by their text (Basic.String.h). An
-- inserted member stands last here; the map's own order is not modelled.
use webel.Prelude.{Bool, List, [], false, if◌then◌else◌, ℕ, ◌||◌, ◌∷◌}
use webel.Json.Values.{Value, Values, no_values, value_cons, Members, no_members, member_cons}
use webel.Json.Script.{same_text}

-- Whether a name is among some names.
unfoldable pub is_among : List ℕ → List (List ℕ) → Bool
is_among n [] = false
is_among n (m ∷ ms) = same_text n m || is_among n ms

module _ {F : Type 0} where
  unfoldable pub push_back : Values F → Value F → Values F
  push_back no_values w = value_cons w no_values
  push_back (value_cons v vs) w = value_cons v (push_back vs w)

  unfoldable pub names : Members F → List (List ℕ)
  names no_members = []
  names (member_cons n v ms) = n ∷ names ms

  unfoldable pub add_last : Members F → List ℕ → Value F → Members F
  add_last no_members n w = member_cons n w no_members
  add_last (member_cons m v ms) n w = member_cons m v (add_last ms n w)

  -- MemberList::insert: a name that is there keeps its value.
  unfoldable pub insert : Members F → List ℕ → Value F → Members F
  insert ms n w = if is_among n (names ms) then ms else add_last ms n w
