-- ===== src/Query/Match.antt =====
-- app/service.go: matchesCondition with its operators, matchesCriteriaEnhanced and criteriaFilter.
-- regexp.MatchString and strconv.ParseFloat are arguments, with `none` for their error. Where a type
-- assertion on the operand of $regex or $exists panics, the answer is `none`.
use optimusdb.Base.{
  Bool, true, false, not, ◌&&◌, ◌||◌, Option, none, some, List, [], ◌∷◌, if◌then◌else◌,
}
use optimusdb.Base.Text.{Str, codes, str_eq, contains}
use optimusdb.Base.Float.{Float64}
use optimusdb.Document.{
  Value, null, num, str, arr, obj, Items, nil, cons, Fields, end, field, as_str, as_bool,
  get_nested_value, deep_equal, bool_eq,
}

-- Tests that may panic, from left to right: the second is not met where the first decides.
unfoldable pub and_also : Option Bool → Option Bool → Option Bool
and_also none b = none
and_also (some true) b = b
and_also (some false) b = some false

unfoldable pub or_else : Option Bool → Option Bool → Option Bool
or_else none b = none
or_else (some true) b = some true
or_else (some false) b = b

-- what strings and float64 values need of Go's library
pub record Library (Float : Type 0) : Type 0 where
  pub match_string : Str → Str → Option Bool
  pub parse_float : Str → Option Float

unfoldable pub matched : Option Bool → Bool
matched none = false
matched (some b) = b

module _ (fl : Float64) (lib : Library fl.Float) where
  open fl use {Float, lt, le, lit}

  unfoldable pub parsed : Option Float → Float
  parsed none = lit 0 0
  parsed (some f) = f

  unfoldable pub to_float64 : Value Float → Float
  to_float64 (num f) = f
  to_float64 (str s) = parsed (lib.parse_float s)
  to_float64 _ = lit 0 0

  unfoldable pub in_items : Items Float → Value Float → Bool
  in_items nil item = false
  in_items (cons v items) item = deep_equal fl v item || in_items items item

  unfoldable pub array_contains : Value Float → Value Float → Bool
  array_contains (arr items) item = in_items items item
  array_contains (str s) (str t) = contains s t
  array_contains _ item = false

  unfoldable pub contains_each : Value Float → Items Float → Bool
  contains_each array nil = true
  contains_each array (cons v items) = array_contains array v && contains_each array items

  unfoldable pub array_contains_all : Value Float → Value Float → Bool
  array_contains_all array (arr items) = contains_each array items
  array_contains_all array _ = false

  unfoldable pub value_in_array : Value Float → Value Float → Bool
  value_in_array value array = array_contains array value

  unfoldable pub matches_regex : Value Float → Str → Bool
  matches_regex (str s) pattern = matched (lib.match_string pattern s)
  matches_regex _ pattern = false

  unfoldable pub regex_holds : Value Float → Option Str → Option Bool
  regex_holds value none = none
  regex_holds value (some pattern) = some (matches_regex value pattern)

  unfoldable pub is_nil : Value Float → Bool
  is_nil null = true
  is_nil _ = false

  unfoldable pub exists_holds : Value Float → Option Bool → Option Bool
  exists_holds value none = none
  exists_holds value (some wanted) = some (bool_eq (not (is_nil value)) wanted)

  -- one round of the loop over the operators
  unfoldable pub operator_holds : Value Float → Str → Value Float → Option Bool
  operator_holds value op operand =
      let v = to_float64 value in
      let t = to_float64 operand in
      if str_eq op (codes "$gte")
      then some (le t v)
      else if str_eq op (codes "$lte")
      then some (le v t)
      else if str_eq op (codes "$gt")
      then some (lt t v)
      else if str_eq op (codes "$lt")
      then some (lt v t)
      else if str_eq op (codes "$contains")
      then some (array_contains value operand)
      else if str_eq op (codes "$all")
      then some (array_contains_all value operand)
      else if str_eq op (codes "$in")
      then some (value_in_array value operand)
      else if str_eq op (codes "$regex")
      then regex_holds value (as_str operand)
      else if str_eq op (codes "$exists")
      then exists_holds value (as_bool operand)
      else if str_eq op (codes "$ne")
      then some (not (deep_equal fl value operand))
      else some true

  unfoldable pub operators_hold : Value Float → Fields Float → Option Bool
  operators_hold value end = some true
  operators_hold value (field op operand ops) =
      and_also (operator_holds value op operand) (operators_hold value ops)

  unfoldable pub matches_condition : Value Float → Value Float → Option Bool
  matches_condition value (obj ops) = operators_hold value ops
  matches_condition value condition = some (deep_equal fl value condition)

  unfoldable pub is_logical : Str → Bool
  is_logical path = str_eq path (codes "$and") || str_eq path (codes "$or")

  unfoldable mutual
    -- matchesCriteriaEnhanced
    pub matches_criteria : Fields Float → Fields Float → Option Bool
    matches_criteria doc end = some true
    matches_criteria doc (field path condition criteria) =
        and_also (matches_path doc path condition) (matches_criteria doc criteria)

    pub matches_path : Fields Float → Str → Value Float → Option Bool
    matches_path doc path (arr conditions) =
        let every = all_match doc conditions in
        let one = any_matches doc conditions in
        if str_eq path (codes "$and")
        then every
        else if str_eq path (codes "$or")
        then one
        else matches_condition (get_nested_value doc path) (arr conditions)
    matches_path doc path condition =
        if is_logical path
        then some false
        else matches_condition (get_nested_value doc path) condition

    pub all_match : Fields Float → Items Float → Option Bool
    all_match doc nil = some true
    all_match doc (cons c conditions) = and_also (item_matches doc c) (all_match doc conditions)

    pub any_matches : Fields Float → Items Float → Option Bool
    any_matches doc nil = some false
    any_matches doc (cons c conditions) = or_else (item_matches doc c) (any_matches doc conditions)

    pub item_matches : Fields Float → Value Float → Option Bool
    item_matches doc (obj criteria) = matches_criteria doc criteria
    item_matches doc _ = some false

  -- the inner loop of criteriaFilter
  unfoldable pub matches_filter : Fields Float → Fields Float → Option Bool
  matches_filter record' end = some true
  matches_filter record' (field key val filter) =
      and_also (matches_condition (get_nested_value record' key) val)
        (matches_filter record' filter)

  unfoldable pub criteria_filter : List (Fields Float) → Fields Float → Option Bool
  criteria_filter [] doc = some false
  criteria_filter (filter ∷ criteria) doc =
      or_else (matches_filter doc filter) (criteria_filter criteria doc)
