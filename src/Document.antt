-- ===== src/Document.antt =====
-- JSON values as encoding/json gives them in an interface{}, and what the program does with them:
-- reflect.DeepEqual, the indexing and the assignment of a map, and getNestedValue of app/service.go.
-- A map is the list of its fields in the order in which a loop meets them. A missing key and JSON's
-- null are both nil, which is `null`. Numbers are float64, as the decoder makes them.
pub mod Laws
use optimusdb.Base.{
  ℕ, ◌+◌, Bool, true, false, not, ◌&&◌, ◌||◌, Option, none, some, List, [], ◌∷◌, if◌then◌else◌,
  ◌==◌,
}
use optimusdb.Base.Text.{Str, str_eq, split}
use optimusdb.Base.Float.{Float64}

mutual
  pub data Value (F : Type 0) : Type 0 where
    null : Value F
    bool : Bool → Value F
    num : F → Value F
    str : Str → Value F
    arr : Items F → Value F
    obj : Fields F → Value F

  pub data Items (F : Type 0) : Type 0 where
    nil : Items F
    cons : Value F → Items F → Items F

  pub data Fields (F : Type 0) : Type 0 where
    end : Fields F
    field : Str → Value F → Fields F → Fields F

module _ {F : Type 0} where
  -- `v, ok := m[key]`
  unfoldable pub find : Fields F → Str → Option (Value F)
  find end key = none
  find (field k v m) key = if str_eq k key then some v else find m key

  unfoldable pub value_or_nil : Option (Value F) → Value F
  value_or_nil none = null
  value_or_nil (some v) = v

  -- `m[key]`
  unfoldable pub index : Fields F → Str → Value F
  index m key = value_or_nil (find m key)

  unfoldable pub has : Fields F → Str → Bool
  has end key = false
  has (field k v m) key = str_eq k key || has m key

  -- `m[key] = v`
  unfoldable pub assign : Fields F → Str → Value F → Fields F
  assign end key v = field key v end
  assign (field k w m) key v =
      let rest = assign m key v in if str_eq k key then field k v m else field k w rest

  -- `delete(m, key)`
  unfoldable pub delete : Fields F → Str → Fields F
  delete end key = end
  delete (field k v m) key =
      let rest = delete m key in if str_eq k key then rest else field k v rest

  -- `for k, v := range updates { doc[k] = v }`
  unfoldable pub assign_all : Fields F → Fields F → Fields F
  assign_all doc end = doc
  assign_all doc (field k v updates) = assign_all (assign doc k v) updates

  unfoldable pub size : Fields F → ℕ
  size end = 0
  size (field k v m) = size m + 1

  -- the type assertion `v.(string)`
  unfoldable pub as_str : Value F → Option Str
  as_str (str s) = some s
  as_str _ = none

  unfoldable pub as_obj : Value F → Option (Fields F)
  as_obj (obj m) = some m
  as_obj _ = none

  unfoldable pub as_bool : Value F → Option Bool
  as_bool (bool b) = some b
  as_bool _ = none

-- the separator "." of a path
abbrev pub dot : ℕ
dot = 46

module _ {F : Type 0} where
  -- the loop of getNestedValue over the keys of the path, from the value it stands at
  unfoldable pub nested_from : Value F → List Str → Value F
  nested_from current [] = current
  nested_from (obj m) (key ∷ keys) = nested_from (index m key) keys
  nested_from _ (key ∷ keys) = null

  unfoldable pub get_nested_value : Fields F → Str → Value F
  get_nested_value doc path = nested_from (obj doc) (split dot path)

unfoldable pub bool_eq : Bool → Bool → Bool
bool_eq true b = b
bool_eq false b = not b

module _ (fl : Float64) where
  open fl use {Float, le}

  -- `==` of float64 values that are no NaN
  unfoldable pub float_eq : Float → Float → Bool
  float_eq a b = le a b && le b a

  unfoldable mutual
    pub deep_equal : Value Float → Value Float → Bool
    deep_equal null null = true
    deep_equal (bool a) (bool b) = bool_eq a b
    deep_equal (num a) (num b) = float_eq a b
    deep_equal (str a) (str b) = str_eq a b
    deep_equal (arr a) (arr b) = equal_items a b
    deep_equal (obj a) (obj b) = size a == size b && equal_fields a b
    deep_equal _ _ = false

    pub equal_items : Items Float → Items Float → Bool
    equal_items nil nil = true
    equal_items (cons v a) (cons w b) = deep_equal v w && equal_items a b
    equal_items _ _ = false

    pub equal_fields : Fields Float → Fields Float → Bool
    equal_fields end b = true
    equal_fields (field k v a) b = has b k && (deep_equal v (index b k) && equal_fields a b)
