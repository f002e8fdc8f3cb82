-- ===== src/Query/Raw.antt =====
-- app/query_fastpath.go: queryLocalRaw with exactEqualities, and LocalDocRaw. The raw reads of the patched
-- document store are a record; a store may lack all of them, or the exact one. json.Valid is an argument.
pub mod Exact
use optimusdb.Base.{Bool, false, ◌&&◌, ◌||◌, Option, none, some, List, [], ◌∷◌, if◌then◌else◌, ◌==◌}
use optimusdb.Base.Text.{Str, codes, str_eq, contains}
use optimusdb.Base.Dict.{Dict}
use optimusdb.Base.Float.{Float64}
use optimusdb.Document.{Value, Fields, end, field, as_str, dot}
use optimusdb.Query.Match.{Library}
use optimusdb.Query.Local.{Result, ok, failed, doc_filter, indexable_equalities, id_only_criteria}

unfoldable pub add_exact : Str → Option Str → Option (Dict Str) → Option (Dict Str)
add_exact key none eq = none
add_exact key (some s) none = none
add_exact key (some s) (some eq) =
    if str_eq key [] || contains key (dot ∷ []) then none else some ((key, s) ∷ eq)

module _ {F : Type 0} where
  unfoldable pub all_equalities : Fields F → Option (Dict Str)
  all_equalities end = some []
  all_equalities (field key v filter) = add_exact key (as_str v) (all_equalities filter)

  unfoldable pub exact_equalities : List (Fields F) → Option (Dict Str)
  exact_equalities (field key v filter ∷ []) = all_equalities (field key v filter)
  exact_equalities _ = none

-- the answer of queryLocalRaw: not available here, the documents, or an error
pub data RawAnswer (Err : Type 0) : Type 0 where
  unavailable : RawAnswer Err
  raw : List Str → RawAnswer Err
  raw_failed : Err → RawAnswer Err

pub record RawReader (S Doc Err : Type 0) : Type 0 where
  pub get_raw : S → Str → Option Str
  pub query_raw_exact : Option (S → Dict Str → Option (List Str))
  pub query_raw : S → Dict Str → (Doc → Option Bool) → Option (Result Err (List Str))

-- bytes.TrimLeft(b, " \t\r\n")
unfoldable pub trim_left : Str → Str
trim_left [] = []
trim_left (c ∷ b) =
    let rest = trim_left b in if c == 32 || (c == 9 || (c == 13 || c == 10)) then rest else c ∷ b

unfoldable pub opens_object : Str → Bool
opens_object [] = false
opens_object (c ∷ b) = c == 123

module _ (fl : Float64) (lib : Library fl.Float) (valid : Str → Bool) {S Err : Type 0}
    (reader : RawReader S (Value fl.Float) Err) where
  open fl use {Float}
  open reader use {get_raw, query_raw_exact, query_raw}

  unfoldable pub raw_document : Option Str → RawAnswer Err
  raw_document none = raw []
  raw_document (some b) =
      if opens_object (trim_left b) && valid b then raw (b ∷ []) else unavailable

  unfoldable pub raw_by_id : S → Str → RawAnswer Err
  raw_by_id s id = if contains id (codes " ") then unavailable else raw_document (get_raw s id)

  unfoldable pub raw_result : Option (Result Err (List Str)) → Option (RawAnswer Err)
  raw_result none = none
  raw_result (some (ok docs)) = some (raw docs)
  raw_result (some (failed e)) = some (raw_failed e)

  unfoldable pub raw_by_filter : S → List (Fields Float) → Option (RawAnswer Err)
  raw_by_filter s criteria =
      raw_result (query_raw s (indexable_equalities criteria) (doc_filter fl lib criteria))

  -- what an exact answer of the index, where there is one, saves
  unfoldable pub or_filter : S → List (Fields Float) → Option (List Str) → Option (RawAnswer Err)
  or_filter s criteria none = raw_by_filter s criteria
  or_filter s criteria (some docs) = some (raw docs)

  unfoldable pub exactly :
      S → Option (S → Dict Str → Option (List Str)) → Option (Dict Str) → Option (List Str)
  exactly s (some f) (some eq) = f s eq
  exactly s _ _ = none

  unfoldable pub raw_by : S → List (Fields Float) → Option Str → Option (RawAnswer Err)
  raw_by s criteria (some id) = some (raw_by_id s id)
  raw_by s criteria none =
      or_filter s criteria (exactly s query_raw_exact (exact_equalities criteria))

  -- queryLocalRaw at a store with raw reads; a filter that panics gives `none`
  unfoldable pub query_local_raw : S → List (Fields Float) → Option (RawAnswer Err)
  query_local_raw s criteria = raw_by s criteria (id_only_criteria criteria)
