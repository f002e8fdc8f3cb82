-- ===== src/Query/Rows.antt =====
-- Rows that occur more than once: dedupeByID of app/query_handler.go, collectResults and
-- generateItemKey of queryengine/worker_pool.go, and dedupResults with the DedupSQLResults of
-- app/service.go. The hash of a row as JSON is the argument `hash_of`.
pub mod Unique
use optimusdb.Base.{
  Bool, true, false, not, Option, none, some, List, [], ◌∷◌, if◌then◌else◌, map, concat,
}
use optimusdb.Base.Text.{Str, codes, str_eq}
use optimusdb.Base.Dict.{Dict, put, read_or}
use optimusdb.Document.{Fields, index, as_str}
use optimusdb.Query.Local.{Result, ok, failed}

-- the order in which the goroutines that are started for these rows come to ask, and that in which
-- those that send have sent
pub record Schedule (A : Type 0) : Type 0 where
  pub asked : List A → List A
  pub sent : List A → List A

module _ {A : Type 0} (key_of : A → Option Str) where
  unfoldable pub is_new : Dict Bool → Option Str → Bool
  is_new seen none = true
  is_new seen (some key) = not (read_or seen key false)

  unfoldable pub note : Dict Bool → Option Str → Dict Bool
  note seen none = seen
  note seen (some key) = put seen key true

  -- The loop `if !seen[key] { seen[key] = true; out = append(out, r) }`, where a row without a key is
  -- always appended.
  unfoldable pub unique_from : Dict Bool → List A → List A
  unique_from seen [] = []
  unique_from seen (r ∷ rows) =
      let rest = unique_from (note seen (key_of r)) rows in
      if is_new seen (key_of r) then r ∷ rest else rest

  -- dedupResults and DedupSQLResults: a goroutine for each row asks `seen`, and those that are first
  -- send their row.
  unfoldable pub dedup_by : Schedule A → List A → List A
  dedup_by sched rows = sched.sent (unique_from [] (sched.asked rows))

-- `id, _ := r["_id"].(string)`, with no key for ""
unfoldable pub key_unless_empty : Option Str → Option Str
key_unless_empty none = none
key_unless_empty (some id) = if str_eq id [] then none else some id

module _ {F : Type 0} where
  unfoldable pub id_of : Fields F → Option Str
  id_of r = as_str (index r (codes "_id"))

  unfoldable pub id_key : Fields F → Option Str
  id_key r = key_unless_empty (id_of r)

  unfoldable pub dedupe_by_id : List (Fields F) → List (Fields F)
  dedupe_by_id rows = unique_from id_key [] rows

module _ {F : Type 0} (hash_of : Fields F → Str) where
  unfoldable pub or_hash : Fields F → Option Str → Str
  or_hash item none = hash_of item
  or_hash item (some id) = id

  unfoldable pub generate_item_key : Fields F → Str
  generate_item_key item = or_hash item (id_of item)

  unfoldable pub item_key : Fields F → Option Str
  item_key item = some (generate_item_key item)

  unfoldable pub rows_or_nothing : {Err : Type 0} → Result Err (List (Fields F)) → List (Fields F)
  rows_or_nothing (ok rows) = rows
  rows_or_nothing (failed e) = []

  unfoldable pub collect_results :
      {Err : Type 0} → List (Result Err (List (Fields F))) → List (Fields F)
  collect_results results = unique_from item_key [] (concat (map rows_or_nothing results))

  unfoldable pub dedup_results : Schedule (Fields F) → List (Fields F) → List (Fields F)
  dedup_results sched results = dedup_by item_key sched results

  unfoldable pub row_hash : Fields F → Option Str
  row_hash row = some (hash_of row)

  unfoldable pub dedup_sql_results : Schedule (Fields F) → List (Fields F) → List (Fields F)
  dedup_sql_results sched rows = dedup_by row_hash sched rows
