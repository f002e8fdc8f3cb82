-- ===== src/Query/Local.antt =====
-- app/query_fastpath.go and app/service.go: the lookup by id, the conditions that an index answers,
-- and queryLocalDB over them. The store is an interface; `Indexed` says what is relied on of it.
pub mod Index
pub mod Scan
use mathlib.Core.List.{Permᴰ}
use optimusdb.Base.{
  Bool, true, false, ◌&&◌, ◌||◌, Option, none, some, List, [], ◌∷◌, if◌then◌else◌, ◌≡◌,
}
use optimusdb.Base.Text.{Str, codes, str_eq, contains}
use optimusdb.Base.Dict.{Dict, get}
use optimusdb.Base.Float.{Float64}
use optimusdb.Document.{Value, obj, Fields, end, field, find, as_str, as_obj, dot}
use optimusdb.Query.Match.{Library, criteria_filter}

pub data Result (Err A : Type 0) : Type 0 where
  ok : A → Result Err A
  failed : Err → Result Err A

-- The calls of a document store. A filter that panics ends the call, which is `none`. `query_indexed`
-- gives `none` where the store has no index for the conditions.
pub record DocumentReader (S Doc Err : Type 0) : Type 0 where
  pub get_docs : S → Str → Result Err (List Doc)
  pub query : S → (Doc → Option Bool) → Option (Result Err (List Doc))
  pub query_indexed : S → Dict Str → (Doc → Option Bool) → Option (Option (Result Err (List Doc)))

unfoldable pub keep_if : {Doc : Type 0} → Option Bool → Doc → Option (List Doc) → Option (List Doc)
keep_if none d rest = none
keep_if (some false) d rest = rest
keep_if (some true) d none = none
keep_if (some true) d (some rest) = some (d ∷ rest)

-- the documents that a filter takes, each document of the index met once
unfoldable pub select : {Doc : Type 0} → (Doc → Option Bool) → Dict Doc → Option (List Doc)
select f [] = some []
select f ((k, d) ∷ m) = keep_if (f d) d (select f m)

unfoldable pub listed : {Doc : Type 0} → Option Doc → List Doc
listed none = []
listed (some d) = d ∷ []

unfoldable pub note_equality : Str → Option Str → Dict Str → Dict Str
note_equality key none eq = eq
note_equality key (some s) eq =
    if str_eq key [] || contains key (dot ∷ []) then eq else (key, s) ∷ eq

module _ {F : Type 0} where
  unfoldable pub string_of : Option (Value F) → Option Str
  string_of none = none
  string_of (some v) = as_str v

  -- the test `len(filter) == 1`, with the string under "_id"
  unfoldable pub id_only_filter : Fields F → Option Str
  id_only_filter (field key v end) = string_of (find (field key v end) (codes "_id"))
  id_only_filter _ = none

  unfoldable pub id_only_criteria : List (Fields F) → Option Str
  id_only_criteria (filter ∷ []) = id_only_filter filter
  id_only_criteria _ = none

  -- The keys of a map differ, so each is added and none replaced.
  unfoldable pub equalities : Fields F → Dict Str
  equalities end = []
  equalities (field key v filter) = note_equality key (as_str v) (equalities filter)

  unfoldable pub indexable_equalities : List (Fields F) → Dict Str
  indexable_equalities (filter ∷ []) = equalities filter
  indexable_equalities _ = []

  unfoldable pub keep_map : Option (Fields F) → List (Fields F) → List (Fields F)
  keep_map none docs = docs
  keep_map (some m) docs = m ∷ docs

  unfoldable pub to_doc_maps : List (Value F) → List (Fields F)
  to_doc_maps [] = []
  to_doc_maps (v ∷ results) = keep_map (as_obj v) (to_doc_maps results)

  unfoldable pub maps_of :
      {Err : Type 0} → Result Err (List (Value F)) → Result Err (List (Fields F))
  maps_of (ok docs) = ok (to_doc_maps docs)
  maps_of (failed e) = failed e

  unfoldable pub maps_or_panic :
      {Err : Type 0} → Option (Result Err (List (Value F))) → Option (Result Err (List (Fields F)))
  maps_or_panic none = none
  maps_or_panic (some r) = some (maps_of r)

module _ (fl : Float64) (lib : Library fl.Float) where
  open fl use {Float}

  unfoldable pub doc_filter : List (Fields Float) → Value Float → Option Bool
  doc_filter criteria (obj doc) = criteria_filter fl lib criteria doc
  doc_filter criteria _ = some false

  module _ {S Err : Type 0} (store : DocumentReader S (Value Float) Err) where
    open store use {get_docs, query, query_indexed}

    -- `if !indexed { results, err = dbDocStore.Query(ctx, filter) }`
    unfoldable pub or_query :
        S
        → (Value Float → Option Bool)
        → Option (Option (Result Err (List (Value Float))))
        → Option (Result Err (List (Value Float)))
    or_query s f none = query s f
    or_query s f (some r) = r

    unfoldable pub query_by_filter :
        S → (Value Float → Option Bool) → Dict Str → Option (Result Err (List (Value Float)))
    query_by_filter s f [] = query s f
    query_by_filter s f (e ∷ eq) = or_query s f (query_indexed s (e ∷ eq) f)

    unfoldable pub query_by :
        S → List (Fields Float) → Option Str → Option (Result Err (List (Value Float)))
    query_by s criteria (some id) = some (get_docs s id)
    query_by s criteria none =
        query_by_filter s (doc_filter criteria) (indexable_equalities criteria)

    unfoldable pub query_local_db :
        S → List (Fields Float) → Option (Result Err (List (Fields Float)))
    query_local_db s criteria = maps_or_panic (query_by s criteria (id_only_criteria criteria))

module _ {F : Type 0} where
  unfoldable pub says : Option (Value F) → Str → Bool
  says none s = false
  says (some v) s = elim (as_str v) [ none ↦ false | some t ↦ str_eq t s ]

  unfoldable pub satisfies : Dict Str → Value F → Bool
  satisfies [] d = true
  satisfies ((key, s) ∷ eq) (obj m) = says (find m key) s && satisfies eq (obj m)
  satisfies ((key, s) ∷ eq) _ = false

-- What queryLocalDB relies on of the store, with the index of documents that its state holds: a lookup
-- gives the entry under a key without a space; a query meets every entry once, in an order of its own; and
-- a query with equalities, where it is answered from field indexes, gives what the query gives, in an order
-- of its own, if the filter implies the equalities.
pub record Indexed {F S Err : Type 0} (store : DocumentReader S (Value F) Err)
    (index_of : S → Dict (Value F)) : Type 0 where
  pub gets :
      (s : S) (id : Str)
      → contains id (codes " ") ≡ false
      → store.get_docs s id ≡ ok (listed (get (index_of s) id))
  pub queries :
      (s : S) (f : Value F → Option Bool) (docs : List (Value F))
      → select f (index_of s) ≡ some docs
      → (got : List (Value F)) × ((store.query s f ≡ some (ok got)) × Permᴰ docs got)
  pub narrows :
      (s : S) (eq : Dict Str) (f : Value F → Option Bool) (r : Option (Result Err (List (Value F))))
      (docs : List (Value F))
      → ((d : Value F) → f d ≡ some true → satisfies eq d ≡ true)
      → store.query_indexed s eq f ≡ some r
      → select f (index_of s) ≡ some docs
      → (got : List (Value F)) × ((r ≡ some (ok got)) × Permᴰ docs got)
