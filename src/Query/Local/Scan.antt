-- ===== src/Query/Local/Scan.antt =====
-- app/query_fastpath.go and app/service.go: what the lookup by id and the indexes of queryLocalDB give,
-- beside a scan of the whole store with criteriaFilter.
use mathlib.Core.List.{Permᴰ}
use mathlib.Core.List.Permᴰ
use optimusdb.Base.{
  Bool, true, false, ◌||◌, Option, none, some, List, [], ◌∷◌, ◌≡◌, inl, inr, refl, sym, ap, ◌∙◌,
  arith, Bool-cases, Option-cases,
}
use optimusdb.Base.Text.{Str, codes, str_eq, str_eq_iff, contains, has_prefix}
use optimusdb.Base.Dict.{Dict, Distinct}
use optimusdb.Base.Float.{Float64}
use optimusdb.Document.{
  Value, str, obj, Fields, end, field, find, index, value_or_nil, as_str, dot, as_obj,
  get_nested_value, deep_equal,
}
use optimusdb.Query.Match.{Library, criteria_filter, and_also, matches_filter, matches_condition}
use optimusdb.Query.Local.{
  ok, DocumentReader, select, string_of, id_only_filter, id_only_criteria, note_equality,
  equalities, indexable_equalities, keep_map, to_doc_maps, maps_of, maps_or_panic, doc_filter,
  or_query, query_by_filter, query_by, query_local_db, satisfies, Indexed,
}
use mathlib.Core.Option.{some-injective}
use optimusdb.Query.Local.Index.{
  KeyedBy, IsKeyed, index-says, nested-plain, select-id, and_also-true, or_else-false,
}

unfoldable pub IsPlain : {F : Type 0} → List (Fields F) → Type 0
IsPlain criteria =
    (id : Str) → id_only_criteria criteria ≡ some id → contains id (codes " ") ≡ false

and_also-both : (b : Bool) → and_also (some b) (some true) ≡ some b
unfolding and_also
and_also-both true = refl
and_also-both false = refl

module _ {F : Type 0} where
  keep_map-Perm :
      (o : Option (Fields F)) {xs ys : List (Fields F)}
      → Permᴰ xs ys
      → Permᴰ (keep_map o xs) (keep_map o ys)
  unfolding keep_map
  keep_map-Perm none p = p
  keep_map-Perm (some m) p = Permᴰ.cons refl p

  keep_map-swap :
      (a b : Option (Fields F)) (xs : List (Fields F))
      → Permᴰ (keep_map a (keep_map b xs)) (keep_map b (keep_map a xs))
  unfolding keep_map
  keep_map-swap none b xs = Permᴰ.refl _
  keep_map-swap (some m) none xs = Permᴰ.refl _
  keep_map-swap (some m) (some n) xs = Permᴰ.swap refl refl

  -- The order of the documents is that of their maps.
  to_doc_maps-Perm :
      {docs got : List (Value F)} → Permᴰ docs got → Permᴰ (to_doc_maps docs) (to_doc_maps got)
  unfolding to_doc_maps
  to_doc_maps-Perm Permᴰ.nil = Permᴰ.nil
  to_doc_maps-Perm (Permᴰ.cons {b = b} e p) = rw e (keep_map-Perm (as_obj b) (to_doc_maps-Perm p))
  to_doc_maps-Perm (Permᴰ.swap {a' = a'} {b' = b'} {l = l} e d) =
      rw (e, d) (keep_map-swap (as_obj _) (as_obj _) (to_doc_maps l))
  to_doc_maps-Perm (Permᴰ.trans p q) = Permᴰ.trans (to_doc_maps-Perm p) (to_doc_maps-Perm q)

module _ (fl : Float64) where
  open fl use {Float}

  deep_equal-str : (v : Value Float) (s : Str) → deep_equal fl v (str s) ≡ true → v ≡ str s
  unfolding deep_equal
  deep_equal-str (str t) s h = ap str ((str_eq_iff t s).0 h)
  deep_equal-str _ s h = ground arith

  deep_equal-strs : (s t : Str) → deep_equal fl (str s) (str t) ≡ str_eq s t
  unfolding deep_equal
  deep_equal-strs s t = refl

module _ (fl : Float64) (lib : Library fl.Float) where
  open fl use {Float}

  matches_condition-str :
      (v : Value Float) (s : Str)
      → matches_condition fl lib v (str s) ≡ some (deep_equal fl v (str s))
  unfolding matches_condition
  matches_condition-str v s = refl

  note-satisfies :
      (doc : Fields Float) (key : Str) (v : Value Float) (eq : Dict Str)
      → matches_condition fl lib (get_nested_value doc key) v ≡ some true
      → satisfies eq (obj doc) ≡ true
      → satisfies (note_equality key (as_str v) eq) (obj doc) ≡ true
  unfolding as_str note_equality satisfies
  note-satisfies doc key (str s) eq h rest =
      elim (Bool-cases (str_eq key [] || contains key (dot ∷ []))) [
        | inl passed ↦ rw passed rest
        | inr noted ↦
            let plain : contains key (dot ∷ []) ≡ false = ground (arith, noted) in
            let is : deep_equal fl (get_nested_value doc key) (str s) ≡ true =
              some-injective _ _ (sym (matches_condition-str _ s) ∙ h) in
            rw
              (
                noted,
                index-says doc key s (sym (nested-plain doc key plain) ∙ deep_equal-str fl _ s is),
              )
              rest
      ]
  note-satisfies doc key _ eq h rest = rest

  -- A document that a filter takes has the strings that the filter's equalities name.
  matches-satisfies :
      (doc filter : Fields Float)
      → matches_filter fl lib doc filter ≡ some true
      → satisfies (equalities filter) (obj doc) ≡ true
  unfolding matches_filter equalities satisfies
  matches-satisfies doc end h = refl
  matches-satisfies doc (field key v filter) h =
      let both = and_also-true _ _ h in
      note-satisfies doc key v (equalities filter) both.0 (matches-satisfies doc filter both.1)

  doc_filter-satisfies :
      (criteria : List (Fields Float)) (d : Value Float)
      → doc_filter fl lib criteria d ≡ some true
      → satisfies (indexable_equalities criteria) d ≡ true
  unfolding doc_filter criteria_filter indexable_equalities satisfies
  doc_filter-satisfies [] d h = refl
  doc_filter-satisfies (filter ∷ []) (obj doc) h =
      matches-satisfies doc filter (sym (or_else-false _) ∙ h)
  doc_filter-satisfies (filter ∷ []) _ h = ground arith
  doc_filter-satisfies (filter ∷ other ∷ criteria) d h = refl

  as_str-is : (v : Value Float) (s : Str) → as_str v ≡ some s → v ≡ str s
  unfolding as_str
  as_str-is (str t) s h = ap str (some-injective _ _ h)
  as_str-is _ s h = ground arith

  id_only-is :
      (filter : Fields Float) (id : Str)
      → id_only_filter filter ≡ some id
      → filter ≡ field (codes "_id") (str id) end
  unfolding id_only_filter string_of find as_str
  id_only-is end id h = ground arith
  id_only-is (field key v end) id h = elim (Bool-cases (str_eq key (codes "_id"))) [
    | inl same ↦ rw ((str_eq_iff key _).0 same, as_str-is v id (rw same at h)) refl
    | inr other ↦ let no_id : string_of {F = Float} none ≡ some id = rw other at h in ground arith
  ]
  id_only-is (field key v (field k w m)) id h = ground arith

  id_path :
      (m : Fields Float) (k : Str)
      → find m (codes "_id") ≡ some (str k)
      → get_nested_value m (codes "_id") ≡ str k
  unfolding index value_or_nil contains has_prefix
  id_path m k has_id = nested-plain m (codes "_id") refl ∙ rw has_id refl

  id_only-tests :
      (id k : Str) (d : Value Float)
      → KeyedBy k d
      → doc_filter fl lib (field (codes "_id") (str id) end ∷ []) d ≡ some (str_eq k id)
  unfolding doc_filter criteria_filter matches_filter
  id_only-tests id k _ (KeyedBy.keyed m has_id) =
      rw
        (
          id_path m k has_id,
          matches_condition-str (str k) id,
          deep_equal-strs fl k id,
          and_also-both (str_eq k id),
          or_else-false (some (str_eq k id)),
        )
        refl

  id_only_criteria-tests :
      (criteria : List (Fields Float)) (id : Str)
      → id_only_criteria criteria ≡ some id
      → (k : Str) (d : Value Float) → KeyedBy k d
      → doc_filter fl lib criteria d ≡ some (str_eq k id)
  unfolding id_only_criteria
  id_only_criteria-tests [] id h k d keyed' = ground arith
  id_only_criteria-tests (filter ∷ []) id h k d keyed' =
      rw (id_only-is filter id h) (id_only-tests id k d keyed')
  id_only_criteria-tests (filter ∷ other ∷ criteria) id h k d keyed' = ground arith

  module _ {S Err : Type 0} (store : DocumentReader S (Value Float) Err)
      (index_of : S → Dict (Value Float)) (laws : Indexed store index_of) where
    query_by_filter-scan :
        (s : S) (criteria : List (Fields Float)) (eq : Dict Str) (docs : List (Value Float))
        → ((d : Value Float) → doc_filter fl lib criteria d ≡ some true → satisfies eq d ≡ true)
        → select (doc_filter fl lib criteria) (index_of s) ≡ some docs
        → (got : List (Value Float)) × ((query_by_filter fl lib store s
                (doc_filter fl lib criteria)
                eq
              ≡ some (ok got))
            × Permᴰ docs got)
    unfolding query_by_filter or_query
    query_by_filter-scan s criteria [] docs only h = laws.queries s _ docs h
    query_by_filter-scan s criteria (e ∷ eq) docs only h =
        elim (Option-cases (store.query_indexed s (e ∷ eq) (doc_filter fl lib criteria))) [
          | inl unindexed ↦ rw unindexed (laws.queries s _ docs h)
          | inr (r, indexed) ↦ rw indexed (laws.narrows s (e ∷ eq) _ r docs only indexed h)
        ]

    query_by-scan :
        (s : S) (criteria : List (Fields Float)) (docs : List (Value Float))
        → IsKeyed (index_of s)
        → Distinct (index_of s)
        → IsPlain criteria
        → select (doc_filter fl lib criteria) (index_of s) ≡ some docs
        → (got : List (Value Float)) × ((query_by fl lib store s criteria
                (id_only_criteria criteria)
              ≡ some (ok got))
            × Permᴰ docs got)
    unfolding query_by IsPlain
    query_by-scan s criteria docs keyed' distinct plain h =
        elim (Option-cases (id_only_criteria criteria)) [
          | inl other ↦ rw other (
              query_by_filter-scan s criteria (indexable_equalities criteria) docs
                (doc_filter-satisfies criteria) h)
          | inr (id, only) ↦
              rw
                (
                  only,
                  laws.gets s id (plain id only),
                  select-id _ id (index_of s) docs (id_only_criteria-tests criteria id only) keyed'
                      distinct h,
                )
                (_, (refl, Permᴰ.refl _))
        ]

    -- Over a store whose index holds each document under the string of its "_id", no key twice, and for
    -- criteria that are no lookup of one id with a space: where a scan of the index with criteriaFilter
    -- selects the documents `docs` and no test of it panics, queryLocalDB succeeds and gives those of them
    -- that are JSON objects, in some order. So neither the lookup by id nor the use of field indexes
    -- changes which documents are given.
    pub query_local_db-scan :
        (s : S) (criteria : List (Fields Float)) (docs : List (Value Float))
        → IsKeyed (index_of s)
        → Distinct (index_of s)
        → IsPlain criteria
        → select (doc_filter fl lib criteria) (index_of s) ≡ some docs
        → (rows : List (Fields Float)) × ((query_local_db fl lib store s criteria ≡ some (ok rows))
            × Permᴰ (to_doc_maps docs) rows)
    unfolding query_local_db maps_or_panic maps_of
    query_local_db-scan s criteria docs keyed' distinct plain h =
        let (got, (is, moved)) = query_by-scan s criteria docs keyed' distinct plain h in
        (to_doc_maps got, (rw is refl, to_doc_maps-Perm moved))
