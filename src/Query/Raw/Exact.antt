-- ===== src/Query/Raw/Exact.antt =====
-- app/query_fastpath.go: what the conditions that an index answers exactly are to the filter.
use optimusdb.Base.{
  Bool, true, false, ◌&&◌, ◌||◌, Option, none, some, List, [], ◌∷◌, ◌≡◌, inl, inr, refl, sym, ap,
  ◌∙◌, arith, Bool-cases,
}
use optimusdb.Base.Text.{Str, str_eq, contains}
use optimusdb.Base.Dict.{Dict}
use optimusdb.Base.Float.{Float64}
use optimusdb.Document.{
  Value, null, bool, num, str, arr, obj, Fields, end, field, find, index, value_or_nil, as_str, dot,
  get_nested_value, deep_equal,
}
use mathlib.Core.Option.{some-injective}
use optimusdb.Query.Match.{
  Library, and_also, or_else, matches_condition, matches_filter, criteria_filter,
}
use optimusdb.Query.Local.{says, satisfies}
use optimusdb.Query.Local.Index.{nested-plain, or_else-false}
use optimusdb.Query.Raw.{add_exact, all_equalities, exact_equalities}

and_also-tests : (b c : Bool) → and_also (some b) (some c) ≡ some (b && c)
unfolding and_also
and_also-tests true c = refl
and_also-tests false c = refl

module _ (fl : Float64) where
  open fl use {Float}

  deep_equal-says :
      (o : Option (Value Float)) (s : Str) → deep_equal fl (value_or_nil o) (str s) ≡ says o s
  unfolding deep_equal value_or_nil says as_str
  deep_equal-says none s = refl
  deep_equal-says (some null) s = refl
  deep_equal-says (some (str t)) s = refl
  deep_equal-says (some (bool b)) s = refl
  deep_equal-says (some (num f)) s = refl
  deep_equal-says (some (arr items)) s = refl
  deep_equal-says (some (obj m)) s = refl

-- What adding a condition gives, where it gives equalities.
add_exact-parts :
    (key : Str) (o : Option Str) (rest : Option (Dict Str)) (eq : Dict Str)
    → add_exact key o rest ≡ some eq
    → (s : Str) × ((o ≡ some s)
        × ((rest' : Dict Str) × ((rest ≡ some rest')
              × ((contains key (dot ∷ []) ≡ false) × (eq ≡ (key, s) ∷ rest')))))
unfolding add_exact
add_exact-parts key none rest eq h = ground arith
add_exact-parts key (some s) none eq h = ground arith
add_exact-parts key (some s) (some rest) eq h =
    elim (Bool-cases (str_eq key [] || contains key (dot ∷ []))) [
      | inl other ↦ let bad : none ≡ some eq = rw other at h in ground arith
      | inr plain ↦ (
        s,
        (refl, (rest, (refl, (ground (arith, plain), sym (some-injective _ _ (rw plain at h)))))),
      )
    ]

module _ (fl : Float64) (lib : Library fl.Float) where
  open fl use {Float}

  matches_filter-end : (doc : Fields Float) → matches_filter fl lib doc end ≡ some true
  unfolding matches_filter
  matches_filter-end doc = refl

  matches_filter-field :
      (doc filter : Fields Float) (key : Str) (v : Value Float)
      → matches_filter fl lib doc (field key v filter)
        ≡ and_also
            (matches_condition fl lib (get_nested_value doc key) v)
            (matches_filter fl lib doc filter)
  unfolding matches_filter
  matches_filter-field doc filter key v = refl

  matches_condition-plain :
      (doc : Fields Float) (key : Str) (v : Value Float) (s : Str)
      → contains key (dot ∷ []) ≡ false
      → as_str v ≡ some s
      → matches_condition fl lib (get_nested_value doc key) v ≡ some (says (find doc key) s)
  unfolding matches_condition as_str index
  matches_condition-plain doc key (str t) s plain h =
      rw (nested-plain doc key plain, deep_equal-says fl (find doc key) t)
        (ap (λ u. some (says (find doc key) u)) (some-injective _ _ h))
  matches_condition-plain doc key _ s plain h = ground arith

  all_equalities-matches :
      (doc filter : Fields Float) (eq : Dict Str)
      → all_equalities filter ≡ some eq
      → matches_filter fl lib doc filter ≡ some (satisfies eq (obj doc))
  unfolding all_equalities satisfies
  all_equalities-matches doc end eq h = rw (sym (some-injective _ _ h)) (matches_filter-end doc)
  all_equalities-matches doc (field key v filter) eq h =
      let (s, (is_s, (rest, (is_rest, (plain, is))))) = add_exact-parts key (as_str v) _ eq h in
      rw
        (
          matches_filter-field doc filter key v,
          matches_condition-plain doc key v s plain is_s,
          all_equalities-matches doc filter rest is_rest,
          is,
        )
        (and_also-tests (says (find doc key) s) (satisfies rest (obj doc)))

  -- Where exactEqualities turns criteria into equalities, criteriaFilter takes a document exactly where it
  -- satisfies all of these, without a panic.
  pub exact_equalities-criteria_filter :
      (criteria : List (Fields Float)) (eq : Dict Str) (doc : Fields Float)
      → exact_equalities criteria ≡ some eq
      → criteria_filter fl lib criteria doc ≡ some (satisfies eq (obj doc))
  unfolding exact_equalities criteria_filter
  exact_equalities-criteria_filter [] eq doc h = ground arith
  exact_equalities-criteria_filter (end ∷ criteria) eq doc h = ground arith
  exact_equalities-criteria_filter (field key v filter ∷ []) eq doc h =
      ap (λ o. or_else o (some false)) (all_equalities-matches doc (field key v filter) eq h)
      ∙ or_else-false _
  exact_equalities-criteria_filter (field key v filter ∷ other ∷ criteria) eq doc h = ground arith
