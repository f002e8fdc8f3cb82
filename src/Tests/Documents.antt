-- ===== src/Tests/Documents.antt =====
-- A store of two documents: queries, updates and deletions.
use mathlib.Core.List.{Permᴰ}
use mathlib.Core.List.Permᴰ
use optimusdb.Base.{ℕ, Option, none, some, List, [], ◌∷◌, ◌≡◌, refl, sym, ap, ◌∙◌, arith}
use optimusdb.Base.Text.{Str, codes, str_eq, split}
use optimusdb.Base.Dict.{Dict, get, Distinct}
use optimusdb.Document.{
  Value, str, obj, Fields, end, field, find, index, value_or_nil, nested_from, get_nested_value,
  deep_equal,
}
use optimusdb.Tests.Fixtures.{milli, a_id, b_id}
use mathlib.Core.Option.{some-injective}
use optimusdb.Query.Match.{Library}
use optimusdb.Query.Local.{
  Result, ok, DocumentReader, listed, select, Indexed, doc_filter, query_local_db, to_doc_maps,
  id_only_criteria, id_only_filter, string_of,
}
use optimusdb.Query.Local.Index.{IsKeyed, keyed}
use optimusdb.Query.Match.{criteria_filter}
use optimusdb.Query.Local.{satisfies}
use optimusdb.Query.Raw.{exact_equalities}
use optimusdb.Query.Raw.Exact.{exact_equalities-criteria_filter}
use optimusdb.Query.Local.Scan.{IsPlain, query_local_db-scan}

abbrev pub library : Library milli.Float
library = record { match_string = λ p s. some (str_eq p s); parse_float = λ s. none }

abbrev pub document : Str → Str → Fields ℕ
document id city = field (codes "_id") (str id) (field (codes "city") (str city) end)

abbrev pub documents : Dict (Value ℕ)
documents = (a_id, obj (document a_id (codes "x"))) ∷ (b_id, obj (document b_id (codes "y"))) ∷ []

abbrev found : Option (List (Value ℕ)) → Option (Result ℕ (List (Value ℕ)))
found none = none
found (some docs) = some (ok docs)

abbrev pub reader : DocumentReader (Dict (Value ℕ)) (Value ℕ) ℕ
reader = record {
  get_docs = λ s id. ok (listed (get s id));
  query = λ s f. found (select f s);
  query_indexed = λ s eq f. some (found (select f s));
}

pub reader-Indexed : Indexed reader (λ s. s)
reader-Indexed = record {
  gets = λ s id plain. refl;
  queries = λ s f docs h. (docs, (ap found h, Permᴰ.refl _));
  narrows = λ s eq f r docs only answered h.
      (docs, (some-injective _ _ (sym answered) ∙ ap found h, Permᴰ.refl _));
}

pub documents-IsKeyed : IsKeyed documents
unfolding IsKeyed find str_eq
documents-IsKeyed = (keyed _ refl, (keyed _ refl, tt))

pub documents-Distinct : Distinct documents
unfolding get str_eq
documents-Distinct = (refl, (refl, tt))

abbrev in_y : List (Fields ℕ)
in_y = field (codes "city") (str (codes "y")) end ∷ []

in_y-IsPlain : IsPlain in_y
unfolding IsPlain id_only_criteria id_only_filter string_of find str_eq
in_y-IsPlain id h = ground arith

abbrev pub picked : List (Value ℕ)
picked = obj (document b_id (codes "y")) ∷ []

in_y-selects : select (doc_filter milli library in_y) documents ≡ some picked
unfolding select optimusdb.Query.Local.keep_if doc_filter optimusdb.Query.Match.criteria_filter
    optimusdb.Query.Match.or_else optimusdb.Query.Match.matches_filter
    optimusdb.Query.Match.and_also optimusdb.Query.Match.matches_condition deep_equal
    get_nested_value nested_from split index value_or_nil find str_eq
in_y-selects = refl

query_local_db-scan_example :
    (rows : List (Fields ℕ)) × ((query_local_db milli library reader documents in_y
        ≡ some (ok rows))
      × Permᴰ (to_doc_maps picked) rows)
query_local_db-scan_example =
    query_local_db-scan milli library reader (λ s. s) reader-Indexed documents in_y picked
      documents-IsKeyed documents-Distinct in_y-IsPlain in_y-selects

abbrev two_fields : List (Fields ℕ)
two_fields =
    field (codes "city") (str (codes "y")) (field (codes "zone") (str (codes "n")) end) ∷ []

abbrev two_equalities : Dict Str
two_equalities = (codes "city", codes "y") ∷ (codes "zone", codes "n") ∷ []

two_fields-exact : exact_equalities two_fields ≡ some two_equalities
unfolding exact_equalities optimusdb.Query.Raw.all_equalities optimusdb.Query.Raw.add_exact
    optimusdb.Document.as_str str_eq optimusdb.Base.Text.contains
two_fields-exact = refl

exact_equalities-criteria_filter_example :
    criteria_filter milli library two_fields (document b_id (codes "y"))
    ≡ some (satisfies two_equalities (obj (document b_id (codes "y"))))
exact_equalities-criteria_filter_example =
    exact_equalities-criteria_filter milli library two_fields two_equalities
      (document b_id (codes "y")) two_fields-exact
