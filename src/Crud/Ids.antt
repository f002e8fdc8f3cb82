-- ===== src/Crud/Ids.antt =====
-- app/service.go: the id of a document as the commands print it, and the filter of a command, which is
-- matchesCriteriaEnhanced on its first criteria. fmt.Sprintf is an argument: with "%.0f" on a number and
-- with "%v" on any other value.
use optimusdb.Base.{Bool, false, Option, none, some}
use optimusdb.Base.Text.{Str, codes}
use optimusdb.Base.Float.{Float64}
use optimusdb.Document.{Value, num, str, obj, Fields, find}
use optimusdb.Query.Match.{Library, matches_criteria}

pub data CrudError (Err : Type 0) : Type 0 where
  no_criteria : CrudError Err
  no_update_data : CrudError Err
  query_failed : Err → CrudError Err
  document_failed : Str → Err → CrudError Err

module _ {F : Type 0} (print_float : F → Str) (print_value : Value F → Str) where
  unfoldable pub id_text : Value F → Str
  id_text (str s) = s
  id_text (num f) = print_float f
  id_text v = print_value v

  unfoldable pub text_of : Option (Value F) → Option Str
  text_of none = none
  text_of (some v) = some (id_text v)

  -- the printed "_id", where the document is a map that has one
  unfoldable pub doc_id_of : Value F → Option Str
  doc_id_of (obj record') = text_of (find record' (codes "_id"))
  doc_id_of _ = none

unfoldable pub criteria_match :
    (fl : Float64) → Library fl.Float → Fields fl.Float → Value fl.Float → Option Bool
criteria_match fl lib filter (obj record') = matches_criteria fl lib record' filter
criteria_match fl lib filter _ = some false
