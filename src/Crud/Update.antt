-- ===== src/Crud/Update.antt =====
-- app/service.go: crudUpdateDocStoreRev. The documents are written by put_many_coalesced; `now_text` is the
-- time of a document's update as text, the same for all of a call here.
pub mod Preserved
pub mod Logged
use optimusdb.Base.{ℕ, ◌+◌, Option, none, some, List, [], ◌∷◌, map}
use optimusdb.Base.Text.{Str, codes}
use optimusdb.Base.Float.{Float64}
use optimusdb.Document.{Value, str, obj, Fields, assign, assign_all}
use optimusdb.Query.Match.{Library}
use optimusdb.Query.Local.{Result, ok, failed, DocumentReader, id_only_filter}
use optimusdb.Lineage.Queue.{LineageQueue, enqueue_lineage}
use optimusdb.Store.Batch.{DocumentStore, Settings}
use optimusdb.Store.Commit.{Answered, put_many_coalesced}
use optimusdb.Crud.Ids.{
  CrudError, no_criteria, no_update_data, query_failed, document_failed, doc_id_of, criteria_match,
}

unfoldable pub update_doc : {F : Type 0} → Fields F → Str → Str → Fields F → Fields F
update_doc updates doc_id now_text record' =
    assign (assign (assign_all record' updates) (codes "_id") (str doc_id)) (codes "_updated_at")
      (str now_text)

module _ {F : Type 0} (print_float : F → Str) (print_value : Value F → Str) where
  unfoldable pub add_updated :
      Fields F → Str → Value F → Option Str → List (Str × Fields F) → List (Str × Fields F)
  add_updated updates now_text (obj record') (some id) rest =
      (id, update_doc updates id now_text record') ∷ rest
  add_updated updates now_text _ _ rest = rest

  -- `updatedIDs` with `updatedDocs`
  unfoldable pub updated_docs : Fields F → Str → List (Value F) → List (Str × Fields F)
  updated_docs updates now_text [] = []
  updated_docs updates now_text (d ∷ matched) =
      add_updated updates now_text d (doc_id_of print_float print_value d)
        (updated_docs updates now_text matched)

unfoldable pub count_accepted : {Err : Type 0} → List (Option Err) → ℕ
count_accepted [] = 0
count_accepted (none ∷ errs) = count_accepted errs + 1
count_accepted (some e ∷ errs) = count_accepted errs

unfoldable pub first_error :
    {F Err : Type 0} → List (Str × Fields F) → List (Option Err) → Option (CrudError Err)
first_error [] errs = none
first_error (d ∷ docs) [] = none
first_error (d ∷ docs) (none ∷ errs) = first_error docs errs
first_error ((id, d) ∷ docs) (some e ∷ errs) = some (document_failed id e)

module _ {F Err : Type 0} (store_name : Str) where
  -- the jobs of the documents that were written
  unfoldable pub enqueue_updated :
      LineageQueue (Fields F) → List (Str × Fields F) → List (Option Err) → LineageQueue (Fields F)
  enqueue_updated q [] errs = q
  enqueue_updated q (d ∷ docs) [] = q
  enqueue_updated q ((id, d) ∷ docs) (none ∷ errs) =
      enqueue_updated (enqueue_lineage q (record { doc = d; store_name = store_name; doc_id = id }))
        docs errs
  enqueue_updated q (d ∷ docs) (some e ∷ errs) = enqueue_updated q docs errs

-- the store, the lineage queue, and the count with the error that the command returns
pub record Outcome (F S Err : Type 0) : Type 0 where
  pub state : S
  pub lineage : LineageQueue (Fields F)
  pub count : ℕ
  pub error : Option (CrudError Err)

module _ (fl : Float64) (lib : Library fl.Float) (print_float : fl.Float → Str)
    (print_value : Value fl.Float → Str) {S Err : Type 0}
    (reader : DocumentReader S (Value fl.Float) Err) (store : DocumentStore (Fields fl.Float) S Err)
    (json_size : Fields fl.Float → Option ℕ) (settings : Settings) (store_name : Str) where
  open fl use {Float}

  unfoldable pub matched_docs :
      S → Fields Float → Option Str → Option (Result Err (List (Value Float)))
  matched_docs s filter (some id) = some (reader.get_docs s id)
  matched_docs s filter none = reader.query s (criteria_match fl lib filter)

  unfoldable pub settle_update :
      LineageQueue (Fields Float) → List (Str × Fields Float) → Answered S Err → Outcome Float S Err
  settle_update q docs (s, errs) = record {
    state = s;
    lineage = enqueue_updated store_name q docs errs;
    count = count_accepted errs;
    error = first_error docs errs;
  }

  unfoldable pub write_updated :
      S → LineageQueue (Fields Float) → List (Str × Fields Float) → Outcome Float S Err
  write_updated s q docs =
      settle_update q docs (put_many_coalesced store json_size settings s (map (λ d. d.1) docs))

  unfoldable pub update_matched :
      S
      → LineageQueue (Fields Float)
      → Fields Float
      → Str
      → Option (Result Err (List (Value Float)))
      → Option (Outcome Float S Err)
  update_matched s q updates now_text none = none
  update_matched s q updates now_text (some (failed e)) =
      some (record { state = s; lineage = q; count = 0; error = some (query_failed e) })
  update_matched s q updates now_text (some (ok [])) =
      some (record { state = s; lineage = q; count = 0; error = none })
  update_matched s q updates now_text (some (ok (d ∷ matched))) =
      some (write_updated s q (updated_docs print_float print_value updates now_text (d ∷ matched)))

  unfoldable pub crud_update_doc_store :
      S
      → LineageQueue (Fields Float)
      → Str
      → List (Fields Float)
      → List (Fields Float)
      → Option (Outcome Float S Err)
  crud_update_doc_store s q now_text [] update_data =
      some (record { state = s; lineage = q; count = 0; error = some no_criteria })
  crud_update_doc_store s q now_text (filter ∷ criteria) [] =
      some (record { state = s; lineage = q; count = 0; error = some no_update_data })
  crud_update_doc_store s q now_text (filter ∷ criteria) (updates ∷ update_data) =
      update_matched s q updates now_text (matched_docs s filter (id_only_filter filter))
