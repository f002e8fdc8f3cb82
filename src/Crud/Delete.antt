-- ===== src/Crud/Delete.antt =====
-- app/service.go: crudDeleteDocStoreRev. The lineage interceptor, where there is one, is told of each
-- document first, and its errors are only logged; so is the check that follows each deletion. The metadata
-- store, where there is one, loses the entry "meta_" with the id, whatever it answers.
pub mod Taken
pub mod Removed
use optimusdb.Base.{ℕ, ◌+◌, Bool, Option, none, some, List, [], ◌∷◌, ◌++◌, if◌then◌else◌, map}
use optimusdb.Base.Text.{Str, codes}
use optimusdb.Base.Float.{Float64}
use optimusdb.Document.{Value, Fields, as_obj}
use optimusdb.Query.Match.{Library}
use optimusdb.Query.Local.{Result, ok, failed, DocumentReader, keep_map}
use optimusdb.Store.Batch.{Reply}
use optimusdb.Crud.Ids.{
  CrudError, no_criteria, query_failed, document_failed, doc_id_of, criteria_match,
}

-- what the command changes: the document store, the metadata store, and the documents that the
-- interceptor has been told of
pub record Stores (S M Doc : Type 0) : Type 0 where
  pub documents : S
  pub metadata : Option M
  pub told : List Doc

pub record Deletion (S M Doc Err : Type 0) : Type 0 where
  pub stores : Stores S M Doc
  pub count : ℕ
  pub error : Option (CrudError Err)

module _ {F S M Err : Type 0} (print_float : F → Str) (print_value : Value F → Str)
    (delete_doc : S → Str → Reply S Err) (delete_meta : M → Str → M) (intercepts : Bool) where
  unfoldable pub told_of : List (Value F) → List (Fields F)
  told_of [] = []
  told_of (d ∷ matched) = keep_map (as_obj d) (told_of matched)

  unfoldable pub tell : List (Value F) → Stores S M (Fields F) → Stores S M (Fields F)
  tell matched st = if intercepts then record st { told = st.told ++ told_of matched } else st

  unfoldable pub without_meta : Str → Option M → Option M
  without_meta id none = none
  without_meta id (some m) = some (delete_meta m (codes "meta_" ++ id))

  -- one round of the loop for a document with an id: the reply of the store, then what is left to do
  unfoldable pub after_delete :
      Stores S M (Fields F) → Str → Reply S Err → Stores S M (Fields F) × Option (CrudError Err)
  after_delete st id (s, some e) = (record st { documents = s }, some (document_failed id e))
  after_delete st id (s, none) =
      (record st { documents = s; metadata = without_meta id st.metadata }, none)

  unfoldable pub unless_failed :
      Stores S M (Fields F) × Option (CrudError Err)
      → ℕ
      → Deletion S M (Fields F) Err
      → Deletion S M (Fields F) Err
  unless_failed (after, none) count rest = rest
  unless_failed (after, some e) count rest = record {
    stores = after;
    count = count;
    error = some e;
  }

  unfoldable pub delete_docs :
      Stores S M (Fields F) → ℕ → List (Option Str) → Deletion S M (Fields F) Err
  delete_docs st count [] = record { stores = st; count = count; error = none }
  delete_docs st count (none ∷ ids) = delete_docs st count ids
  delete_docs st count (some id ∷ ids) =
      let after = after_delete st id (delete_doc st.documents id) in
      unless_failed after count (delete_docs after.0 (count + 1) ids)

  unfoldable pub delete_matched :
      Stores S M (Fields F)
      → Option (Result Err (List (Value F)))
      → Option (Deletion S M (Fields F) Err)
  delete_matched st none = none
  delete_matched st (some (failed e)) =
      some (record { stores = st; count = 0; error = some (query_failed e) })
  delete_matched st (some (ok [])) = some (record { stores = st; count = 0; error = none })
  delete_matched st (some (ok (d ∷ matched))) = some (
      delete_docs (tell (d ∷ matched) st) 0 (map (doc_id_of print_float print_value) (d ∷ matched)))

module _ (fl : Float64) (lib : Library fl.Float) {S M Err : Type 0} (print_float : fl.Float → Str)
    (print_value : Value fl.Float → Str) (delete_doc : S → Str → Reply S Err)
    (delete_meta : M → Str → M) (intercepts : Bool)
    (reader : DocumentReader S (Value fl.Float) Err) where
  open fl use {Float}

  unfoldable pub crud_delete_doc_store :
      Stores S M (Fields Float) → List (Fields Float) → Option (Deletion S M (Fields Float) Err)
  crud_delete_doc_store st [] = some (record { stores = st; count = 0; error = some no_criteria })
  crud_delete_doc_store st (filter ∷ criteria) =
      delete_matched print_float print_value delete_doc delete_meta intercepts st
        (reader.query st.documents (criteria_match fl lib filter))
