-- ===== src/Query/Persist.antt =====
-- app/query_fastpath.go: persistRemoteRows, from the resolved store on. `has_key` is the check of the patched
-- document store, where it has one; the rows are written by put_documents.
pub mod Learned
use optimusdb.Base.{ℕ, Bool, true, false, Option, none, some, List, [], ◌∷◌, if◌then◌else◌}
use optimusdb.Base.Text.{Str, codes}
use optimusdb.Document.{Value, Fields, delete}
use optimusdb.Query.Local.{Result, ok, failed}
use optimusdb.Query.Rows.{id_key}
use optimusdb.Store.Batch.{DocumentStore, Settings, Written}
use optimusdb.Store.Commit.{put_documents}

module _ {F : Type 0} where
  unfoldable pub some_docs : {Err : Type 0} → Result Err (List (Value F)) → Bool
  some_docs (ok []) = false
  some_docs (ok (d ∷ docs)) = true
  some_docs (failed e) = false

  unfoldable pub is_stored :
      {S Err : Type 0}
      → Option (S → Str → Bool)
      → (S → Str → Result Err (List (Value F)))
      → S
      → Str
      → Bool
  is_stored (some has_key) get_docs s id = has_key s id
  is_stored none get_docs s id = some_docs (get_docs s id)

  -- a copy of the row without the annotation keys
  unfoldable pub without_annotations : Fields F → Fields F
  without_annotations row = delete (delete row (codes "_source")) (codes "_trace")

  unfoldable pub add_missing :
      (Str → Bool) → Fields F → Option Str → List (Fields F) → List (Fields F)
  add_missing stored row none missing = missing
  add_missing stored row (some id) missing =
      if stored id then missing else without_annotations row ∷ missing

  unfoldable pub missing_rows : (Str → Bool) → List (Fields F) → List (Fields F)
  missing_rows stored [] = []
  missing_rows stored (row ∷ rows) = add_missing stored row (id_key row) (missing_rows stored rows)

module _ {F S Err : Type 0} (store : DocumentStore (Fields F) S Err)
    (json_size : Fields F → Option ℕ) (settings : Settings) where
  unfoldable pub write_missing : S → List (Fields F) → Written (Fields F) S Err
  write_missing s [] = (s, [], none)
  write_missing s (d ∷ missing) = put_documents store json_size settings s (d ∷ missing)

  unfoldable pub persist_remote_rows :
      Option (S → Str → Bool)
      → (S → Str → Result Err (List (Value F)))
      → S
      → List (Fields F)
      → Written (Fields F) S Err
  persist_remote_rows has_key get_docs s rows =
      write_missing s (missing_rows (is_stored has_key get_docs s) rows)
