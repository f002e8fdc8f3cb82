-- ===== src/Crud/Delete/Removed.antt =====
-- app/service.go: which documents a deletion removes.
use optimusdb.Base.{none, List, ◌≡◌, if◌then◌else◌}
use optimusdb.Base.Text.{Str, str_eq}
use optimusdb.Base.Dict.{Dict, get}
use optimusdb.Document.{Value}
use optimusdb.Store.Batch.{Reply}

-- Where the store deletes an id without an error, its index has lost that key and no other.
pub record Deletes {F S Err : Type 0} (delete_doc : S → Str → Reply S Err)
    (index_of : S → Dict (Value F)) : Type 0 where
  pub gone :
      (s : S) (id : Str)
      → (delete_doc s id).1 ≡ none
      → (k : Str)
      → get (index_of (delete_doc s id).0) k ≡ (if str_eq id k then none else get (index_of s) k)
