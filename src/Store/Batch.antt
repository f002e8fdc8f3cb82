-- ===== src/Store/Batch.antt =====
-- app/batch_put.go: splitBatches, putDocumentsOneByOne and the writing of
-- the batches. A document stands with its size as JSON,
-- `none` where json.Marshal fails. The calls of the store, `put` and `put_all`, take its state and
-- give the next one with an error or none; the settings are arguments.
pub mod Split
pub mod Stored
use optimusdb.Base.{
  ℕ, ◌+◌, Bool, not, ◌&&◌, ◌||◌, Option, none, some, List, [], ◌∷◌, ◌++◌, if◌then◌else◌, length,
  leb, ltb,
}

-- what a store answers: its next state, and the error if there is one
abbrev pub Reply : Type 0 → Type 0 → Type 0
Reply S Err = S × Option Err

pub record DocumentStore (Doc S Err : Type 0) : Type 0 where
  pub put : S → Doc → Reply S Err
  pub put_all : S → List Doc → Reply S Err

-- n := 1024; if b, err := json.Marshal(d); err == nil { n = len(b) }
unfoldable pub size_or_default : Option ℕ → ℕ
size_or_default none = 1024
size_or_default (some n) = n

module _ {Doc : Type 0} (json_size : Doc → Option ℕ) where
  unfoldable pub doc_size : Doc → ℕ
  unfolding size_or_default
  doc_size d = size_or_default (json_size d)

  -- the test before a document joins the open group
  unfoldable pub is_full : ℕ → ℕ → List Doc → ℕ → Doc → Bool
  is_full max_docs max_bytes cur size d =
      ltb 0 (length cur) && (leb max_docs (length cur) || ltb max_bytes (size + doc_size d))

  -- The loop of splitBatches on (cur, size), with the groups that it still has to close.
  unfoldable pub split_from : ℕ → ℕ → List Doc → ℕ → List Doc → List (List Doc)
  split_from max_docs max_bytes [] size [] = []
  split_from max_docs max_bytes (c ∷ cur) size [] = (c ∷ cur) ∷ []
  split_from max_docs max_bytes cur size (d ∷ docs) =
      if is_full max_docs max_bytes cur size d
      then cur ∷ split_from max_docs max_bytes (d ∷ []) (doc_size d) docs
      else split_from max_docs max_bytes (cur ++ d ∷ []) (size + doc_size d) docs

  unfoldable pub split_batches : List Doc → ℕ → ℕ → List (List Doc)
  unfolding split_from
  split_batches docs max_docs max_bytes = split_from max_docs max_bytes [] 0 docs

-- The state after a run of writes, the documents that were stored and the last error.
abbrev pub Written : Type 0 → Type 0 → Type 0 → Type 0
Written Doc S Err = S × List Doc × Option Err

unfoldable pub last_error : {Err : Type 0} → Option Err → Option Err → Option Err
last_error earlier none = earlier
last_error earlier (some e) = some e

module _ {Doc S Err : Type 0} (store : DocumentStore Doc S Err) where
  open store use {put, put_all}

  -- what the loop adds for one document to the outcome of the rest
  unfoldable pub note_put : Written Doc S Err → Doc → Option Err → Written Doc S Err
  note_put (s, stored, later) d none = (s, d ∷ stored, later)
  note_put (s, stored, later) d (some e) = (s, stored, last_error (some e) later)

  unfoldable pub put_one_by_one : S → List Doc → Written Doc S Err
  put_one_by_one s [] = (s, [], none)
  put_one_by_one s (d ∷ docs) = note_put (put_one_by_one (put s d).0 docs) d (put s d).1

  -- after PutAll: the whole batch, or each document by itself where it failed
  unfoldable pub settle_batch : S → List Doc → Option Err → Written Doc S Err
  settle_batch s batch none = (s, batch, none)
  settle_batch s batch (some e) = put_one_by_one s batch

  unfoldable pub put_batch : S → List Doc → Written Doc S Err
  put_batch s batch = settle_batch (put_all s batch).0 batch (put_all s batch).1

  -- one outcome after the other
  unfoldable pub join_written : Written Doc S Err → Written Doc S Err → Written Doc S Err
  join_written (s, stored, e) (s', more, later) = (s', stored ++ more, last_error e later)

  unfoldable pub put_batches : S → List (List Doc) → Written Doc S Err
  put_batches s [] = (s, [], none)
  put_batches s (batch ∷ batches) =
      join_written (put_batch s batch) (put_batches (put_batch s batch).0 batches)

  -- the loop over the answers of PutManyCoalesced
  unfoldable pub collect : S → List Doc → List (Option Err) → Written Doc S Err
  collect s [] answers = (s, [], none)
  collect s (d ∷ docs) [] = (s, [], none)
  collect s (d ∷ docs) (e ∷ answers) = note_put (collect s docs answers) d e

-- The settings, as they are read from the environment: `group_commit_enabled` is the answer of
-- groupCommitEnabled, which is false where batches are off.
pub record Settings : Type 0 where
  pub batch_put_enabled : Bool
  pub group_commit_enabled : Bool
  pub group_commit_max_docs : ℕ
  pub batch_max_docs : ℕ
  pub batch_max_bytes : ℕ

module _ {Doc S Err : Type 0} (store : DocumentStore Doc S Err) where
  -- PutDocumentsBatched; `put_many_coalesced` is the group commit (Store.Commit).
  unfoldable pub put_documents_batched :
      Settings
      → (Doc → Option ℕ)
      → (S → List Doc → S × List (Option Err))
      → S
      → List Doc
      → Written Doc S Err
  put_documents_batched settings json_size put_many_coalesced s docs =
      let (s', answers) = put_many_coalesced s docs in
      if not settings.batch_put_enabled
      then put_one_by_one store s docs
      else if settings.group_commit_enabled && leb (length docs) settings.group_commit_max_docs
      then collect store s' docs answers
      else put_batches store s
          (split_batches json_size docs settings.batch_max_docs settings.batch_max_bytes)
