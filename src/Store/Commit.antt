-- ===== src/Store/Commit.antt =====
-- app/group_commit.go: storeWriter.write with its chunks, and PutManyCoalesced on an idle store,
-- where the queue of the writer is what the caller brings. A request is its document; its size is
-- that of splitBatches. `write` answers each request once, on its channel: the answers are the list
-- beside the state. The
-- context of the caller is not cancelled, so it takes every answer. A panic of the store, which put and putAll turn into an error, is an error here.
pub mod Chunks
pub mod Answers
use optimusdb.Base.{
  ℕ, zero, suc, ◌+◌, Bool, ◌&&◌, ◌||◌, Option, none, some, List, [], ◌∷◌, ◌++◌, if◌then◌else◌,
  length, leb, ltb, ◌==◌,
}
use optimusdb.Store.Batch.{DocumentStore, Written, Settings, doc_size, put_documents_batched}

module _ {Doc : Type 0} (json_size : Doc → Option ℕ) where
  -- The condition of the inner loop, where `count` requests of `size` bytes are in the chunk.
  unfoldable pub joins_chunk : ℕ → ℕ → ℕ → ℕ → Doc → Bool
  joins_chunk max_docs max_bytes count size r =
      count == 0 || ltb count max_docs && leb (size + doc_size json_size r) max_bytes

  -- the requests that the inner loop still takes, and those that it leaves
  unfoldable pub take_chunk : ℕ → ℕ → ℕ → ℕ → List Doc → List Doc × List Doc
  take_chunk max_docs max_bytes count size [] = ([], [])
  take_chunk max_docs max_bytes count size (r ∷ batch) =
      let (chunk, rest) =
        take_chunk max_docs max_bytes (suc count) (size + doc_size json_size r) batch in
      if joins_chunk max_docs max_bytes count size r then (r ∷ chunk, rest) else ([], r ∷ batch)

abbrev pub Answered : Type 0 → Type 0 → Type 0
Answered S Err = S × List (Option Err)

module _ {Doc S Err : Type 0} (store : DocumentStore Doc S Err) where
  open store use {put, put_all}

  unfoldable pub and_then : Answered S Err → Answered S Err → Answered S Err
  and_then (s, answers) (s', more) = (s', answers ++ more)

  -- for … { r.done <- put(ctx, store, r.doc) }
  unfoldable pub put_each : S → List Doc → Answered S Err
  put_each s [] = (s, [])
  put_each s (d ∷ docs) = and_then ((put s d).0, (put s d).1 ∷ []) (put_each (put s d).0 docs)

  unfoldable pub accept_all : List Doc → List (Option Err)
  accept_all [] = []
  accept_all (d ∷ docs) = none ∷ accept_all docs

  unfoldable pub settle_chunk : S → List Doc → Option Err → Answered S Err
  settle_chunk s chunk none = (s, accept_all chunk)
  settle_chunk s chunk (some e) = put_each s chunk

  unfoldable pub write_chunk : S → List Doc → Answered S Err
  write_chunk s chunk =
      if length chunk == 1
      then put_each s chunk
      else settle_chunk (put_all s chunk).0 chunk (put_all s chunk).1

  -- The outer loop; each round takes a request at least, so as many rounds as there are requests are
  -- enough.
  unfoldable pub write_from : (Doc → Option ℕ) → Settings → ℕ → S → List Doc → Answered S Err
  write_from json_size settings zero s batch = (s, [])
  write_from json_size settings (suc rounds) s [] = (s, [])
  write_from json_size settings (suc rounds) s (r ∷ batch) =
      let (chunk, rest) =
        take_chunk json_size settings.batch_max_docs settings.batch_max_bytes 0 0 (r ∷ batch) in
      and_then (write_chunk s chunk)
        (write_from json_size settings rounds (write_chunk s chunk).0 rest)

  unfoldable pub write : (Doc → Option ℕ) → Settings → S → List Doc → Answered S Err
  write json_size settings s batch = write_from json_size settings (length batch) s batch

  unfoldable pub put_many_coalesced : (Doc → Option ℕ) → Settings → S → List Doc → Answered S Err
  put_many_coalesced json_size settings s docs =
      if settings.group_commit_enabled then write json_size settings s docs else put_each s docs

  -- PutDocumentsBatched with the group commit of this file
  unfoldable pub put_documents : (Doc → Option ℕ) → Settings → S → List Doc → Written Doc S Err
  put_documents json_size settings s docs =
      put_documents_batched store settings json_size (put_many_coalesced json_size settings) s docs
