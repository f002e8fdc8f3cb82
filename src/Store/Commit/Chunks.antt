-- ===== src/Store/Commit/Chunks.antt =====
-- The chunks that the writer takes from its queue.
use Prim.Native.Nat.{suc}
use optimusdb.Base.{
  ℕ, ◌+◌, ◌≡◌, ◌≤◌, refl, ap, true, false, Option, List, [], ◌∷◌, ◌++◌, arith, Bool-cases, inl, inr,
  length,
}
use optimusdb.Store.Batch.{doc_size}
use optimusdb.Store.Commit.{joins_chunk, take_chunk}
use optimusdb.Base.{length-append}
use optimusdb.Base.{suc}

module _ {Doc : Type 0} (json_size : Doc → Option ℕ) where
  take_chunk_joins :
      (max_docs max_bytes count size : ℕ) (r : Doc) (batch : List Doc)
      → joins_chunk json_size max_docs max_bytes count size r ≡ true
      → take_chunk json_size max_docs max_bytes count size (r ∷ batch) ≡ (
        r
            ∷ (take_chunk json_size max_docs max_bytes
                (suc count)
                (size + doc_size json_size r)
                batch).0,
        (take_chunk json_size max_docs max_bytes (suc count) (size + doc_size json_size r) batch).1,
      )
  unfolding take_chunk
  take_chunk_joins max_docs max_bytes count size r batch joins = rw joins refl

  take_chunk_full :
      (max_docs max_bytes count size : ℕ) (r : Doc) (batch : List Doc)
      → joins_chunk json_size max_docs max_bytes count size r ≡ false
      → take_chunk json_size max_docs max_bytes count size (r ∷ batch) ≡ ([], r ∷ batch)
  unfolding take_chunk
  take_chunk_full max_docs max_bytes count size r batch full = rw full refl

  -- The chunk and what is left are the queue, in its order.
  pub take_chunk-append :
      (max_docs max_bytes count size : ℕ) (batch : List Doc)
      → let (chunk, rest) = take_chunk json_size max_docs max_bytes count size batch in
        (chunk ++ rest) ≡ batch
  take_chunk-append max_docs max_bytes count size [] = unfold take_chunk in refl
  take_chunk-append max_docs max_bytes count size (r ∷ batch) =
      elim (Bool-cases (joins_chunk json_size max_docs max_bytes count size r)) [
        | inl joins ↦ rw (take_chunk_joins max_docs max_bytes count size r batch joins) (
            ap (λ xs. r ∷ xs)
              (take_chunk-append max_docs max_bytes (suc count) (size + doc_size json_size r)
                batch))
        | inr full ↦ rw (take_chunk_full max_docs max_bytes count size r batch full) refl
      ]

  pub length-take_chunk :
      (max_docs max_bytes : ℕ) (r : Doc) (batch : List Doc)
      → length (take_chunk json_size max_docs max_bytes 0 0 (r ∷ batch)).1 ≤ length batch
  length-take_chunk max_docs max_bytes r batch =
      let (chunk, rest) =
        take_chunk json_size max_docs max_bytes 1 (0 + doc_size json_size r) batch in
      let whole : length (chunk ++ rest) ≡ length batch =
        ap length (take_chunk-append max_docs max_bytes 1 (0 + doc_size json_size r) batch) in
      rw (take_chunk_joins max_docs max_bytes 0 0 r batch (unfold joins_chunk in refl))
        (omega (arith, length-append chunk rest, whole))
