-- ===== src/Store/Batch/Split.antt =====
-- splitBatches loses nothing and keeps its limits.
use optimusdb.Base.{
  ℕ, ◌+◌, ◌≡◌, ◌≤◌, ◌<◌, ◌⊎◌, refl, ap, true, false, Option, List, [], ◌∷◌, ◌++◌, arith, Bool-cases,
  inl, inr, length, concat, All,
}
use optimusdb.Store.Batch.{doc_size, is_full, split_from, split_batches}
use optimusdb.Base.{length-append}

module _ {Doc : Type 0} (json_size : Doc → Option ℕ) where
  abbrev pub total : List Doc → ℕ
  total [] = 0
  total (d ∷ docs) = doc_size json_size d + total docs

  -- a group may hold one document of any size, or keeps both limits
  abbrev pub Fits : ℕ → ℕ → List Doc → Type 0
  Fits max_docs max_bytes group =
      (0 < length group)
      × ((length group ≡ 1) ⊎ ((length group ≤ max_docs) × (total group ≤ max_bytes)))

  split_from_full :
      (max_docs max_bytes : ℕ) (cur : List Doc) (size : ℕ) (d : Doc) (docs : List Doc)
      → is_full json_size max_docs max_bytes cur size d ≡ true
      → split_from json_size max_docs max_bytes cur size (d ∷ docs)
        ≡ (cur ∷ split_from json_size max_docs max_bytes (d ∷ []) (doc_size json_size d) docs)
  unfolding split_from
  split_from_full max_docs max_bytes cur size d docs e = rw e refl

  split_from_open :
      (max_docs max_bytes : ℕ) (cur : List Doc) (size : ℕ) (d : Doc) (docs : List Doc)
      → is_full json_size max_docs max_bytes cur size d ≡ false
      → split_from json_size max_docs max_bytes cur size (d ∷ docs) ≡ (
          split_from json_size max_docs max_bytes
            (cur ++ d ∷ [])
            (size + doc_size json_size d)
            docs)
  unfolding split_from
  split_from_open max_docs max_bytes cur size d docs e = rw e refl

  append_step : (xs : List Doc) (d : Doc) (ys : List Doc) → ((xs ++ d ∷ []) ++ ys) ≡ (xs ++ d ∷ ys)
  append_step [] d ys = refl
  append_step (x ∷ xs) d ys = ap (λ zs. x ∷ zs) (append_step xs d ys)

  total_step : (xs : List Doc) (d : Doc) → total (xs ++ d ∷ []) ≡ total xs + doc_size json_size d
  total_step [] d = omega arith
  total_step (x ∷ xs) d = omega (arith, total_step xs d)

  concat-split_from :
      (max_docs max_bytes : ℕ) (cur : List Doc) (size : ℕ) (docs : List Doc)
      → concat (split_from json_size max_docs max_bytes cur size docs) ≡ (cur ++ docs)
  concat-split_from max_docs max_bytes [] size [] = unfold split_from in refl
  concat-split_from max_docs max_bytes (c ∷ cur) size [] = unfold split_from in refl
  concat-split_from max_docs max_bytes cur size (d ∷ docs) =
      elim (Bool-cases (is_full json_size max_docs max_bytes cur size d)) [
        | inl full ↦
            rw
              (
                split_from_full max_docs max_bytes cur size d docs full,
                concat-split_from max_docs max_bytes (d ∷ []) (doc_size json_size d) docs,
              )
              refl
        | inr room ↦
            rw
              (
                split_from_open max_docs max_bytes cur size d docs room,
                concat-split_from max_docs max_bytes (cur ++ d ∷ []) (size + doc_size json_size d)
                    docs,
              )
              (append_step cur d docs)
      ]

  -- The groups, one after the other, are the documents in their order.
  pub concat-split_batches :
      (docs : List Doc) (max_docs max_bytes : ℕ)
      → concat (split_batches json_size docs max_docs max_bytes) ≡ docs
  unfolding split_batches
  concat-split_batches docs max_docs max_bytes = concat-split_from max_docs max_bytes [] 0 docs

  alone : (max_docs max_bytes : ℕ) (d : Doc) → Fits max_docs max_bytes (d ∷ [])
  alone max_docs max_bytes d = (ground arith, inl refl)

  grows :
      (max_docs max_bytes : ℕ) (cur : List Doc) (d : Doc)
      → is_full json_size max_docs max_bytes cur (total cur) d ≡ false
      → Fits max_docs max_bytes (cur ++ d ∷ [])
  unfolding is_full
  grows max_docs max_bytes [] d room = alone max_docs max_bytes d
  grows max_docs max_bytes (c ∷ cur) d room = (
    ground arith,
    inr (ground (arith, length-append (c ∷ cur) (d ∷ [])), ground (arith, total_step (c ∷ cur) d)),
  )

  kept :
      (max_docs max_bytes : ℕ) (cur : List Doc)
      → (cur ≡ []) ⊎ Fits max_docs max_bytes cur
      → 0 < length cur
      → Fits max_docs max_bytes cur
  kept max_docs max_bytes cur (inl e) h =
      let none_left : length cur ≡ 0 = ap length e in absurd (omega arith)
  kept max_docs max_bytes cur (inr fits) h = fits

  total_alone : (d : Doc) → total (d ∷ []) ≡ doc_size json_size d
  total_alone d = omega arith

  split_from-Fits :
      (max_docs max_bytes : ℕ) (cur : List Doc) (docs : List Doc)
      → (cur ≡ []) ⊎ Fits max_docs max_bytes cur
      → All (Fits max_docs max_bytes) (split_from json_size max_docs max_bytes cur (total cur) docs)
  split_from-Fits max_docs max_bytes [] [] h = unfold split_from in tt
  split_from-Fits max_docs max_bytes (c ∷ cur) [] h =
      unfold split_from in (kept max_docs max_bytes (c ∷ cur) h (omega arith), tt)
  split_from-Fits max_docs max_bytes cur (d ∷ docs) h =
      elim (Bool-cases (is_full json_size max_docs max_bytes cur (total cur) d)) [
        | inl full ↦ rw (split_from_full max_docs max_bytes cur (total cur) d docs full) (
          kept max_docs max_bytes cur h (unfold is_full in ground arith),
          rw (total_alone d) at
              (split_from-Fits max_docs max_bytes (d ∷ []) docs (inr (alone max_docs max_bytes d))),
        )
        | inr room ↦ rw (split_from_open max_docs max_bytes cur (total cur) d docs room) (
            rw (total_step cur d) at (
              split_from-Fits max_docs max_bytes (cur ++ d ∷ []) docs
                (inr (grows max_docs max_bytes cur d room))))
      ]

  -- Each group has a document, and either is a single document, of any size, or keeps the limit on
  -- the number of documents and the limit on their size.
  pub split_batches-Fits :
      (docs : List Doc) (max_docs max_bytes : ℕ)
      → All (Fits max_docs max_bytes) (split_batches json_size docs max_docs max_bytes)
  unfolding split_batches
  split_batches-Fits docs max_docs max_bytes = split_from-Fits max_docs max_bytes [] docs (inl refl)
