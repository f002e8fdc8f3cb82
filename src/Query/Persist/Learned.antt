-- ===== src/Query/Persist/Learned.antt =====
-- app/query_fastpath.go: which rows learned from peers are written.
use optimusdb.Base.{
  ℕ, Bool, false, Option, none, some, List, [], ◌∷◌, ◌≡◌, inl, inr, refl, ap, arith, Bool-cases,
  Option-cases, All,
}
use optimusdb.Base.Text.{Str, codes, str_eq}
use optimusdb.Document.{Value, str, Fields, find, index, value_or_nil, as_str}
use mathlib.Core.List.{Sublistᴰ}
use mathlib.Core.Option.{some-injective}
use optimusdb.Document.Laws.{find-delete}
use optimusdb.Query.Local.{Result}
use optimusdb.Query.Rows.{id_key, id_of, key_unless_empty}
use optimusdb.Store.Batch.{DocumentStore, Settings}
use optimusdb.Store.Batch.Stored.{NoneSame, Keeps, Faithful, nothing-Extends}
use optimusdb.Store.Commit.Answers.{put_documents-Faithful}
use optimusdb.Query.Persist.{
  is_stored, without_annotations, add_missing, missing_rows, write_missing, persist_remote_rows,
}

module _ {F : Type 0} where
  -- A document with an id that is not stored yet, and without annotations.
  unfoldable pub IsLearned : (Str → Bool) → Fields F → Type 0
  IsLearned stored d =
      (id : Str) × ((find d (codes "_id") ≡ some (str id))
        × ((stored id ≡ false)
            × ((find d (codes "_source") ≡ none) × (find d (codes "_trace") ≡ none))))

  text_of_value :
      (o : Option (Value F)) (id : Str)
      → key_unless_empty (as_str (value_or_nil o)) ≡ some id
      → o ≡ some (str id)
  unfolding key_unless_empty as_str value_or_nil
  text_of_value none id h = ground arith
  text_of_value (some (str t)) id h = elim (Bool-cases (str_eq t [])) [
    | inl empty ↦ let bad : none ≡ some id = rw empty at h in ground arith
    | inr given ↦ ap (λ s. some (str s)) (some-injective _ _ (rw given at h))
  ]
  text_of_value (some _) id h = ground arith

  find-id_key :
      (row : Fields F) (id : Str) → id_key row ≡ some id → find row (codes "_id") ≡ some (str id)
  unfolding id_key id_of index
  find-id_key row id h = text_of_value (find row (codes "_id")) id h

  without_annotations-IsLearned :
      (stored : Str → Bool) (row : Fields F) (id : Str)
      → id_key row ≡ some id
      → stored id ≡ false
      → IsLearned stored (without_annotations row)
  unfolding IsLearned without_annotations str_eq
  without_annotations-IsLearned stored row id h new = (
    id,
    (
      rw (find-delete, find-delete) (find-id_key row id h),
      (new, (rw (find-delete, find-delete) refl, rw find-delete refl)),
    ),
  )

  missing_rows-IsLearned :
      (stored : Str → Bool) (rows : List (Fields F))
      → All (IsLearned stored) (missing_rows stored rows)
  unfolding missing_rows add_missing
  missing_rows-IsLearned stored [] = tt
  missing_rows-IsLearned stored (row ∷ rows) =
      let rest = missing_rows-IsLearned stored rows in
      elim (Option-cases (id_key row)) [
        | inl none' ↦ rw none' rest
        | inr (id, h) ↦ elim (Bool-cases (stored id)) [
          | inl there ↦ rw (h, there) rest
          | inr new ↦ rw (h, new) (without_annotations-IsLearned stored row id h new, rest)
        ]
      ]

module _ {F S Err K : Type 0} (store : DocumentStore (Fields F) S Err) (key : Fields F → K)
    (holds : S → Fields F → Type 0) (keeps : Keeps store key holds)
    (json_size : Fields F → Option ℕ) (settings : Settings) where
  write_missing-Faithful :
      (s : S) (missing : List (Fields F))
      → NoneSame key missing
      → Faithful holds s missing (write_missing store json_size settings s missing)
  unfolding write_missing
  write_missing-Faithful s [] differ = record {
    asked = Sublistᴰ.slnil;
    kept = tt;
    extends = nothing-Extends s;
    complete = λ fine. refl;
  }
  write_missing-Faithful s (d ∷ missing) differ =
      put_documents-Faithful store key holds keeps json_size settings s (d ∷ missing) differ

  -- Where no two of the rows that are not stored yet have one key, persistRemoteRows reports as stored some
  -- of them, in their order, each with an operation in the log that puts it, and all where it reports no
  -- error; the log has lost nothing and puts no other new document. Each of the rows has an id that was not
  -- stored before and no "_source" or "_trace".
  pub persist_remote_rows-IsLearned :
      (has_key : Option (S → Str → Bool)) (get_docs : S → Str → Result Err (List (Value F))) (s : S)
      (rows : List (Fields F))
      → let stored = is_stored has_key get_docs s in
        NoneSame key (missing_rows stored rows)
        → Faithful holds s
            (missing_rows stored rows)
            (persist_remote_rows store json_size settings has_key get_docs s rows)
          × All (IsLearned stored) (missing_rows stored rows)
  unfolding persist_remote_rows
  persist_remote_rows-IsLearned has_key get_docs s rows differ =
      (write_missing-Faithful s _ differ, missing_rows-IsLearned _ rows)
