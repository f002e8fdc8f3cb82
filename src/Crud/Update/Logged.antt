-- ===== src/Crud/Update/Logged.antt =====
-- app/service.go: what an update writes, over a store that keeps a log of its writes.
use optimusdb.Base.{
  ℕ, Option, none, some, List, [], ◌∷◌, ◌≡◌, refl, ap, ◌∙◌, arith, length, map, All,
}
use optimusdb.Base.Text.{Str}
use optimusdb.Base.Float.{Float64}
use optimusdb.Document.{Value, Fields}
use optimusdb.Query.Match.{Library}
use mathlib.Core.List.{Sublistᴰ}
use optimusdb.Base.{length-map}
use optimusdb.Query.Local.{ok, DocumentReader, id_only_filter}
use optimusdb.Lineage.Queue.{LineageQueue}
use optimusdb.Store.Batch.{DocumentStore, Settings}
use optimusdb.Store.Commit.{put_many_coalesced}
use optimusdb.Store.Commit.Answers.{accepted, accepted-Sublistᴰ, put_many_coalesced-AnswersFor}
use optimusdb.Store.Batch.Stored.{NoneSame, Extends, Keeps, nothing-Extends}
use optimusdb.Crud.Update.{
  updated_docs, count_accepted, first_error, Outcome, matched_docs, settle_update, write_updated,
  update_matched, crud_update_doc_store,
}

count_accepted-length :
    {Doc Err : Type 0} (docs : List Doc) (errs : List (Option Err))
    → length errs ≡ length docs
    → count_accepted errs ≡ length (accepted docs errs)
unfolding count_accepted accepted
count_accepted-length [] [] e = refl
count_accepted-length [] (x ∷ errs) e = ground arith
count_accepted-length (d ∷ docs) [] e = ground arith
count_accepted-length (d ∷ docs) (none ∷ errs) e =
    omega (arith, count_accepted-length docs errs (omega arith))
count_accepted-length (d ∷ docs) (some x ∷ errs) e = count_accepted-length docs errs (omega arith)

first_error-none :
    {F Err : Type 0} (docs : List (Str × Fields F)) (errs : List (Option Err))
    → length errs ≡ length docs
    → first_error docs errs ≡ none
    → accepted (map (λ d. d.1) docs) errs ≡ map (λ d. d.1) docs
unfolding first_error accepted
first_error-none [] errs e h = refl
first_error-none (d ∷ docs) [] e h = ground arith
first_error-none (d ∷ docs) (none ∷ errs) e h =
    ap (◌∷◌ d.1) (first_error-none docs errs (omega arith) h)
first_error-none ((id, d) ∷ docs) (some x ∷ errs) e h = ground arith

module _ (fl : Float64) (lib : Library fl.Float) (print_float : fl.Float → Str)
    (print_value : Value fl.Float → Str) {S Err : Type 0}
    (reader : DocumentReader S (Value fl.Float) Err) (store : DocumentStore (Fields fl.Float) S Err)
    {K : Type 0} (key : Fields fl.Float → K) (holds : S → Fields fl.Float → Type 0)
    (keeps : Keeps store key holds) (json_size : Fields fl.Float → Option ℕ) (settings : Settings)
    (store_name : Str) where
  open fl use {Float}

  -- What the update of the documents `docs` has written, beside what it returns.
  unfoldable pub Wrote : S → List (Fields Float) → Outcome Float S Err → Type 0
  Wrote s docs out =
      (stored : List (Fields Float)) × (Sublistᴰ stored docs
        × (All (holds out.state) stored
            × (Extends holds s docs out.state
                × ((out.count ≡ length stored) × (out.error ≡ none → stored ≡ docs)))))

  write_updated-Wrote :
      (s : S) (q : LineageQueue (Fields Float)) (docs : List (Str × Fields Float))
      → NoneSame key (map (λ d. d.1) docs)
      → Wrote s (map (λ d. d.1) docs) (
          write_updated fl lib print_float print_value reader store json_size settings store_name s
            q docs)
  unfolding write_updated settle_update Wrote
  write_updated-Wrote s q docs differ =
      let written = map (λ d. d.1) docs in
      let answers = put_many_coalesced store json_size settings s written in
      let h =
        put_many_coalesced-AnswersFor store key holds keeps json_size settings s written differ in
      (
        accepted written answers.1,
        (
          accepted-Sublistᴰ written answers.1,
          (
            h.kept,
            (
              h.extends,
              (
                count_accepted-length written answers.1 h.each,
                first_error-none docs answers.1 (h.each ∙ length-map (λ d. d.1) docs),
              ),
            ),
          ),
        ),
      )

  -- Where the lookup by id, or else the query, gives the documents `matched`, and no two of their updated
  -- versions have one key, an update returns; its count is that of some of the updated documents, in their
  -- order, each with an operation in the log that puts it, and all of them where there is no error; the log
  -- has lost nothing and puts no new document but these, also where a call of the store fails half-way.
  pub crud_update_doc_store-Wrote :
      (s : S) (q : LineageQueue (Fields Float)) (now_text : Str) (filter updates : Fields Float)
      (criteria update_data : List (Fields Float)) (matched : List (Value Float))
      → matched_docs fl lib print_float print_value reader store json_size settings store_name s
          filter
          (id_only_filter filter)
        ≡ some (ok matched)
      → NoneSame key
          (map (λ d. d.1) (updated_docs print_float print_value updates now_text matched))
      → (out : Outcome Float S Err) × ((crud_update_doc_store fl lib print_float print_value reader
              store json_size settings store_name s q now_text
              (filter ∷ criteria)
              (updates ∷ update_data)
            ≡ some out)
          × Wrote s
              (map (λ d. d.1) (updated_docs print_float print_value updates now_text matched))
              out)
  unfolding crud_update_doc_store update_matched updated_docs Wrote
  crud_update_doc_store-Wrote s q now_text filter updates criteria update_data [] h differ =
      rw h (_, (refl, ([], (Sublistᴰ.slnil, (tt, (nothing-Extends s, (refl, λ e. refl)))))))
  crud_update_doc_store-Wrote s q now_text filter updates criteria update_data (d ∷ matched) h
        differ =
      rw h (_, (refl, write_updated-Wrote s q _ differ))
