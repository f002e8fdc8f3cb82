-- ===== src/Query/Command/ReadOnly.antt =====
-- app/service.go: the query command reads without writing where it gives rows that are stored.
use optimusdb.Base.{
  ℕ, Bool, true, false, Option, none, some, List, [], ◌∷◌, ◌≡◌, inl, inr, refl, sym, ap, ◌∙◌,
  Bool-cases, Option-cases, All,
}
use optimusdb.Base.Text.{Str, codes, str_eq, str_eq_iff}
use optimusdb.Document.{Value, Fields, find, index, value_or_nil, has, as_str}
use optimusdb.Query.Local.{Result, ok, failed}
use optimusdb.Query.Cache.{SimpleCache}
use optimusdb.Query.Rows.{Schedule, id_key, id_of, key_unless_empty}
use optimusdb.Query.Engine.{Surroundings, annotate}
use optimusdb.Query.Merge.{QueryOptions, annotate_if}
use optimusdb.Query.Persist.{
  persist_remote_rows, is_stored, missing_rows, add_missing, write_missing,
}
use optimusdb.Store.Batch.{DocumentStore, Settings}
use optimusdb.Document.Laws.{find-assign}
use optimusdb.Query.Peers.{set_missing, tag_missing, rows_of_chunk}
use optimusdb.Query.Command.{run_query, local_answer, persist_answer}

module _ {F : Type 0} where
  find-set_missing :
      (k j : Str) (v : Value F) (r : Fields F)
      → str_eq k j ≡ false
      → find (set_missing k v r) j ≡ find r j
  unfolding set_missing
  find-set_missing k j v r other = elim (Bool-cases (has r k)) [
    | inl there ↦ rw there refl
    | inr missing ↦ rw missing (find-assign r k j v ∙ rw other refl)
  ]

  id_key-marked :
      (r : Fields F) (source trace : Value F)
      → id_key (set_missing (codes "_trace") trace (set_missing (codes "_source") source r))
        ≡ id_key r
  unfolding id_key id_of index str_eq
  id_key-marked r source trace =
      ap (λ o. key_unless_empty (as_str (value_or_nil o)))
        (find-set_missing (codes "_trace") (codes "_id") trace _ refl
          ∙ find-set_missing (codes "_source") (codes "_id") source r refl)

  -- Each row that has an id is stored.
  unfoldable pub IsHeld : (Str → Bool) → Fields F → Type 0
  IsHeld stored r = (id : Str) → id_key r ≡ some id → stored id ≡ true

  missing_rows-held :
      (stored : Str → Bool) (rows : List (Fields F))
      → All (IsHeld stored) rows
      → missing_rows stored rows ≡ []
  unfolding missing_rows add_missing IsHeld
  missing_rows-held stored [] h = refl
  missing_rows-held stored (r ∷ rows) h = elim (Option-cases (id_key r)) [
    | inl none' ↦ rw none' (missing_rows-held stored rows h.1)
    | inr (id, is) ↦ rw (is, h.0 id is) (missing_rows-held stored rows h.1)
  ]

  tag_missing-IsHeld :
      (stored : Str → Bool) (source trace : Value F) (rows : List (Fields F))
      → All (IsHeld stored) rows
      → All (IsHeld stored) (tag_missing source trace rows)
  unfolding tag_missing IsHeld
  tag_missing-IsHeld stored source trace [] h = tt
  tag_missing-IsHeld stored source trace (r ∷ rows) h = (
    λ id is. h.0 id (sym (id_key-marked r source trace) ∙ is),
    tag_missing-IsHeld stored source trace rows h.1,
  )

  annotate_if-IsHeld :
      (stored : Str → Bool) (marks : Bool) (source peer strategy : Str) (rows : List (Fields F))
      → All (IsHeld stored) rows
      → All (IsHeld stored) (annotate_if marks rows source peer strategy)
  unfolding annotate_if annotate
  annotate_if-IsHeld stored true source peer strategy rows h = tag_missing-IsHeld stored _ _ rows h
  annotate_if-IsHeld stored false source peer strategy rows h = h

run_query-local :
    {F Err : Type 0} (hash_of : Fields F → Str) (sched : Schedule (Fields F))
    (generate_key : List (Fields F) → Str) (self : Str) (now : Surroundings F Err)
    (engine : Option (SimpleCache (List (Fields F)))) (criteria : List (Fields F))
    (opt : QueryOptions) (local : Result Err (List (Fields F)))
    (chunks : List (Str × Result Err (List (Fields F))))
    → opt.strategy ≡ codes "LOCAL_ONLY"
    → run_query hash_of sched generate_key self now engine criteria opt local chunks
      ≡ (engine, local_answer opt local)
unfolding run_query
run_query-local hash_of sched key self now engine criteria opt local chunks only =
    let is : str_eq opt.strategy (codes "LOCAL_ONLY") ≡ true = (str_eq_iff _ _).1 only in rw is refl

module _ {F S Err : Type 0} (store : DocumentStore (Fields F) S Err)
    (json_size : Fields F → Option ℕ) (settings : Settings) (has_key : Option (S → Str → Bool))
    (get_docs : S → Str → Result Err (List (Value F))) where
  persist_answer-held :
      (s : S) (rows : List (Fields F))
      → All (IsHeld (is_stored has_key get_docs s)) rows
      → persist_answer store json_size settings has_key get_docs s (ok rows) ≡ (s, [], none)
  unfolding persist_answer persist_remote_rows write_missing
  persist_answer-held s [] h = refl
  persist_answer-held s (r ∷ rows) h = rw (missing_rows-held _ (r ∷ rows) h) refl

  local_answer-held :
      (s : S) (opt : QueryOptions) (local : Result Err (List (Fields F)))
      → All (IsHeld (is_stored has_key get_docs s)) (rows_of_chunk local)
      → persist_answer store json_size settings has_key get_docs s (local_answer opt local)
        ≡ (s, [], none)
  unfolding local_answer persist_answer rows_of_chunk
  local_answer-held s opt (failed e) h = refl
  local_answer-held s opt (ok rows) h =
      persist_answer-held s _ (annotate_if-IsHeld _ opt.annotate_source _ _ _ rows h)

  -- A query under LOCAL_ONLY gives the same whatever the peers and the clock do, leaves the engine and its cache as they are, and writes nothing,
  -- annotated or not, where the local query fails or each of its rows with an id is stored under that id.
  pub local_query_writes_nothing :
      (hash_of : Fields F → Str) (sched : Schedule (Fields F))
      (generate_key : List (Fields F) → Str) (self : Str) (s : S) (now : Surroundings F Err)
      (engine : Option (SimpleCache (List (Fields F)))) (criteria : List (Fields F))
      (opt : QueryOptions) (local : Result Err (List (Fields F)))
      (chunks : List (Str × Result Err (List (Fields F))))
      → opt.strategy ≡ codes "LOCAL_ONLY"
      → All (IsHeld (is_stored has_key get_docs s)) (rows_of_chunk local)
      → let out = run_query hash_of sched generate_key self now engine criteria opt local chunks in
        ((now' : Surroundings F Err) (chunks' : List (Str × Result Err (List (Fields F))))
          → run_query hash_of sched generate_key self now' engine criteria opt local chunks' ≡ out)
        × (out.0 ≡ engine)
        × (persist_answer store json_size settings has_key get_docs s out.1 ≡ (s, [], none))
  local_query_writes_nothing hash_of sched key self s now engine criteria opt local chunks only h =
      let is = run_query-local hash_of sched key self now engine criteria opt local chunks only in
      (
        λ now' chunks'.
            run_query-local hash_of sched key self now' engine criteria opt local chunks' only
            ∙ sym is,
        ap (λ out. out.0) is,
        ap (λ out. persist_answer store json_size settings has_key get_docs s out.1) is
            ∙ local_answer-held s opt local h,
      )
