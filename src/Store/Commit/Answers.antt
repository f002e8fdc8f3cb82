-- ===== src/Store/Commit/Answers.antt =====
-- What the answers of the group commit say.
use Prim.Native.Nat.{zero, suc}
use mathlib.Core.Path.{subst}
use mathlib.Core.List.{Sublistᴰ}
use optimusdb.Base.{All, All-append}
use optimusdb.Base.{
  ℕ, ◌≡◌, ◌≤◌, refl, sym, ap, not, ◌&&◌, Option, none, some, List, [], ◌∷◌, ◌++◌, arith, Bool-cases,
  inl, inr, length, ◌==◌, leb,
}
use optimusdb.Store.Batch.{
  note_put, DocumentStore, Settings, last_error, split_batches, collect, put_batches,
  put_documents_batched,
}
use optimusdb.Store.Batch.Split.{concat-split_batches}
use optimusdb.Store.Batch.Stored.{
  nothing-Sublistᴰ, NoneSame, append-NoneSame, Extends, Keeps, Faithful, nothing-Extends,
  append-Extends, again-Extends, kept-Extends, put_one_by_one-Faithful, put_batches-Faithful,
}
use optimusdb.Store.Commit.{
  take_chunk, Answered, and_then, put_each, accept_all, settle_chunk, write_chunk, write_from,
  write, put_many_coalesced, put_documents,
}
use optimusdb.Base.{length-append}
use optimusdb.Base.{suc}
use optimusdb.Base.{◌≢◌}
use optimusdb.Store.Commit.Chunks.{take_chunk-append, length-take_chunk}

-- the documents that were answered without an error
unfoldable pub accepted : {Doc Err : Type 0} → List Doc → List (Option Err) → List Doc
accepted [] answers = []
accepted (d ∷ docs) [] = []
accepted (d ∷ docs) (none ∷ answers) = d ∷ accepted docs answers
accepted (d ∷ docs) (some e ∷ answers) = accepted docs answers

pub accepted-Sublistᴰ :
    {Doc Err : Type 0} (docs : List Doc) (answers : List (Option Err))
    → Sublistᴰ (accepted docs answers) docs
unfolding accepted
accepted-Sublistᴰ [] answers = Sublistᴰ.slnil
accepted-Sublistᴰ (d ∷ docs) [] = Sublistᴰ.cons (nothing-Sublistᴰ docs)
accepted-Sublistᴰ (d ∷ docs) (none ∷ answers) =
    Sublistᴰ.cons-cons refl (accepted-Sublistᴰ docs answers)
accepted-Sublistᴰ (d ∷ docs) (some e ∷ answers) = Sublistᴰ.cons (accepted-Sublistᴰ docs answers)

accepted-append :
    {Doc Err : Type 0} (docs : List Doc) (answers : List (Option Err)) (more : List Doc)
    (later : List (Option Err))
    → length answers ≡ length docs
    → accepted (docs ++ more) (answers ++ later) ≡ (accepted docs answers ++ accepted more later)
unfolding accepted
accepted-append [] [] more later e = refl
accepted-append [] (a ∷ answers) more later e = ground arith
accepted-append (d ∷ docs) [] more later e = ground arith
accepted-append (d ∷ docs) (none ∷ answers) more later e =
    ap (λ xs. d ∷ xs) (accepted-append docs answers more later (omega arith))
accepted-append (d ∷ docs) (some x ∷ answers) more later e =
    accepted-append docs answers more later (omega arith)

-- Every request has one answer, the documents answered without an error are in the log, and the log has no
-- other new document than those of the requests.
pub record AnswersFor {Doc S Err : Type 0} (holds : S → Doc → Type 0) (s : S) (docs : List Doc)
    (r : Answered S Err) : Type 0 where
  pub each : length r.1 ≡ length docs
  pub kept : All (holds r.0) (accepted docs r.1)
  pub extends : Extends holds s docs r.0

module _ {Doc S Err K : Type 0} (store : DocumentStore Doc S Err) (key : Doc → K)
    (holds : S → Doc → Type 0) (keeps : Keeps store key holds) where
  open store use {put, put_all}

  and_then-AnswersFor :
      (s : S) (r q : Answered S Err) (docs more : List Doc)
      → AnswersFor holds s docs r
      → AnswersFor holds r.0 more q
      → AnswersFor holds s (docs ++ more) (and_then store r q)
  unfolding and_then
  and_then-AnswersFor s (s', answers) (s'', later) docs more h k = record {
    each = omega (arith, length-append answers later, length-append docs more, h.each, k.each);
    kept = rw (accepted-append docs answers more later h.each) (
        All-append (holds s'') (accepted docs answers) (accepted more later)
          (kept-Extends more (accepted docs answers) k.extends h.kept) k.kept);
    extends = append-Extends docs more h.extends k.extends;
  }

  put-AnswersFor : (s : S) (d : Doc) → AnswersFor holds s (d ∷ []) ((put s d).0, (put s d).1 ∷ [])
  put-AnswersFor s d = go (put s d).1 refl
    where
      go : (e : Option Err) → (put s d).1 ≡ e → AnswersFor holds s (d ∷ []) ((put s d).0, e ∷ [])
      go none ok = record {
        each = refl;
        kept = unfold accepted in (keeps.put_kept s d ok, tt);
        extends = keeps.put_extends s d;
      }
      go (some e) bad = record {
        each = refl;
        kept = unfold accepted in tt;
        extends = keeps.put_extends s d;
      }

  nothing : (s : S) → AnswersFor {Err = Err} holds s [] (s, [])
  unfolding accepted
  nothing s = record { each = refl; kept = tt; extends = nothing-Extends s }

  put_each-AnswersFor : (s : S) (docs : List Doc) → AnswersFor holds s docs (put_each store s docs)
  unfolding put_each
  put_each-AnswersFor s [] = nothing s
  put_each-AnswersFor s (d ∷ docs) =
      and_then-AnswersFor s ((put s d).0, (put s d).1 ∷ []) (put_each store (put s d).0 docs)
        (d ∷ []) docs (put-AnswersFor s d) (put_each-AnswersFor (put s d).0 docs)

  accept_all-accepted :
      (docs : List Doc)
      → (length (accept_all store docs) ≡ length docs)
        × (accepted docs (accept_all store docs) ≡ docs)
  unfolding accept_all accepted
  accept_all-accepted [] = (refl, refl)
  accept_all-accepted (d ∷ docs) =
      let (n, all) = accept_all-accepted docs in (omega (arith, n), ap (λ xs. d ∷ xs) all)

  write_chunk-AnswersFor :
      (s : S) (chunk : List Doc)
      → NoneSame key chunk
      → AnswersFor holds s chunk (write_chunk store s chunk)
  write_chunk-AnswersFor s chunk differ = elim (Bool-cases (length chunk == 1)) [
    | inl one ↦ unfold write_chunk in rw one (put_each-AnswersFor s chunk)
    | inr many ↦ unfold write_chunk in rw many (go (put_all s chunk).1 refl)
  ]
    where
      go :
          (e : Option Err)
          → (put_all s chunk).1 ≡ e
          → AnswersFor holds s chunk (settle_chunk store (put_all s chunk).0 chunk e)
      go none ok =
          let (n, all) = accept_all-accepted chunk in
          record {
            each = unfold settle_chunk in n;
            kept = unfold settle_chunk in rw all (keeps.put_all_kept s chunk differ ok);
            extends = unfold settle_chunk in keeps.put_all_extends s chunk;
          }
      go (some e) bad =
          let h = put_each-AnswersFor (put_all s chunk).0 chunk in
          record {
            each = unfold settle_chunk in h.each;
            kept = unfold settle_chunk in h.kept;
            extends =
                unfold settle_chunk in
                again-Extends chunk (keeps.put_all_extends s chunk) h.extends;
          }

  write_from-AnswersFor :
      (json_size : Doc → Option ℕ) (settings : Settings) (rounds : ℕ) (s : S) (batch : List Doc)
      → length batch ≤ rounds
      → NoneSame key batch
      → AnswersFor holds s batch (write_from store json_size settings rounds s batch)
  unfolding write_from
  write_from-AnswersFor json_size settings zero s [] h differ = nothing s
  write_from-AnswersFor json_size settings (suc rounds) s [] h differ = nothing s
  write_from-AnswersFor json_size settings zero s (r ∷ batch) h differ = ground arith
  write_from-AnswersFor json_size settings (suc rounds) s (r ∷ batch) h differ =
      let (chunk, rest) =
        take_chunk json_size settings.batch_max_docs settings.batch_max_bytes 0 0 (r ∷ batch) in
      let whole =
        take_chunk-append json_size settings.batch_max_docs settings.batch_max_bytes 0 0
          (r ∷ batch) in
      let (first, later) =
        append-NoneSame key chunk rest (subst (NoneSame key) (sym whole) differ) in
      subst
        (λ docs. AnswersFor holds s docs (
          and_then store (write_chunk store s chunk)
            (write_from store json_size settings rounds (write_chunk store s chunk).0 rest)))
        whole
        (and_then-AnswersFor s (write_chunk store s chunk) _ chunk rest
          (write_chunk-AnswersFor s chunk first)
          (write_from-AnswersFor json_size settings rounds (write_chunk store s chunk).0 rest
            (omega (
              arith,
              length-take_chunk json_size settings.batch_max_docs settings.batch_max_bytes r batch,
            ))
            later))

  write-AnswersFor :
      (json_size : Doc → Option ℕ) (settings : Settings) (s : S) (batch : List Doc)
      → NoneSame key batch
      → AnswersFor holds s batch (write store json_size settings s batch)
  unfolding write
  write-AnswersFor json_size settings s batch differ =
      write_from-AnswersFor json_size settings (length batch) s batch (omega arith) differ

  pub put_many_coalesced-AnswersFor :
      (json_size : Doc → Option ℕ) (settings : Settings) (s : S) (docs : List Doc)
      → NoneSame key docs
      → AnswersFor holds s docs (put_many_coalesced store json_size settings s docs)
  unfolding put_many_coalesced
  put_many_coalesced-AnswersFor json_size settings s docs differ =
      elim (Bool-cases settings.group_commit_enabled) [
        | inl on ↦ simp on (write-AnswersFor json_size settings s docs differ)
        | inr off ↦ simp off (put_each-AnswersFor s docs)
      ]

  failed_last : (x : Err) (later : Option Err) → last_error (some x) later ≢ none
  unfolding last_error
  failed_last x none e = ground arith
  failed_last x (some l) e = ground arith

  collect-stored :
      (s : S) (docs : List Doc) (answers : List (Option Err))
      → length answers ≡ length docs
      → let w = collect store s docs answers in
        (w.0 ≡ s) × (w.1 ≡ accepted docs answers) × (w.2 ≡ none → w.1 ≡ docs)
  unfolding collect accepted note_put
  collect-stored s [] [] e = (refl, refl, λ ok. refl)
  collect-stored s [] (a ∷ answers) e = ground arith
  collect-stored s (d ∷ docs) [] e = ground arith
  collect-stored s (d ∷ docs) (none ∷ answers) e =
      let (same, stored, complete) = collect-stored s docs answers (omega arith) in
      (same, ap (λ xs. d ∷ xs) stored, λ ok. ap (λ xs. d ∷ xs) (complete ok))
  collect-stored s (d ∷ docs) (some x ∷ answers) e =
      let (same, stored, complete) = collect-stored s docs answers (omega arith) in
      (same, stored, λ ok. absurd (failed_last x _ ok))

  collected-Faithful :
      (s : S) (docs : List Doc) (r : Answered S Err)
      → AnswersFor holds s docs r
      → Faithful holds s docs (collect store r.0 docs r.1)
  collected-Faithful s docs (s', answers) h =
      let (same, stored, complete) = collect-stored s' docs answers h.each in
      record {
        asked = rw stored (accepted-Sublistᴰ docs answers);
        kept = rw (same, stored) h.kept;
        extends = rw same h.extends;
        complete = complete;
      }

  -- Under every setting, writing documents with different keys is faithful, where no other caller writes
  -- and the context is not cancelled: the documents that are said to be stored are some of the documents, in
  -- their order, each with an operation in the log that puts it, and all of them where no error is returned;
  -- the log has lost nothing and puts no new document but these, also where a call of the store fails
  -- half-way.
  pub put_documents-Faithful :
      (json_size : Doc → Option ℕ) (settings : Settings) (s : S) (docs : List Doc)
      → NoneSame key docs
      → Faithful holds s docs (put_documents store json_size settings s docs)
  unfolding put_documents put_documents_batched
  put_documents-Faithful json_size settings s docs differ =
      let batches = split_batches json_size docs settings.batch_max_docs settings.batch_max_bytes in
      let whole =
        concat-split_batches json_size docs settings.batch_max_docs settings.batch_max_bytes in
      elim (Bool-cases (not settings.batch_put_enabled)) [
        | inl off ↦ simp off (put_one_by_one-Faithful store key holds keeps s docs)
        | inr on ↦
            elim (Bool-cases
              (settings.group_commit_enabled && leb (length docs) settings.group_commit_max_docs)) [
                | inl few ↦
                    simp (on, few)
                      (collected-Faithful s docs _
                        (put_many_coalesced-AnswersFor json_size settings s docs differ))
                | inr many ↦
                    simp (on, many)
                      (subst (λ d. Faithful holds s d (put_batches store s batches)) whole
                        (put_batches-Faithful store key holds keeps s batches
                          (subst (NoneSame key) (sym whole) differ)))
              ]
      ]
