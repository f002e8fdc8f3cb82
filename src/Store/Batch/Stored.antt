-- ===== src/Store/Batch/Stored.antt =====
-- What is stored, and what the error that is returned says.
use mathlib.Core.List.{Memᴰ, Sublistᴰ}
use optimusdb.Base.{
  ◌≡◌, ◌≢◌, ◌⊎◌, inl, inr, refl, ap, Option, none, some, List, [], ◌∷◌, ◌++◌, arith, concat, All,
  All-append,
}
use optimusdb.Store.Batch.{
  note_put, settle_batch, join_written, DocumentStore, Written, last_error, put_one_by_one,
  put_batch, put_batches,
}

pub whole-Sublistᴰ : {A : Type 0} (xs : List A) → Sublistᴰ xs xs
whole-Sublistᴰ [] = Sublistᴰ.slnil
whole-Sublistᴰ (x ∷ xs) = Sublistᴰ.cons-cons refl (whole-Sublistᴰ xs)

pub nothing-Sublistᴰ : {A : Type 0} (xs : List A) → Sublistᴰ [] xs
nothing-Sublistᴰ [] = Sublistᴰ.slnil
nothing-Sublistᴰ (x ∷ xs) = Sublistᴰ.cons (nothing-Sublistᴰ xs)

pub append-Sublistᴰ :
    {A : Type 0} {xs ys vs ws : List A}
    → Sublistᴰ xs ys
    → Sublistᴰ vs ws
    → Sublistᴰ (xs ++ vs) (ys ++ ws)
append-Sublistᴰ Sublistᴰ.slnil q = q
append-Sublistᴰ (Sublistᴰ.cons-cons e p) q = Sublistᴰ.cons-cons e (append-Sublistᴰ p q)
append-Sublistᴰ (Sublistᴰ.cons p) q = Sublistᴰ.cons (append-Sublistᴰ p q)

-- No two of the documents have the same key.
unfoldable pub NoneSame : {A K : Type 0} → (A → K) → List A → Type 0
NoneSame key [] = Unit
NoneSame key (d ∷ docs) = All (λ x. key x ≢ key d) docs × NoneSame key docs

All-split : {A : Type 0} (P : A → Type 0) (xs ys : List A) → All P (xs ++ ys) → All P xs × All P ys
All-split P [] ys h = (tt, h)
All-split P (x ∷ xs) ys (p, h) = let (a, b) = All-split P xs ys h in ((p, a), b)

pub append-NoneSame :
    {A K : Type 0} (key : A → K) (xs ys : List A)
    → NoneSame key (xs ++ ys)
    → NoneSame key xs × NoneSame key ys
unfolding NoneSame
append-NoneSame key [] ys h = (tt, h)
append-NoneSame key (x ∷ xs) ys (differ, h) =
    let (a, b) = All-split (λ y. key y ≢ key x) xs ys differ in
    let (p, q) = append-NoneSame key xs ys h in ((a, p), q)

All-map :
    {A : Type 0} {P Q : A → Type 0} (xs : List A) → ((x : A) → P x → Q x) → All P xs → All Q xs
All-map [] f h = tt
All-map (x ∷ xs) f (p, h) = (f x p, All-map xs f h)

pub mem-left : {A : Type 0} {x : A} (xs ys : List A) → Memᴰ x xs → Memᴰ x (xs ++ ys)
mem-left [] ys m = elim m [ ]
mem-left (y ∷ xs) ys (Memᴰ.head p) = Memᴰ.head p
mem-left (y ∷ xs) ys (Memᴰ.tail m) = Memᴰ.tail (mem-left xs ys m)

pub mem-right : {A : Type 0} {x : A} (xs ys : List A) → Memᴰ x ys → Memᴰ x (xs ++ ys)
mem-right [] ys m = m
mem-right (y ∷ xs) ys m = Memᴰ.tail (mem-right xs ys m)

-- The log of `s'` has what that of `s` has, and beside it only some of the documents.
pub record Extends {Doc S : Type 0} (holds : S → Doc → Type 0) (s : S) (docs : List Doc) (s' : S)
    : Type 0 where
  pub added : (x : Doc) → holds s' x → holds s x ⊎ Memᴰ x docs
  pub stays : (x : Doc) → holds s x → holds s' x

-- What the application relies on of a store, where `holds` says that its log has an operation which puts
-- the document: a write that succeeds has put its documents, several of them where no two have one key,
-- and any write, also one that fails half-way, puts no other document and takes nothing from the log.
pub record Keeps {Doc S Err K : Type 0} (store : DocumentStore Doc S Err) (key : Doc → K)
    (holds : S → Doc → Type 0) : Type 0 where
  pub put_kept : (s : S) (d : Doc) → (store.put s d).1 ≡ none → holds (store.put s d).0 d
  pub put_extends : (s : S) (d : Doc) → Extends holds s (d ∷ []) (store.put s d).0
  pub put_all_kept :
      (s : S) (docs : List Doc)
      → NoneSame key docs
      → (store.put_all s docs).1 ≡ none
      → All (holds (store.put_all s docs).0) docs
  pub put_all_extends : (s : S) (docs : List Doc) → Extends holds s docs (store.put_all s docs).0

-- The outcome of writing `docs` from `s`: what is said to be stored are some of the documents, in their
-- order, each of them in the log; the log has nothing else that is new; and all is stored where no error
-- is returned.
pub record Faithful {Doc S Err : Type 0} (holds : S → Doc → Type 0) (s : S) (docs : List Doc)
    (w : Written Doc S Err) : Type 0 where
  pub asked : Sublistᴰ w.1 docs
  pub kept : All (holds w.0) w.1
  pub extends : Extends holds s docs w.0
  pub complete : w.2 ≡ none → w.1 ≡ docs

module _ {Doc S : Type 0} {holds : S → Doc → Type 0} where
  pub nothing-Extends : (s : S) → Extends holds s [] s
  nothing-Extends s = record { added = λ x h. inl h; stays = λ x h. h }

  pub append-Extends :
      {s s' s'' : S} (docs more : List Doc)
      → Extends holds s docs s'
      → Extends holds s' more s''
      → Extends holds s (docs ++ more) s''
  append-Extends docs more a b = record {
    added = λ x h. elim (b.added x h) [
      | inl before ↦ elim (a.added x before) [
        | inl first ↦ inl first
        | inr m ↦ inr (mem-left docs more m)
      ]
      | inr m ↦ inr (mem-right docs more m)
    ];
    stays = λ x h. b.stays x (a.stays x h);
  }

  -- the same documents tried again
  pub again-Extends :
      {s s' s'' : S} (docs : List Doc)
      → Extends holds s docs s'
      → Extends holds s' docs s''
      → Extends holds s docs s''
  again-Extends docs a b = record {
    added = λ x h. elim (b.added x h) [ inl before ↦ a.added x before | inr m ↦ inr m ];
    stays = λ x h. b.stays x (a.stays x h);
  }

  pub kept-Extends :
      {s s' : S} (docs more : List Doc)
      → Extends holds s docs s'
      → All (holds s) more
      → All (holds s') more
  kept-Extends docs more a h = All-map more a.stays h

module _ {Doc S Err K : Type 0} (store : DocumentStore Doc S Err) (key : Doc → K)
    (holds : S → Doc → Type 0) (keeps : Keeps store key holds) where
  open store use {put, put_all}

  note_put-Faithful :
      (w : Written Doc S Err) (s : S) (d : Doc) (docs : List Doc) (e : Option Err)
      → (put s d).1 ≡ e
      → Faithful holds (put s d).0 docs w
      → Faithful holds s (d ∷ docs) (note_put store w d e)
  unfolding note_put last_error
  note_put-Faithful (s', stored, later) s d docs none ok h = record {
    asked = Sublistᴰ.cons-cons refl h.asked;
    kept = (h.extends.stays d (keeps.put_kept s d ok), h.kept);
    extends = append-Extends (d ∷ []) docs (keeps.put_extends s d) h.extends;
    complete = λ k. ap (λ xs. d ∷ xs) (h.complete k);
  }
  note_put-Faithful (s', stored, none) s d docs (some e) bad h = record {
    asked = Sublistᴰ.cons h.asked;
    kept = h.kept;
    extends = append-Extends (d ∷ []) docs (keeps.put_extends s d) h.extends;
    complete = λ k. ground arith;
  }
  note_put-Faithful (s', stored, some l) s d docs (some e) bad h = record {
    asked = Sublistᴰ.cons h.asked;
    kept = h.kept;
    extends = append-Extends (d ∷ []) docs (keeps.put_extends s d) h.extends;
    complete = λ k. ground arith;
  }

  pub put_one_by_one-Faithful :
      (s : S) (docs : List Doc) → Faithful holds s docs (put_one_by_one store s docs)
  unfolding put_one_by_one
  put_one_by_one-Faithful s [] = record {
    asked = Sublistᴰ.slnil;
    kept = tt;
    extends = nothing-Extends s;
    complete = λ ok. refl;
  }
  put_one_by_one-Faithful s (d ∷ docs) =
      note_put-Faithful (put_one_by_one store (put s d).0 docs) s d docs (put s d).1 refl
        (put_one_by_one-Faithful (put s d).0 docs)

  put_batch-Faithful :
      (s : S) (batch : List Doc)
      → NoneSame key batch
      → Faithful holds s batch (put_batch store s batch)
  unfolding put_batch settle_batch
  put_batch-Faithful s batch differ = go (put_all s batch).1 refl
    where
      go :
          (e : Option Err)
          → (put_all s batch).1 ≡ e
          → Faithful holds s batch (settle_batch store (put_all s batch).0 batch e)
      go none ok = record {
        asked = whole-Sublistᴰ batch;
        kept = keeps.put_all_kept s batch differ ok;
        extends = keeps.put_all_extends s batch;
        complete = λ k. refl;
      }
      go (some e) bad =
          let h = put_one_by_one-Faithful (put_all s batch).0 batch in
          record {
            asked = h.asked;
            kept = h.kept;
            extends = again-Extends batch (keeps.put_all_extends s batch) h.extends;
            complete = h.complete;
          }

  join_written-Faithful :
      (s : S) (v w : Written Doc S Err) (docs more : List Doc)
      → Faithful holds s docs v
      → Faithful holds v.0 more w
      → Faithful holds s (docs ++ more) (join_written store v w)
  unfolding join_written last_error
  join_written-Faithful s (s', stored, e) (s'', later, l) docs more h k = record {
    asked = append-Sublistᴰ h.asked k.asked;
    kept = All-append (holds s'') stored later (kept-Extends more stored k.extends h.kept) k.kept;
    extends = append-Extends docs more h.extends k.extends;
    complete = complete e l h.complete k.complete;
  }
    where
      complete :
          (e l : Option Err)
          → (e ≡ none → stored ≡ docs)
          → (l ≡ none → later ≡ more)
          → last_error e l ≡ none
          → (stored ++ later) ≡ (docs ++ more)
      complete none none a b ok = rw (a refl, b refl) refl
      complete (some x) none a b ok = ground arith
      complete e (some x) a b ok = ground arith

  -- Writing batches, each of documents with different keys, is faithful, whether PutAll took a batch or its
  -- documents went one by one.
  pub put_batches-Faithful :
      (s : S) (batches : List (List Doc))
      → NoneSame key (concat batches)
      → Faithful holds s (concat batches) (put_batches store s batches)
  unfolding put_batches
  put_batches-Faithful s [] differ = record {
    asked = Sublistᴰ.slnil;
    kept = tt;
    extends = nothing-Extends s;
    complete = λ ok. refl;
  }
  put_batches-Faithful s (batch ∷ batches) differ =
      let (first, rest) = append-NoneSame key batch (concat batches) differ in
      join_written-Faithful s (put_batch store s batch)
        (put_batches store (put_batch store s batch).0 batches) batch (concat batches)
        (put_batch-Faithful s batch first)
        (put_batches-Faithful (put_batch store s batch).0 batches rest)
