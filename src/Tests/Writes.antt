-- ===== src/Tests/Writes.antt =====
-- Batches, and the writer of a store.
use mathlib.Core.List.{Memᴰ}
use optimusdb.Base.Text.{codes}
use optimusdb.Base.{◌++◌, ◌==◌, ◌⊎◌, inl, inr, none, Bool-cases}
use optimusdb.Base.{ℕ, ◌≡◌, refl, Option, some, List, [], ◌∷◌, arith, concat, All}
use optimusdb.Store.Batch.{split_batches}
use optimusdb.Store.Batch.Split.{Fits, concat-split_batches, split_batches-Fits}
use optimusdb.Store.Batch.Stored.{NoneSame, Extends, Keeps, Faithful, mem-left, mem-right}
use optimusdb.Store.Commit.{put_documents}
use optimusdb.Store.Commit.Answers.{put_documents-Faithful}
use optimusdb.Tests.Fixtures.{store, settings, has_seven}

abbrev size_of : ℕ → Option ℕ
size_of d = some d

abbrev docs : List ℕ
docs = 60 ∷ 60 ∷ 1 ∷ 7 ∷ 120 ∷ []

split_run :
    split_batches size_of docs 2 100 ≡ (60 ∷ []) ∷ (60 ∷ 1 ∷ []) ∷ (7 ∷ []) ∷ (120 ∷ []) ∷ []
unfolding split_batches optimusdb.Store.Batch.is_full optimusdb.Store.Batch.doc_size
split_run = refl

concat-split_batches_example : concat (split_batches size_of docs 2 100) ≡ docs
concat-split_batches_example = concat-split_batches size_of docs 2 100

split_batches-Fits_example : All (Fits size_of 2 100) (split_batches size_of docs 2 100)
split_batches-Fits_example = split_batches-Fits size_of docs 2 100

abbrev same : ℕ → ℕ
same d = d

abbrev Logged : List ℕ → ℕ → Type 0
Logged s d = Memᴰ d s

split-mem : {A : Type 0} {x : A} (xs ys : List A) → Memᴰ x (xs ++ ys) → Memᴰ x xs ⊎ Memᴰ x ys
split-mem [] ys m = inr m
split-mem (z ∷ xs) ys (Memᴰ.head p) = inl (Memᴰ.head p)
split-mem (z ∷ xs) ys (Memᴰ.tail m) = elim (split-mem xs ys m) [
  | inl before ↦ inl (Memᴰ.tail before)
  | inr new ↦ inr new
]

All-mem : {A : Type 0} {P : A → Type 0} (xs : List A) → ((x : A) → Memᴰ x xs → P x) → All P xs
All-mem [] f = tt
All-mem (x ∷ xs) f = (f x (Memᴰ.head refl), All-mem xs (λ y m. f y (Memᴰ.tail m)))

pub last-Extends : {A : Type 0} (s more : List A) → Extends (λ s d. Memᴰ d s) s more (s ++ more)
last-Extends s more = record { added = λ x m. split-mem s more m; stays = λ x m. mem-left s more m }

same-Extends : (s more : List ℕ) → Extends Logged s more s
same-Extends s more = record { added = λ x m. inl m; stays = λ x m. m }

pub last-Logged : {A : Type 0} (s more : List A) → All (λ d. Memᴰ d (s ++ more)) more
last-Logged s more = All-mem more (λ x m. mem-right s more m)

store-Keeps : Keeps store same Logged
store-Keeps = record {
  put_kept = λ s d ok. elim (Bool-cases (d == 7)) [
    | inl bad ↦ let no : some (codes "bad") ≡ none = rw bad at ok in ground arith
    | inr fine ↦ rw fine ((last-Logged s (d ∷ [])).0)
  ];
  put_extends = λ s d. elim (Bool-cases (d == 7)) [
    | inl bad ↦ rw bad (same-Extends s (d ∷ []))
    | inr fine ↦ rw fine (last-Extends s (d ∷ []))
  ];
  put_all_kept = λ s docs differ ok. elim (Bool-cases (has_seven docs)) [
    | inl bad ↦ let no : some (codes "bad") ≡ none = rw bad at ok in ground arith
    | inr fine ↦ rw fine (last-Logged s docs)
  ];
  put_all_extends = λ s docs. elim (Bool-cases (has_seven docs)) [
    | inl bad ↦ rw bad (same-Extends s docs)
    | inr fine ↦ rw fine (last-Extends s docs)
  ];
}

abbrev keyed_docs : List ℕ
keyed_docs = 60 ∷ 1 ∷ 7 ∷ 120 ∷ []

keyed_docs-NoneSame : NoneSame same keyed_docs
unfolding NoneSame
keyed_docs-NoneSame = (
  ((λ e. ground arith), ((λ e. ground arith), ((λ e. ground arith), tt))),
  (((λ e. ground arith), ((λ e. ground arith), tt)), (((λ e. ground arith), tt), (tt, tt))),
)

put_documents-Faithful_example :
    Faithful Logged [] keyed_docs (put_documents store size_of settings [] keyed_docs)
put_documents-Faithful_example =
    put_documents-Faithful store same Logged store-Keeps size_of settings [] keyed_docs
      keyed_docs-NoneSame
