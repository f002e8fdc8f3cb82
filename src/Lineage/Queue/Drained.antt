-- ===== src/Lineage/Queue/Drained.antt =====
-- Every job that is queued is processed once, with its latest version.
use mathlib.Core.List.{Memᴰ}
use optimusdb.Base.{
  ◌≡◌, ◌≢◌, refl, sym, ap, ◌∙◌, false, Option, none, some, List, [], ◌∷◌, ◌++◌, length, map, All,
  All-append, arith, Bool-cases, Option-cases, inl, inr,
}
use optimusdb.Base.Text.{Str, str_eq, str_eq_iff, str_eq_refl}
use optimusdb.Base.Dict.{Dict, get, put, remove, get-put, get-remove}
use optimusdb.Lineage.Queue.{
  LineageJob, LineageQueue, key_of, order_with, enqueue_lineage, lineage_worker,
}

abbrev pub NoRepeat : List Str → Type 0
NoRepeat [] = Unit
NoRepeat (k ∷ ks) = All (λ j. j ≢ k) ks × NoRepeat ks

mem-append : (xs ys : List Str) {k : Str} → Memᴰ k xs → Memᴰ k (xs ++ ys)
mem-append [] ys m = elim m [ ]
mem-append (x ∷ xs) ys (Memᴰ.head p) = Memᴰ.head p
mem-append (x ∷ xs) ys (Memᴰ.tail m) = Memᴰ.tail (mem-append xs ys m)

mem_last : (xs : List Str) (k : Str) → Memᴰ k (xs ++ k ∷ [])
mem_last [] k = Memᴰ.head refl
mem_last (x ∷ xs) k = Memᴰ.tail (mem_last xs k)

NoRepeat-append :
    (xs : List Str) (k : Str) → NoRepeat xs → All (λ j. j ≢ k) xs → NoRepeat (xs ++ k ∷ [])
NoRepeat-append [] k h a = (tt, tt)
NoRepeat-append (x ∷ xs) k (h, hs) (ne, a) =
    (All-append (λ j. j ≢ x) xs (k ∷ []) h ((λ e. ne (sym e)), tt), NoRepeat-append xs k hs a)

module _ {Doc : Type 0} where
  -- The order holds the keys of the pending jobs, each once.
  pub record IsQueued (pending : Dict (LineageJob Doc)) (order : List Str) : Type 0 where
    pub once : NoRepeat order
    pub known : All (λ k. get pending k ≢ none) order
    pub ordered : (k : Str) → get pending k ≢ none → Memᴰ k order

  map-remove :
      (pending : Dict (LineageJob Doc)) (key : Str) (order : List Str)
      → All (λ j. j ≢ key) order
      → map (λ k. get (remove pending key) k) order ≡ map (λ k. get pending k) order
  map-remove pending key [] h = refl
  map-remove pending key (k ∷ order) (ne, h) =
      let e : get (remove pending key) k ≡ get pending k =
        ground (arith, get-remove pending key k, str_eq_iff key k) in
      rw e (ap (λ xs. get pending k ∷ xs) (map-remove pending key order h))

  worker_jobs :
      (pending : Dict (LineageJob Doc)) (order : List Str)
      → NoRepeat order
      → let (q, jobs) = lineage_worker (length order) pending order in
        (q.order ≡ []) × (q.running ≡ false) × (jobs ≡ map (λ k. get pending k) order)
  unfolding lineage_worker
  worker_jobs pending [] h = (refl, refl, refl)
  worker_jobs pending (key ∷ order) (ne, h) =
      let (empty, stopped, jobs) = worker_jobs (remove pending key) order h in
      (empty, stopped, ap (λ xs. get pending key ∷ xs) (jobs ∙ map-remove pending key order ne))

  removed_none :
      (pending : Dict (LineageJob Doc)) (key k : Str)
      → get pending k ≡ none
      → get (remove pending key) k ≡ none
  removed_none pending key k h = ground (arith, get-remove pending key k, h)

  worker_adds_none :
      (pending : Dict (LineageJob Doc)) (order : List Str) (k : Str)
      → get pending k ≡ none
      → get (lineage_worker (length order) pending order).0.pending k ≡ none
  unfolding lineage_worker
  worker_adds_none pending [] k h = h
  worker_adds_none pending (key ∷ order) k h =
      worker_adds_none (remove pending key) order k (removed_none pending key k h)

  worker_takes :
      (pending : Dict (LineageJob Doc)) (order : List Str) (k : Str)
      → Memᴰ k order
      → get (lineage_worker (length order) pending order).0.pending k ≡ none
  unfolding lineage_worker
  worker_takes pending [] k m = elim m [ ]
  worker_takes pending (key ∷ order) k (Memᴰ.head same) =
      let taken : get (remove pending key) k ≡ none =
        ground (arith, get-remove pending key k, str_eq_refl key, same) in
      worker_adds_none (remove pending key) order k taken
  worker_takes pending (key ∷ order) k (Memᴰ.tail m) = worker_takes (remove pending key) order k m

  -- From a queue whose order and pending jobs agree, the worker, given as many rounds as keys are queued,
  -- ends with an empty order and no job pending under any key, and processes for each key in its turn the
  -- job that was pending for it.
  pub lineage_worker_drains :
      (pending : Dict (LineageJob Doc)) (order : List Str)
      → IsQueued pending order
      → let (q, jobs) = lineage_worker (length order) pending order in
        (q.order ≡ [])
        × (q.running ≡ false)
        × ((k : Str) → get q.pending k ≡ none)
        × (jobs ≡ map (λ k. get pending k) order)
  lineage_worker_drains pending order h =
      let (empty, stopped, jobs) = worker_jobs pending order h.once in
      (
        empty,
        stopped,
        λ k. elim (Option-cases (get pending k)) [
          | inl missing ↦ worker_adds_none pending order k missing
          | inr (job, there) ↦ worker_takes pending order k (h.ordered k (λ e. ground arith))
        ],
        jobs,
      )

  known-put :
      (pending : Dict (LineageJob Doc)) (key : Str) (job : LineageJob Doc) (order : List Str)
      → All (λ k. get pending k ≢ none) order
      → All (λ k. get (put pending key job) k ≢ none) order
  known-put pending key job [] h = tt
  known-put pending key job (k ∷ order) (a, h) = (stays, known-put pending key job order h)
    where
      stays : get (put pending key job) k ≢ none
      stays e = elim (Bool-cases (str_eq key k)) [
        | inl same ↦ let l : some job ≡ none = rw (get-put pending key k, same) at e in ground arith
        | inr other ↦ a (rw (get-put pending key k, other) at e)
      ]

  unknown_differ :
      (pending : Dict (LineageJob Doc)) (key : Str) (order : List Str)
      → get pending key ≡ none
      → All (λ k. get pending k ≢ none) order
      → All (λ j. j ≢ key) order
  unknown_differ pending key [] e h = tt
  unknown_differ pending key (k ∷ order) e (a, h) =
      ((λ same. a (rw same e)), unknown_differ pending key order e h)

  found-put :
      (pending : Dict (LineageJob Doc)) (key : Str) (job : LineageJob Doc)
      → get (put pending key job) key ≢ none
  found-put pending key job e =
      let l : some job ≡ none = rw (get-put pending key key, str_eq_refl key) at e in ground arith

  ordered-put :
      (pending : Dict (LineageJob Doc)) (key k : Str) (job : LineageJob Doc) (order : List Str)
      → Memᴰ key order
      → (get pending k ≢ none → Memᴰ k order)
      → get (put pending key job) k ≢ none
      → Memᴰ k order
  ordered-put pending key k job order m h found = elim (Bool-cases (str_eq key k)) [
    | inl same ↦ let key_is : key ≡ k = (str_eq_iff key k).0 same in rw key_is at m
    | inr other ↦ h (λ e. found (rw (get-put pending key k, other) e))
  ]

  IsQueued-put :
      (pending : Dict (LineageJob Doc)) (order : List Str) (key : Str) (job : LineageJob Doc)
      (o : Option (LineageJob Doc))
      → get pending key ≡ o
      → IsQueued pending order
      → IsQueued (put pending key job) (order_with order key o)
  unfolding order_with
  IsQueued-put pending order key job none e h = record {
    once = NoRepeat-append order key h.once (unknown_differ pending key order e h.known);
    known =
        All-append (λ k. get (put pending key job) k ≢ none) order (key ∷ [])
          (known-put pending key job order h.known) (found-put pending key job, tt);
    ordered = λ k.
        ordered-put pending key k job (order ++ key ∷ []) (mem_last order key)
          (λ found. mem-append order (key ∷ []) (h.ordered k found));
  }
  IsQueued-put pending order key job (some old) e h = record {
    once = h.once;
    known = known-put pending key job order h.known;
    ordered =
        λ k. ordered-put pending key k job order (h.ordered key (λ e'. ground arith)) (h.ordered k);
  }

  -- Queueing a job keeps the order and the pending jobs in agreement, with no key twice, and the
  -- job that is pending for its key is then this one.
  pub enqueue_lineage-IsQueued :
      (q : LineageQueue Doc) (job : LineageJob Doc)
      → IsQueued q.pending q.order
      → let q' = enqueue_lineage q job in
        IsQueued q'.pending q'.order × (get q'.pending (key_of job) ≡ some job)
  unfolding enqueue_lineage
  enqueue_lineage-IsQueued q job h = (
    IsQueued-put q.pending q.order (key_of job) job (get q.pending (key_of job)) refl h,
    rw (get-put q.pending (key_of job) (key_of job), str_eq_refl (key_of job)) refl,
  )
