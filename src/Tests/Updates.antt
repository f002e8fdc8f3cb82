-- ===== src/Tests/Updates.antt =====
-- The queue of lineage updates.
use optimusdb.Base.{
  ℕ, ◌≡◌, ◌≢◌, false, none, some, refl, sym, inl, inr, Bool-cases, All, List, [], ◌∷◌, length, map,
  arith,
}
use optimusdb.Base.Text.{Str, codes, str_eq, str_eq_iff}
use mathlib.Core.List.{Memᴰ}
use optimusdb.Base.Dict.{Dict, get, get-nil}
use optimusdb.Lineage.Queue.{LineageJob, LineageQueue, key_of, enqueue_lineage, lineage_worker}
use optimusdb.Lineage.Queue.Drained.{IsQueued, lineage_worker_drains, enqueue_lineage-IsQueued}

abbrev job : ℕ → Str → LineageJob ℕ
job version id = record { doc = version; store_name = codes "kb"; doc_id = id }

abbrev empty_queue : LineageQueue ℕ
empty_queue = record { pending = []; order = []; running = false }

empty-IsQueued : IsQueued empty_queue.pending empty_queue.order
empty-IsQueued = record { once = tt; known = tt; ordered = λ k found. absurd (found (get-nil k)) }

enqueue_lineage-IsQueued_example :
    let q = enqueue_lineage empty_queue (job 1 (codes "x")) in
    IsQueued q.pending q.order
    × (get q.pending (key_of (job 1 (codes "x"))) ≡ some (job 1 (codes "x")))
enqueue_lineage-IsQueued_example =
    enqueue_lineage-IsQueued empty_queue (job 1 (codes "x")) empty-IsQueued

abbrev waiting_jobs : Dict (LineageJob ℕ)
waiting_jobs = (codes "p", job 2 (codes "x")) ∷ (codes "q", job 1 (codes "y")) ∷ []

abbrev turns : List Str
turns = codes "q" ∷ codes "p" ∷ []

turns-ordered : (k : Str) → get waiting_jobs k ≢ none → Memᴰ k turns
unfolding get
turns-ordered k found = elim (Bool-cases (str_eq (codes "p") k)) [
  | inl p ↦ Memᴰ.tail (Memᴰ.head (sym ((str_eq_iff (codes "p") k).0 p)))
  | inr other ↦ elim (Bool-cases (str_eq (codes "q") k)) [
    | inl q ↦ Memᴰ.head (sym ((str_eq_iff (codes "q") k).0 q))
    | inr none' ↦ absurd (found (rw (other, none') refl))
  ]
]

turns-known : All (λ k. get waiting_jobs k ≢ none) turns
unfolding get str_eq
turns-known = ((λ e. ground arith), ((λ e. ground arith), tt))

turns-IsQueued : IsQueued waiting_jobs turns
turns-IsQueued = record {
  once = ((differ, tt), (tt, tt));
  known = turns-known;
  ordered = turns-ordered;
}
  where
    differ : codes "p" ≢ codes "q"
    differ e = ground arith

lineage_worker_drains_example :
    let (q, jobs) = lineage_worker (length turns) waiting_jobs turns in
    (q.order ≡ [])
    × (q.running ≡ false)
    × ((k : Str) → get q.pending k ≡ none)
    × (jobs ≡ map (λ k. get waiting_jobs k) turns)
lineage_worker_drains_example = lineage_worker_drains waiting_jobs turns turns-IsQueued
