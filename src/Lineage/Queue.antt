-- ===== src/Lineage/Queue.antt =====
-- app/lineage_queue.go: lineageQ with enqueueLineage and lineageWorker. The key of a job is its
-- store's name and its document's id, joined by a zero byte. The worker takes one job under the lock
-- in each round; where the key has no job, Go gives the zero job, which is `none` here.
pub mod Drained
use optimusdb.Base.{ℕ, zero, suc, Bool, true, false, Option, none, some, List, [], ◌∷◌, ◌++◌}
use optimusdb.Base.Text.{Str}
use optimusdb.Base.Dict.{Dict, get, put, remove}

pub record LineageJob (Doc : Type 0) : Type 0 where
  pub doc : Doc
  pub store_name : Str
  pub doc_id : Str

pub record LineageQueue (Doc : Type 0) : Type 0 where
  pub pending : Dict (LineageJob Doc)
  pub order : List Str
  pub running : Bool

module _ {Doc : Type 0} where
  unfoldable pub key_of : LineageJob Doc → Str
  key_of job = job.store_name ++ 0 ∷ job.doc_id

  unfoldable pub order_with : List Str → Str → Option (LineageJob Doc) → List Str
  order_with order key none = order ++ key ∷ []
  order_with order key (some _) = order

  unfoldable pub enqueue_lineage : LineageQueue Doc → LineageJob Doc → LineageQueue Doc
  enqueue_lineage q job = record {
    pending = put q.pending (key_of job) job;
    order = order_with q.order (key_of job) (get q.pending (key_of job));
    running = true;
  }

  -- The loop of the worker for as many rounds, with the jobs that it processes.
  unfoldable pub lineage_worker :
      ℕ → Dict (LineageJob Doc) → List Str → LineageQueue Doc × List (Option (LineageJob Doc))
  lineage_worker rounds pending [] = (record { pending = pending; order = []; running = false }, [])
  lineage_worker zero pending (key ∷ order) =
      (record { pending = pending; order = key ∷ order; running = true }, [])
  lineage_worker (suc rounds) pending (key ∷ order) =
      let (q, jobs) = lineage_worker rounds (remove pending key) order in
      (q, get pending key ∷ jobs)
