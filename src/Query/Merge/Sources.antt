-- ===== src/Query/Merge/Sources.antt =====
-- app/service.go: what the merged answers of queries are made of.
use optimusdb.Base.{
  ℕ, Bool, true, false, Option, none, some, List, [], ◌∷◌, arith, ◌++◌, if◌then◌else◌, ◌≡◌, refl,
  ◌==◌, length,
}
use optimusdb.Base.Text.{Str, codes}
use optimusdb.Document.{Fields}
use mathlib.Core.List.{Permᴰ}
use optimusdb.Query.Local.{Result, ok, failed}
use optimusdb.Query.Cache.{SimpleCache}
use optimusdb.Query.Rows.{Schedule, dedup_results, item_key}
use optimusdb.Query.Rows.Unique.{with_key, dedup_results-one}
use optimusdb.Query.Engine.{
  Surroundings, others, annotate_remote, keep_results, ask_pool, query_with_worker_pool, or_ask,
  engine_query, query_remote,
}
use optimusdb.Query.Merge.{
  QueryOptions, local_then_remote_merge, parallel_merge, with_remote, merged_or_failed,
  marked_local, stops_with,
}
use optimusdb.Query.Peers.{rows_of_chunk}

either-ok :
    {A B E : Type 0} (b : Bool) (engine : A) (rows : B) (p : A × Result E B)
    → (other : B) × (p.1 ≡ ok other)
    → (given : B) × ((if b then (engine, ok rows) else p).1 ≡ ok given)
either-ok true engine rows p h = (rows, refl)
either-ok false engine rows p h = h

module _ {F Err : Type 0} where
  unfoldable pub IsOk : Result Err (List (Fields F)) → Type 0
  IsOk r = (rows : List (Fields F)) × (r ≡ ok rows)

module _ {F Err : Type 0} (hash_of : Fields F → Str) (sched : Schedule (Fields F))
    (generate_key : List (Fields F) → Str) (self : Str) where
  with_remote-ok :
      (local : Result Err (List (Fields F)))
      (remote : Option (SimpleCache (List (Fields F))) × Result Err (List (Fields F)))
      → IsOk remote.1
      → (with_remote hash_of sched generate_key self local remote).1
        ≡ ok (dedup_results hash_of sched (rows_of_chunk local ++ rows_of_chunk remote.1))
  unfolding with_remote merged_or_failed rows_of_chunk IsOk
  with_remote-ok (ok rows) (engine, ok remote) fine = refl
  with_remote-ok (failed e) (engine, ok remote) fine = refl
  with_remote-ok local (engine, failed e) (rows, bad) = ground arith

  annotate_remote-IsOk :
      (marks : Bool) (strategy : Str) (criteria : List (Fields F))
      (found : SimpleCache (List (Fields F)) × Result Err (List (Fields F)))
      → IsOk found.1
      → IsOk (annotate_remote generate_key marks strategy criteria found).1
  unfolding annotate_remote IsOk
  annotate_remote-IsOk true strategy criteria (sc, ok rows) fine = (_, refl)
  annotate_remote-IsOk false strategy criteria (sc, ok rows) fine = (rows, refl)
  annotate_remote-IsOk marks strategy criteria (sc, failed e) (rows, bad) = ground arith

  keep_results-IsOk :
      (sc : SimpleCache (List (Fields F))) (at : ℕ) (criteria rows : List (Fields F))
      → (r : Result Err (List (Fields F))) → r ≡ ok rows
      → IsOk (keep_results generate_key sc at criteria r).1
  unfolding keep_results IsOk
  keep_results-IsOk sc at criteria rows (failed e) h = ground arith
  keep_results-IsOk sc at criteria rows (ok []) h = ([], refl)
  keep_results-IsOk sc at criteria rows (ok (r ∷ more)) h = (r ∷ more, refl)

  or_ask-IsOk :
      (now : Surroundings F Err) (criteria : List (Fields F))
      (p : SimpleCache (List (Fields F)) × Option (List (Fields F)))
      → IsOk (or_ask hash_of generate_key self now criteria p).1
  unfolding or_ask ask_pool query_with_worker_pool IsOk
  or_ask-IsOk now criteria (sc, some cached) = (cached, refl)
  or_ask-IsOk now criteria (sc, none) = asked (others self now.peerstore)
    where
      asked : (peers : List Str) → IsOk (ask_pool hash_of generate_key self now sc criteria peers).1
      asked [] = ([], refl)
      asked (p ∷ peers) = keep_results-IsOk sc now.stored_at criteria _ _ refl

  -- The worker pool drops what the peers that fail answer, so no query of the peers fails.
  query_remote-IsOk :
      (now : Surroundings F Err) (engine : Option (SimpleCache (List (Fields F))))
      (criteria : List (Fields F)) (marks : Bool) (strategy : Str)
      → IsOk (query_remote hash_of generate_key self now engine criteria marks strategy).1
  unfolding query_remote engine_query
  query_remote-IsOk now engine criteria marks strategy =
      annotate_remote-IsOk marks strategy criteria _ (or_ask-IsOk now criteria _)

  -- Neither localThenRemoteMerge nor parallelMerge gives an error, whatever the local query and the peers
  -- do: also where the local query fails and no peer answers.
  pub merges_never_fail :
      (now : Surroundings F Err) (engine : Option (SimpleCache (List (Fields F))))
      (criteria : List (Fields F)) (opt : QueryOptions) (local : Result Err (List (Fields F)))
      → ((rows : List (Fields F)) × ((local_then_remote_merge hash_of sched generate_key self now
              engine criteria opt local).1
            ≡ ok rows))
        × ((rows : List (Fields F)) × ((parallel_merge hash_of sched generate_key self now engine
                criteria opt local).1
              ≡ ok rows))
  unfolding local_then_remote_merge parallel_merge
  merges_never_fail now engine criteria opt local = (
    either-ok (stops_with hash_of sched generate_key self opt _) _ _ _
        (_, with_remote-ok _ _ (query_remote-IsOk now engine criteria _ _)),
    (_, with_remote-ok _ _ (query_remote-IsOk now engine criteria _ _)),
  )

  -- Over fair schedules, parallelMerge gives rows of which, for each key (the string "_id", or else the
  -- hash of the row), exactly one has the key where one of the local or the remote rows has, and else none.
  pub parallel_merge-one :
      (now : Surroundings F Err) (engine : Option (SimpleCache (List (Fields F))))
      (criteria : List (Fields F)) (opt : QueryOptions) (local : Result Err (List (Fields F)))
      → ((xs : List (Fields F)) → Permᴰ xs (sched.asked xs))
      → ((xs : List (Fields F)) → Permᴰ xs (sched.sent xs))
      → let strategy = codes "PARALLEL_MERGE" in
        let mine =
          rows_of_chunk
            (marked_local hash_of sched opt.include_local opt.annotate_source strategy local) in
        let theirs =
          rows_of_chunk
            (query_remote hash_of generate_key self now engine criteria opt.annotate_source
              strategy).1 in
        (rows : List (Fields F)) × (((parallel_merge hash_of sched generate_key self now engine
              criteria opt local).1
            ≡ ok rows)
          × ((key : Str)
              → length (with_key (item_key hash_of) key rows) ≡ (
                  if length (with_key (item_key hash_of) key (mine ++ theirs)) == 0 then 0 else 1)))
  unfolding parallel_merge
  parallel_merge-one now engine criteria opt local asks sends = (
    _,
    (
      with_remote-ok _ _ (query_remote-IsOk now engine criteria _ _),
      λ key. dedup_results-one hash_of sched _ key asks sends,
    ),
  )
