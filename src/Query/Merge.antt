-- ===== src/Query/Merge.antt =====
-- app/service.go: localThenRemoteMerge, parallelMerge and quorumMerge. Besides what the engine meets, a call
-- is given the outcome of queryLocalDB, annotated or not, and the schedule of dedupResults.
pub mod Sources
use optimusdb.Base.{
  ℕ, ◌+◌, Bool, true, false, not, ◌&&◌, ◌||◌, Option, List, [], ◌∷◌, ◌++◌, if◌then◌else◌, length,
}
use optimusdb.Base.Text.{Str, codes, str_eq}
use optimusdb.Document.{Fields}
use optimusdb.Base.Int.{ℤ, pos, ltb_ℤ}
use optimusdb.Query.Local.{Result, ok, failed}
use optimusdb.Query.Cache.{SimpleCache}
use optimusdb.Query.Rows.{Schedule, dedup_results}
use optimusdb.Query.Engine.{Surroundings, annotate, query_remote}
use optimusdb.Query.Peers.{rows_of_chunk}

-- fmt.Errorf("local and remote failed: ...")
pub data MergeError (Err : Type 0) : Type 0 where
  both_failed : Err → Err → MergeError Err

pub record QueryOptions : Type 0 where
  pub strategy : Str
  pub consistency : Str
  pub time_budget_ms : ℤ
  pub quorum_n : ℤ
  pub min_rows : ℤ
  pub max_peers : ℤ
  pub include_local : Bool
  pub annotate_source : Bool
  pub force_remote : Bool

module _ {F : Type 0} where
  unfoldable pub annotate_if : Bool → List (Fields F) → Str → Str → Str → List (Fields F)
  annotate_if true items source peer_id strategy = annotate items source peer_id strategy
  annotate_if false items source peer_id strategy = items

  -- `opt.MinRows <= 0 || len(local) >= opt.MinRows`
  unfoldable pub suffices : ℤ → List (Fields F) → Bool
  suffices min_rows rows = not (ltb_ℤ (pos 0) min_rows) || not (ltb_ℤ (pos (length rows)) min_rows)

  unfoldable pub is_empty : List (Fields F) → Bool
  is_empty [] = true
  is_empty (r ∷ rows) = false

  unfoldable pub stops_locally : QueryOptions → List (Fields F) → Bool
  stops_locally opt local =
      not opt.force_remote && (not (is_empty local) && suffices opt.min_rows local)

  -- quorumMerge's test after an answer
  unfoldable pub enough : QueryOptions → ℤ → ℕ → List (Fields F) → Bool
  enough opt quorum_n got_peers collected =
      str_eq opt.consistency (codes "QUORUM") && not (ltb_ℤ (pos got_peers) quorum_n)
      || ltb_ℤ (pos 0) opt.min_rows && not (ltb_ℤ (pos (length collected)) opt.min_rows)

unfoldable pub quorum_or_two : ℤ → ℤ
quorum_or_two quorum_n = if ltb_ℤ (pos 0) quorum_n then quorum_n else pos 2

module _ {F Err : Type 0} (hash_of : Fields F → Str) (sched : Schedule (Fields F)) where
  unfoldable pub merged_or_failed :
      Result Err (List (Fields F))
      → Result Err (List (Fields F))
      → Result (MergeError Err) (List (Fields F))
  merged_or_failed (failed lerr) (failed rerr) = failed (both_failed lerr rerr)
  merged_or_failed (failed lerr) (ok remote) = ok (dedup_results hash_of sched remote)
  merged_or_failed (ok local) (failed rerr) = ok (dedup_results hash_of sched local)
  merged_or_failed (ok local) (ok remote) = ok (dedup_results hash_of sched (local ++ remote))

  unfoldable pub marked_local :
      Bool → Bool → Str → Result Err (List (Fields F)) → Result Err (List (Fields F))
  marked_local false annotate_source strategy local = ok []
  marked_local true annotate_source strategy (failed lerr) = failed lerr
  marked_local true annotate_source strategy (ok local) =
      ok (annotate_if annotate_source local (codes "local") [] strategy)

  -- the loop of quorumMerge over the chunks, each with the id of its peer
  unfoldable pub collect_chunks :
      QueryOptions
      → ℤ
      → ℕ
      → List (Fields F)
      → List (Str × Result Err (List (Fields F)))
      → List (Fields F)
  collect_chunks opt quorum_n got_peers collected [] = collected
  collect_chunks opt quorum_n got_peers collected ((id, failed e) ∷ chunks) =
      collect_chunks opt quorum_n got_peers collected chunks
  collect_chunks opt quorum_n got_peers collected ((id, ok rows) ∷ chunks) =
      let after =
        collected ++ annotate_if opt.annotate_source rows (codes "peer") id (codes "QUORUM") in
      let rest = collect_chunks opt quorum_n (got_peers + 1) after chunks in
      if enough opt quorum_n (got_peers + 1) after then after else rest

  -- quorumMerge on the chunks in the order in which the peers answer
  unfoldable pub quorum_merge :
      QueryOptions
      → Result Err (List (Fields F))
      → List (Str × Result Err (List (Fields F)))
      → List (Fields F)
  quorum_merge opt local chunks = dedup_results hash_of sched (
      annotate_if opt.annotate_source (rows_of_chunk local) (codes "local") [] (codes "QUORUM")
      ++ collect_chunks opt (quorum_or_two opt.quorum_n) 0 [] chunks)

  module _ (generate_key : List (Fields F) → Str) (self : Str) where
    unfoldable pub with_remote :
        Result Err (List (Fields F))
        → Option (SimpleCache (List (Fields F))) × Result Err (List (Fields F))
        → Option (SimpleCache (List (Fields F))) × Result (MergeError Err) (List (Fields F))
    with_remote local (engine, remote) = (engine, merged_or_failed local remote)

    unfoldable pub stops_with : QueryOptions → Result Err (List (Fields F)) → Bool
    stops_with opt (failed lerr) = false
    stops_with opt (ok local) = opt.include_local && stops_locally opt local

    unfoldable pub local_then_remote_merge :
        Surroundings F Err
        → Option (SimpleCache (List (Fields F)))
        → List (Fields F)
        → QueryOptions
        → Result Err (List (Fields F))
        → Option (SimpleCache (List (Fields F))) × Result (MergeError Err) (List (Fields F))
    local_then_remote_merge now engine criteria opt local =
        let strategy = codes "LOCAL_THEN_REMOTE_MERGE" in
        let marked = marked_local opt.include_local opt.annotate_source strategy local in
        if stops_with opt marked
        then (engine, ok (rows_of_chunk marked))
        else with_remote marked (
            query_remote hash_of generate_key self now engine criteria opt.annotate_source strategy)

    unfoldable pub parallel_merge :
        Surroundings F Err
        → Option (SimpleCache (List (Fields F)))
        → List (Fields F)
        → QueryOptions
        → Result Err (List (Fields F))
        → Option (SimpleCache (List (Fields F))) × Result (MergeError Err) (List (Fields F))
    parallel_merge now engine criteria opt local =
        let strategy = codes "PARALLEL_MERGE" in
        with_remote (marked_local opt.include_local opt.annotate_source strategy local)
          (query_remote hash_of generate_key self now engine criteria opt.annotate_source strategy)
