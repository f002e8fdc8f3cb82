-- ===== src/Query/Command.antt =====
-- app/service.go: the query command of handleRequest, with its options, its strategies and the persisting of
-- rows. What queryLocalDB gives and what peers answer to quorumMerge are arguments; the command is at
-- the point after the answer as stored JSON, which `takes_raw` tells when it is tried.
pub mod ReadOnly
use optimusdb.Base.{
  ℕ, Bool, true, false, not, ◌&&◌, ◌||◌, Option, none, some, List, [], ◌∷◌, if◌then◌else◌,
}
use optimusdb.Base.Text.{Str, codes, str_eq}
use optimusdb.Document.{Value, Fields, bool_eq}
use optimusdb.Base.Int.{ℤ, pos, ltb_ℤ}
use optimusdb.Query.Local.{Result, ok, failed}
use optimusdb.Query.Cache.{SimpleCache}
use optimusdb.Query.Rows.{Schedule}
use optimusdb.Query.Engine.{Surroundings, query_remote, engine_of}
use optimusdb.Query.Merge.{
  QueryOptions, MergeError, annotate_if, parallel_merge, local_then_remote_merge, quorum_merge,
}
use optimusdb.Query.Persist.{persist_remote_rows}
use optimusdb.Store.Batch.{DocumentStore, Settings, Written}

abbrev pub default_query_options : QueryOptions
default_query_options = record {
  strategy = codes "LOCAL_THEN_REMOTE_MERGE";
  consistency = codes "BEST_EFFORT";
  time_budget_ms = pos 1200;
  quorum_n = pos 0;
  min_rows = pos 0;
  max_peers = pos 0;
  include_local = true;
  annotate_source = true;
  force_remote = false;
}

unfoldable pub text_or : Str → Str → Str
text_or s d = if str_eq s [] then d else s

unfoldable pub positive_or : ℤ → ℤ → ℤ
positive_or n d = if ltb_ℤ (pos 0) n then n else d

-- the shallow override by the options of the request
unfoldable pub query_options : Option QueryOptions → QueryOptions
query_options none = default_query_options
query_options (some o) = record {
  strategy = text_or o.strategy (codes "LOCAL_THEN_REMOTE_MERGE");
  consistency = text_or o.consistency (codes "BEST_EFFORT");
  time_budget_ms = positive_or o.time_budget_ms (pos 1200);
  quorum_n = positive_or o.quorum_n (pos 0);
  min_rows = positive_or o.min_rows (pos 0);
  max_peers = positive_or o.max_peers (pos 0);
  include_local = o.include_local || bool_eq o.include_local true;
  annotate_source = not (bool_eq o.annotate_source false);
  force_remote = o.force_remote;
}

unfoldable pub takes_raw : Bool → QueryOptions → Bool
takes_raw raw_ok opt =
    raw_ok
    && (not opt.annotate_source
        && (not opt.force_remote
            && (not (ltb_ℤ (pos 0) opt.min_rows)
                && (opt.include_local
                    && (str_eq opt.strategy (codes "LOCAL_ONLY")
                        || str_eq opt.strategy (codes "LOCAL_THEN_REMOTE_MERGE"))))))

pub data QueryError (Err : Type 0) : Type 0 where
  local_failed : Err → QueryError Err
  peers_failed : Err → QueryError Err
  merge_failed : MergeError Err → QueryError Err

module _ {F Err : Type 0} where
  unfoldable pub local_answer :
      QueryOptions → Result Err (List (Fields F)) → Result (QueryError Err) (List (Fields F))
  local_answer opt (failed e) = failed (local_failed e)
  local_answer opt (ok rows) =
      ok (annotate_if opt.annotate_source rows (codes "local") [] (codes "LOCAL_ONLY"))

  unfoldable pub merge_answer :
      Result (MergeError Err) (List (Fields F)) → Result (QueryError Err) (List (Fields F))
  merge_answer (failed e) = failed (merge_failed e)
  merge_answer (ok rows) = ok rows

module _ {F Err : Type 0} (hash_of : Fields F → Str) (sched : Schedule (Fields F))
    (generate_key : List (Fields F) → Str) (self : Str) where
  unfoldable pub from_peers :
      Option (SimpleCache (List (Fields F))) × Result Err (List (Fields F))
      → Option (SimpleCache (List (Fields F))) × Result (QueryError Err) (List (Fields F))
  from_peers (engine, failed e) = (engine, failed (peers_failed e))
  from_peers (engine, ok rows) = (engine, ok rows)

  unfoldable pub from_merge :
      Option (SimpleCache (List (Fields F))) × Result (MergeError Err) (List (Fields F))
      → Option (SimpleCache (List (Fields F))) × Result (QueryError Err) (List (Fields F))
  from_merge (engine, r) = (engine, merge_answer r)

  -- the switch on the strategy
  unfoldable pub run_query :
      Surroundings F Err
      → Option (SimpleCache (List (Fields F)))
      → List (Fields F)
      → QueryOptions
      → Result Err (List (Fields F))
      → List (Str × Result Err (List (Fields F)))
      → Option (SimpleCache (List (Fields F))) × Result (QueryError Err) (List (Fields F))
  run_query now engine criteria opt local chunks =
      let remote =
        query_remote hash_of generate_key self now engine criteria opt.annotate_source
          (codes "REMOTE_ONLY") in
      let parallel = parallel_merge hash_of sched generate_key self now engine criteria opt local in
      let merged =
        local_then_remote_merge hash_of sched generate_key self now engine criteria opt local in
      if str_eq opt.strategy (codes "LOCAL_ONLY")
      then (engine, local_answer opt local)
      else if str_eq opt.strategy (codes "REMOTE_ONLY")
      then from_peers remote
      else if str_eq opt.strategy (codes "PARALLEL_MERGE")
      then from_merge parallel
      else if str_eq opt.strategy (codes "QUORUM")
      then (some (engine_of engine), ok (quorum_merge hash_of sched opt local chunks))
      else from_merge merged

module _ {F S Err : Type 0} (store : DocumentStore (Fields F) S Err)
    (json_size : Fields F → Option ℕ) (settings : Settings) (has_key : Option (S → Str → Bool))
    (get_docs : S → Str → Result Err (List (Value F))) where
  -- persistRemoteRows where the answer has rows
  unfoldable pub persist_answer :
      S → Result (QueryError Err) (List (Fields F)) → Written (Fields F) S Err
  persist_answer s (failed e) = (s, [], none)
  persist_answer s (ok []) = (s, [], none)
  persist_answer s (ok (r ∷ rows)) =
      persist_remote_rows store json_size settings has_key get_docs s (r ∷ rows)
