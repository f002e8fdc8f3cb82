-- ===== src/Query/Engine.antt =====
-- queryengine/engine.go: OptimizedEngine.Query over the cache and the worker pool, and app/service.go:
-- annotate, queryRemote, queryPeersOptimized. The rows of an answer and those that the cache holds are the
-- same Go maps, so that annotating the one annotates the other. The engine of a node is `none` until its
-- first query. `answers` gives the results of the asked peers in the order in which the workers send them.
pub mod Repeated
use optimusdb.Base.{ℕ, Bool, true, false, Option, none, some, List, [], ◌∷◌, if◌then◌else◌}
use optimusdb.Base.Text.{Str, codes, str_eq}
use optimusdb.Base.Dict.{Dict, get, put}
use optimusdb.Document.{Value, str, obj, Fields, end, field}
use optimusdb.Query.Local.{Result, ok, failed}
use optimusdb.Query.Cache.{CacheEntry, SimpleCache, new_simple_cache, get_cached, set_cached}
use optimusdb.Query.Rows.{collect_results}
use optimusdb.Query.Peers.{tag_missing}

unfoldable pub others : Str → List Str → List Str
others self [] = []
others self (p ∷ peers) = let rest = others self peers in if str_eq p self then rest else p ∷ rest

-- 10 minutes, in nanoseconds as the clock of the cache
abbrev pub cache_ttl : ℕ
cache_ttl = 600000000000

-- what one call of Query meets: the clock when it asks the cache and when it stores, the peerstore, and the
-- answers of the peers
pub record Surroundings (F Err : Type 0) : Type 0 where
  pub asked_at : ℕ
  pub stored_at : ℕ
  pub peerstore : List Str
  pub answers : List Str → List (Result Err (List (Fields F)))

module _ {F : Type 0} where
  unfoldable pub source_of : Str → Str → Value F
  source_of source peer_id =
      obj (field (codes "type") (str source) (field (codes "peer_id") (str peer_id) end))

  unfoldable pub strategy_trace : Str → Value F
  strategy_trace strategy = obj (field (codes "strategy") (str strategy) end)

  unfoldable pub annotate : List (Fields F) → Str → Str → Str → List (Fields F)
  annotate items source peer_id strategy =
      tag_missing (source_of source peer_id) (strategy_trace strategy) items

module _ {F : Type 0} where
  unfoldable pub replace_entry :
      Dict (CacheEntry (List (Fields F)))
      → Str
      → List (Fields F)
      → Option (CacheEntry (List (Fields F)))
      → Dict (CacheEntry (List (Fields F)))
  replace_entry entries key rows none = entries
  replace_entry entries key rows (some e) = put entries key (record e { data_of = rows })

  -- `if kb.QueryEngine == nil { kb.QueryEngine = queryengine.NewOptimizedEngine(...) }`
  unfoldable pub engine_of : Option (SimpleCache (List (Fields F))) → SimpleCache (List (Fields F))
  engine_of none = new_simple_cache cache_ttl
  engine_of (some sc) = sc

module _ {F : Type 0} (generate_key : List (Fields F) → Str) where
  unfoldable pub keep_results :
      {Err : Type 0}
      → SimpleCache (List (Fields F))
      → ℕ
      → List (Fields F)
      → Result Err (List (Fields F))
      → SimpleCache (List (Fields F)) × Result Err (List (Fields F))
  keep_results sc stored_at criteria (failed e) = (sc, failed e)
  keep_results sc stored_at criteria (ok []) = (sc, ok [])
  keep_results sc stored_at criteria (ok (r ∷ results)) =
      (set_cached generate_key sc stored_at criteria (r ∷ results), ok (r ∷ results))

  -- the rows that the cache holds for the criteria, after they are annotated
  unfoldable pub write_through :
      SimpleCache (List (Fields F))
      → List (Fields F)
      → List (Fields F)
      → SimpleCache (List (Fields F))
  write_through sc criteria [] = sc
  write_through sc criteria (r ∷ rows) =
      let key = generate_key criteria in
      record sc { entries = replace_entry sc.entries key (r ∷ rows) (get sc.entries key) }

  unfoldable pub annotate_remote :
      {Err : Type 0}
      → Bool
      → Str
      → List (Fields F)
      → SimpleCache (List (Fields F)) × Result Err (List (Fields F))
      → Option (SimpleCache (List (Fields F))) × Result Err (List (Fields F))
  annotate_remote marks strategy criteria (sc, failed e) = (some sc, failed e)
  annotate_remote false strategy criteria (sc, ok rows) = (some sc, ok rows)
  annotate_remote true strategy criteria (sc, ok rows) =
      let marked = annotate rows (codes "peer") [] strategy in
      (some (write_through sc criteria marked), ok marked)

module _ {F Err : Type 0} (hash_of : Fields F → Str) (generate_key : List (Fields F) → Str)
    (self : Str) where
  -- QueryWithWorkerPool
  unfoldable pub query_with_worker_pool :
      Surroundings F Err → List Str → Result Err (List (Fields F))
  query_with_worker_pool now [] = ok []
  query_with_worker_pool now (p ∷ peers) = ok (collect_results hash_of (now.answers (p ∷ peers)))

  unfoldable pub ask_pool :
      Surroundings F Err
      → SimpleCache (List (Fields F))
      → List (Fields F)
      → List Str
      → SimpleCache (List (Fields F)) × Result Err (List (Fields F))
  ask_pool now sc criteria [] = (sc, ok [])
  ask_pool now sc criteria (p ∷ peers) =
      keep_results generate_key sc now.stored_at criteria (query_with_worker_pool now (p ∷ peers))

  unfoldable pub or_ask :
      Surroundings F Err
      → List (Fields F)
      → SimpleCache (List (Fields F)) × Option (List (Fields F))
      → SimpleCache (List (Fields F)) × Result Err (List (Fields F))
  or_ask now criteria (sc, some cached) = (sc, ok cached)
  or_ask now criteria (sc, none) = ask_pool now sc criteria (others self now.peerstore)

  -- OptimizedEngine.Query
  unfoldable pub engine_query :
      Surroundings F Err
      → SimpleCache (List (Fields F))
      → List (Fields F)
      → SimpleCache (List (Fields F)) × Result Err (List (Fields F))
  engine_query now sc criteria =
      or_ask now criteria (get_cached generate_key sc now.asked_at criteria)

  unfoldable pub query_remote :
      Surroundings F Err
      → Option (SimpleCache (List (Fields F)))
      → List (Fields F)
      → Bool
      → Str
      → Option (SimpleCache (List (Fields F))) × Result Err (List (Fields F))
  query_remote now engine criteria annotate_source strategy =
      annotate_remote generate_key annotate_source strategy criteria
        (engine_query now (engine_of engine) criteria)
