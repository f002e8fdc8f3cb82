-- ===== src/Tests/Caches.antt =====
-- The cache of query results.
use optimusdb.Base.{ℕ, ◌≡◌, [], ◌∷◌, arith}
use optimusdb.Base.Text.{Str}
use optimusdb.Query.Cache.{SimpleCache, new_simple_cache, get_cached, set_cached, cleanup}
use optimusdb.Query.Cache.Laws.{Reached, fresh, stored, get_cached-cleanup}

abbrev key_of : ℕ → Str
key_of c = c ∷ []

abbrev filled : SimpleCache ℕ
filled = set_cached key_of (set_cached key_of (new_simple_cache 10) 1 4 44) 8 5 55

filled-Reached : Reached key_of filled
filled-Reached = stored _ 8 5 55 (stored _ 1 4 44 (fresh 10))

get_cached-cleanup_example :
    (get_cached key_of (cleanup filled 12) 15 5).1 ≡ (get_cached key_of filled 15 5).1
get_cached-cleanup_example = get_cached-cleanup key_of filled 12 15 5 filled-Reached (omega arith)
