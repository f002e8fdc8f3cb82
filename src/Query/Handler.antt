-- ===== src/Query/Handler.antt =====
-- app/query_handler.go: handleQueryStream from the decoded message to the rows that it sends. The local
-- query is the argument `local_rows`, which has no rows where queryLocalDB gives an error, `self` is the
-- node's id as text, and `local_first` tells which part of PARALLEL_MERGE is ready first.
pub mod Forwarded
use optimusdb.Base.{
  ◌+◌, Bool, true, false, ◌&&◌, Option, none, some, List, [], ◌∷◌, ◌++◌, if◌then◌else◌,
}
use optimusdb.Base.Text.{Str, codes, str_eq}
use optimusdb.Document.{Value, null, arr, Items, nil, cons, Fields, index, as_str, as_obj}
use optimusdb.Base.Int.{ℤ, pos, ltb_ℤ}
use optimusdb.Query.Rows.{dedupe_by_id}
use optimusdb.Query.Options.{QOptions, contains_str, source_value, tag_rows, parse_options}
use optimusdb.Query.Peers.{Network, query_peers_limited, query_peers_until_quorum}

unfoldable pub keep_str : Option Str → List Str → List Str
keep_str none path = path
keep_str (some s) path = s ∷ path

unfoldable pub str_or_empty : Option Str → Str
str_or_empty none = []
str_or_empty (some s) = s

module _ {F : Type 0} where
  unfoldable pub keep_obj : Option (Fields F) → List (Fields F) → List (Fields F)
  keep_obj none criteria = criteria
  keep_obj (some m) criteria = m ∷ criteria

  unfoldable pub objs_of : Items F → List (Fields F)
  objs_of nil = []
  objs_of (cons v items) = keep_obj (as_obj v) (objs_of items)

  unfoldable pub strs_of : Items F → List Str
  strs_of nil = []
  strs_of (cons v items) = keep_str (as_str v) (strs_of items)

  -- `msg["criteria"].([]interface{})` with the loop over it
  unfoldable pub criteria_of : Value F → List (Fields F)
  criteria_of (arr items) = objs_of items
  criteria_of _ = []

  unfoldable pub path_of : Value F → List Str
  path_of (arr items) = strs_of items
  path_of _ = []

  unfoldable pub is_null : Value F → Bool
  is_null null = true
  is_null _ = false

-- the defaults after parseOptions; `bare` where the message has neither "options" nor "include_local"
unfoldable pub with_defaults : Bool → QOptions → QOptions
with_defaults bare opts =
    let o1 =
      if ltb_ℤ (pos 0) opts.time_budget_ms
      then opts
      else record opts { time_budget_ms = pos 2000 } in
    let o2 = if ltb_ℤ o1.max_peers (pos 0) then record o1 { max_peers = pos 0 } else o1 in
    if bare then record o2 { include_local = true } else o2

module _ {F Peer Err : Type 0} (to_int : F → ℤ) (net : Network F Peer Err)
    (local_rows : List (Fields F) → List (Fields F)) (self : Str) (local_first : Bool) where
  unfoldable pub tagged_local : Bool → List (Fields F) → Str → List Str → List (Fields F)
  tagged_local false criteria trace_id path = []
  tagged_local true criteria trace_id path =
      tag_rows (local_rows criteria) (source_value (codes "local") self path) trace_id path

  unfoldable pub in_turn : Bool → List (Fields F) → List (Fields F) → List (Fields F)
  in_turn true l r = l ++ r
  in_turn false l r = r ++ l

  unfoldable pub then_remote : List (Fields F) → List (Fields F) → Bool → List (Fields F)
  then_remote [] remote force = dedupe_by_id remote
  then_remote (l ∷ local) remote force =
      if force then dedupe_by_id (l ∷ local ++ remote) else l ∷ local

  -- the switch on the strategy
  unfoldable pub run_strategy : QOptions → List (Fields F) → Str → List Str → List (Fields F)
  run_strategy opts criteria trace_id path =
      let local = tagged_local opts.include_local criteria trace_id path in
      let remote = query_peers_limited net criteria trace_id path opts in
      let quorum = query_peers_until_quorum net criteria trace_id path opts in
      if str_eq opts.strategy (codes "REMOTE_ONLY")
      then remote
      else if str_eq opts.strategy (codes "PARALLEL_MERGE")
      then dedupe_by_id (in_turn local_first local remote)
      else if str_eq opts.strategy (codes "QUORUM")
      then dedupe_by_id (local ++ quorum)
      else if str_eq opts.strategy (codes "LOCAL_THEN_REMOTE_MERGE")
      then then_remote local remote opts.force_remote
      else local

  unfoldable pub options_of : Fields F → QOptions
  options_of msg =
      with_defaults
        (is_null (index msg (codes "options")) && is_null (index msg (codes "include_local")))
        (parse_options to_int msg)

  unfoldable pub handle_criteria : Fields F → List (Fields F) → List (Fields F)
  handle_criteria msg [] = []
  handle_criteria msg (c ∷ criteria) =
      let trace_id = str_or_empty (as_str (index msg (codes "trace_id"))) in
      let trace_path = path_of (index msg (codes "trace_path")) in
      if contains_str trace_path self
      then []
      else run_strategy (options_of msg) (c ∷ criteria) trace_id (trace_path ++ self ∷ [])

  -- `none` is a message that is no JSON object
  unfoldable pub handle_query_stream : Option (Fields F) → List (Fields F)
  handle_query_stream none = []
  handle_query_stream (some msg) = handle_criteria msg (criteria_of (index msg (codes "criteria")))
