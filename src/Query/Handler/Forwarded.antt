-- ===== src/Query/Handler/Forwarded.antt =====
-- app/query_handler.go: what a node makes of the request that another node's fan-out sends it.
use optimusdb.Base.{
  Bool, true, map, All, ltb, ◌&&◌, ◌∙◌, List, [], ◌∷◌, ◌++◌, if◌then◌else◌, ◌≡◌, refl, ap,
}
use optimusdb.Base.Text.{Str, codes, str_eq}
use optimusdb.Document.{
  Value, bool, str, arr, obj, Items, nil, cons, end, field, Fields, find, index, value_or_nil,
  as_str, as_obj, as_bool,
}
use optimusdb.Base.Int.{ℤ}
use optimusdb.Query.Options.{
  contains_str, strs, source_value, tag_rows, parse_options, read_options, read_nested,
  default_options,
}
use optimusdb.Query.Handler.{
  objs_of, strs_of, keep_obj, keep_str, handle_criteria, handle_query_stream, criteria_of, path_of,
  str_or_empty, run_strategy, options_of, tagged_local, with_defaults,
}
use optimusdb.Query.Peers.{Network, objs, local_only, request_of, forward_request}
use optimusdb.Query.Options.{as_int}
use optimusdb.Query.Options.{set_strategy}
use optimusdb.Query.Options.{set_force_remote}
use optimusdb.Query.Options.{set_include_local}
use optimusdb.Query.Options.{set_annotate_source}
use optimusdb.Query.Options.{set_time_budget_ms}
use optimusdb.Query.Options.{set_max_peers}
use optimusdb.Query.Options.{set_quorum_n}
use optimusdb.Query.Handler.{is_null}

module _ {F : Type 0} where
  objs_of-objs : (criteria : List (Fields F)) → objs_of (objs criteria) ≡ criteria
  unfolding objs_of objs keep_obj as_obj
  objs_of-objs [] = refl
  objs_of-objs (m ∷ criteria) = ap (◌∷◌ m) (objs_of-objs criteria)

strs_of-strs : (F : Type 0) (path : List Str) → strs_of {F = F} (strs path) ≡ path
unfolding strs_of strs keep_str as_str
strs_of-strs F [] = refl
strs_of-strs F (s ∷ path) = ap (◌∷◌ s) (strs_of-strs F path)

module _ {F : Type 0} where
  unfoldable pub each_item : (Value F → Value F) → Items F → Items F
  each_item wire nil = nil
  each_item wire (cons v items) = cons (wire v) (each_item wire items)

  unfoldable pub each_value : (Value F → Value F) → Fields F → Fields F
  each_value wire end = end
  each_value wire (field k v m) = field k (wire v) (each_value wire m)

  -- Each key of the map passes unchanged.
  unfoldable pub HasKept : (Str → Str) → Fields F → Type 0
  HasKept text end = Unit
  HasKept text (field k v m) = (text k ≡ k) × HasKept text m

unfoldable pub is_ascii : Str → Bool
is_ascii [] = true
is_ascii (c ∷ s) = ltb c 128 && is_ascii s

-- What is relied on of encoding/json between two nodes, where the receiver decodes the value `wire v` of the
-- encoded `v`, and the text `text s` of the string `s`: ASCII texts pass unchanged (others only where they
-- are valid UTF-8), arrays item by item, and maps value by value under the keys that pass.
pub record JsonWire {F : Type 0} (wire : Value F → Value F) (text : Str → Str) : Type 0 where
  pub ascii : (s : Str) → is_ascii s ≡ true → text s ≡ s
  pub of_str : (s : Str) → wire (str s) ≡ str (text s)
  pub of_bool : (b : Bool) → wire (bool b) ≡ bool b
  pub of_arr : (items : Items F) → wire (arr items) ≡ arr (each_item wire items)
  pub of_obj : (m : Fields F) → HasKept text m → wire (obj m) ≡ obj (each_value wire m)

module _ {F : Type 0} (wire : Value F → Value F) (text : Str → Str)
    (json : JsonWire wire text) where
  wire-objs :
      (criteria : List (Fields F))
      → All (λ c. wire (obj c) ≡ obj c) criteria
      → each_item wire (objs criteria) ≡ objs criteria
  unfolding each_item objs
  wire-objs [] h = refl
  wire-objs (c ∷ criteria) (same, h) = rw (same, wire-objs criteria h) refl

  wire-strs : (path : List Str) → each_item wire (strs path) ≡ strs (map text path)
  unfolding each_item strs
  wire-strs [] = refl
  wire-strs (s ∷ path) = rw (json.of_str s, wire-strs path) refl

  wire-local_only : wire (obj local_only) ≡ obj local_only
  unfolding local_only each_value HasKept is_ascii
  wire-local_only =
      let keys : HasKept {F = F} text local_only = (
        json.ascii (codes "strategy") refl,
        (json.ascii (codes "include_local") refl, (json.ascii (codes "annotate_source") refl, tt)),
      ) in
      let same : text (codes "LOCAL_ONLY") ≡ codes "LOCAL_ONLY" =
        json.ascii (codes "LOCAL_ONLY") refl in
      json.of_obj _ keys ∙ rw (json.of_str, json.of_bool, same) refl

  wire-request_of :
      (criteria : List (Fields F)) (trace_id : Str) (path : List Str)
      → All (λ c. wire (obj c) ≡ obj c) criteria
      → wire (obj (request_of criteria trace_id path))
        ≡ obj (request_of criteria (text trace_id) (map text path))
  unfolding request_of each_value HasKept is_ascii
  wire-request_of criteria trace_id path h =
      let keys : HasKept text (request_of criteria trace_id path) = (
        json.ascii (codes "criteria") refl,
        (
          json.ascii (codes "trace_id") refl,
          (json.ascii (codes "trace_path") refl, (json.ascii (codes "options") refl, tt)),
        ),
      ) in
      json.of_obj _ keys
      ∙ rw
          (
            json.of_arr (objs criteria),
            wire-objs criteria h,
            json.of_str trace_id,
            json.of_arr (strs path),
            wire-strs path,
            wire-local_only,
          )
          refl

request-criteria :
    {F : Type 0} (criteria : List (Fields F)) (trace_id : Str) (path : List Str)
    → criteria_of (index (request_of criteria trace_id path) (codes "criteria")) ≡ criteria
unfolding criteria_of index find value_or_nil request_of str_eq
request-criteria criteria trace_id path = objs_of-objs criteria

request-path :
    {F : Type 0} (criteria : List (Fields F)) (trace_id : Str) (path : List Str)
    → path_of (index (request_of criteria trace_id path) (codes "trace_path")) ≡ path
unfolding path_of index find value_or_nil request_of str_eq
request-path criteria trace_id path = strs_of-strs _ path

request-id :
    {F : Type 0} (criteria : List (Fields F)) (trace_id : Str) (path : List Str)
    → str_or_empty (as_str (index (request_of criteria trace_id path) (codes "trace_id")))
      ≡ trace_id
unfolding str_or_empty as_str index find value_or_nil request_of str_eq
request-id criteria trace_id path = refl

module _ {F Peer Err : Type 0} (to_int : F → ℤ) (net : Network F Peer Err)
    (local_rows : List (Fields F) → List (Fields F)) (self : Str) (local_first : Bool) where
  options_of-request_of :
      (criteria : List (Fields F)) (trace_id : Str) (path : List Str)
      → options_of to_int net local_rows self local_first (request_of criteria trace_id path)
        ≡ default_options
  unfolding options_of with_defaults parse_options read_options read_nested default_options
      request_of local_only index find value_or_nil as_str as_obj as_bool as_int set_strategy
      set_force_remote set_include_local set_annotate_source set_time_budget_ms set_max_peers
      set_quorum_n is_null str_eq
  options_of-request_of criteria trace_id path = refl

  run_strategy-local :
      (criteria : List (Fields F)) (trace_id : Str) (path : List Str)
      → run_strategy to_int net local_rows self local_first default_options criteria trace_id path
        ≡ tag_rows (local_rows criteria) (source_value (codes "local") self path) trace_id path
  unfolding run_strategy default_options tagged_local str_eq
  run_strategy-local criteria trace_id path = refl

  -- The request that a fan-out of the node `other` sends, with criteria that pass through JSON unchanged, is
  -- answered from the receiver's own store alone, whatever JSON makes of the raw bytes of ids in the trace:
  -- with no rows where the receiver's id is in the path as it is received, and else with the receiver's
  -- local rows, tagged with its id and this path to it.
  pub handle_query_stream-forward_request :
      {Peer' Err' : Type 0} (wire : Value F → Value F) (text : Str → Str)
      (other : Network F Peer' Err') (c : Fields F) (criteria : List (Fields F)) (trace_id : Str)
      (trace_path : List Str)
      → JsonWire wire text
      → All (λ d. wire (obj d) ≡ obj d) (c ∷ criteria)
      → let path = map text (trace_path ++ other.identity ∷ []) in
        handle_query_stream to_int net local_rows self local_first
          (as_obj (wire (obj (forward_request other (c ∷ criteria) trace_id trace_path))))
        ≡ (if contains_str path self
            then []
            else tag_rows
                (local_rows (c ∷ criteria))
                (source_value (codes "local") self (path ++ self ∷ []))
                (text trace_id)
                (path ++ self ∷ []))
  unfolding handle_query_stream handle_criteria forward_request as_obj
  handle_query_stream-forward_request wire text other c criteria trace_id trace_path json h =
      let path = map text (trace_path ++ other.identity ∷ []) in
      rw
        (
          wire-request_of wire text json (c ∷ criteria) trace_id (trace_path ++ other.identity ∷ [])
              h,
          request-criteria (c ∷ criteria) (text trace_id) path,
          request-path (c ∷ criteria) (text trace_id) path,
          request-id (c ∷ criteria) (text trace_id) path,
          options_of-request_of (c ∷ criteria) (text trace_id) path,
          run_strategy-local,
        )
        refl
