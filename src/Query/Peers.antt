-- ===== src/Query/Peers.antt =====
-- app/query_handler.go: queryPeersLimited and queryPeersUntilQuorum. The network is a record: its peers,
-- their ids as raw bytes (`string(p)`), what a request to one of them gives, and which of the asked peers
-- have answered when the deadline passes, in the order of their answers.
pub mod Quorum
use optimusdb.Base.{
  ℕ, zero, suc, ◌+◌, Bool, true, false, not, ◌&&◌, Option, none, some, List, [], ◌∷◌, ◌++◌,
  if◌then◌else◌, length, map, take, ltb, leb,
}
use optimusdb.Base.Text.{Str, codes}
use optimusdb.Base.Dict.{Dict, put, read_or}
use optimusdb.Document.{
  Value, bool, str, arr, obj, Items, nil, cons, Fields, end, field, has, assign,
}
use optimusdb.Base.Int.{ℤ, pos, negsuc}
use optimusdb.Query.Local.{Result, ok, failed}
use optimusdb.Query.Rows.{dedupe_by_id}
use optimusdb.Query.Options.{QOptions, contains_str, strs, source_value, trace_value, tag_rows}

pub record Network (F Peer Err : Type 0) : Type 0 where
  pub connected : List Peer
  pub discovered : List Str
  pub decode : Str → Option Peer
  pub raw : Peer → Str
  pub is_connected : Peer → Bool
  pub identity : Str
  pub request : Peer → Fields F → Result Err (List (Fields F))
  pub arrivals : List Peer → List Peer

unfoldable pub objs : {F : Type 0} → List (Fields F) → Items F
objs [] = nil
objs (m ∷ criteria) = cons (obj m) (objs criteria)

unfoldable pub add_new : {Peer : Type 0} → Dict Bool → Str → Option Peer → List Peer → List Peer
add_new seen id none peers = peers
add_new seen id (some pid) peers = if read_or seen id false then peers else pid ∷ peers

-- `rows` without the rows of an error
unfoldable pub rows_of_chunk : {F Err : Type 0} → Result Err (List (Fields F)) → List (Fields F)
rows_of_chunk (ok rows) = rows
rows_of_chunk (failed e) = []

unfoldable pub set_missing : {F : Type 0} → Str → Value F → Fields F → Fields F
set_missing key v r = if has r key then r else assign r key v

unfoldable pub tag_missing : {F : Type 0} → Value F → Value F → List (Fields F) → List (Fields F)
tag_missing source trace [] = []
tag_missing source trace (r ∷ rows) =
    set_missing (codes "_trace") trace (set_missing (codes "_source") source r)
    ∷ tag_missing source trace rows

unfoldable pub map_ok : {A B Err : Type 0} → (A → B) → Result Err A → Result Err B
map_ok f (ok a) = ok (f a)
map_ok f (failed e) = failed e

-- `if opts.MaxPeers > 0 && opts.MaxPeers < len(allPeers)`
unfoldable pub limited : {Peer : Type 0} → ℤ → List Peer → List Peer
limited (pos n) peers = if ltb 0 n && ltb n (length peers) then take n peers else peers
limited (negsuc n) peers = peers

-- the options of a request: the peer that gets it asks no other
unfoldable pub local_only : {F : Type 0} → Fields F
local_only =
    field (codes "strategy") (str (codes "LOCAL_ONLY"))
      (field (codes "include_local") (bool true) (field (codes "annotate_source") (bool true) end))

unfoldable pub request_of : {F : Type 0} → List (Fields F) → Str → List Str → Fields F
request_of criteria trace_id path = field (codes "criteria") (arr (objs criteria)) (
    field (codes "trace_id") (str trace_id)
      (field (codes "trace_path") (arr (strs path)) (field (codes "options") (obj local_only) end)))

module _ {F Peer Err : Type 0} (net : Network F Peer Err) where
  open net use {connected, discovered, decode, raw, is_connected, identity, request, arrivals}

  unfoldable pub seen_peers : List Peer → Dict Bool → Dict Bool
  seen_peers [] seen = seen
  seen_peers (p ∷ peers) seen = seen_peers peers (put seen (raw p) true)

  unfoldable pub discovered_peers : Dict Bool → List Str → List Peer
  discovered_peers seen [] = []
  discovered_peers seen (id ∷ ids) = add_new seen id (decode id) (discovered_peers seen ids)

  unfoldable pub all_peers : List Peer
  all_peers = connected ++ discovered_peers (seen_peers connected []) discovered

  unfoldable pub forward_request : List (Fields F) → Str → List Str → Fields F
  forward_request criteria trace_id trace_path =
      request_of criteria trace_id (trace_path ++ identity ∷ [])

  -- one goroutine of queryPeersLimited
  unfoldable pub ask_connected :
      List (Fields F) → Str → List Str → Peer → Result Err (List (Fields F))
  ask_connected criteria trace_id trace_path p =
      let path = trace_path ++ identity ∷ [] in
      if contains_str trace_path (raw p)
      then ok []
      else if not (is_connected p)
      then ok []
      else map_ok
          (tag_missing (source_value (codes "peer") (raw p) path) (trace_value trace_id path))
          (request p (forward_request criteria trace_id trace_path))

  -- the loop over the answers, of which `left` are still to come
  unfoldable pub merge_answers : ℕ → List (Result Err (List (Fields F))) → List (Fields F)
  merge_answers zero answers = []
  merge_answers (suc left) [] = []
  merge_answers (suc left) (c ∷ answers) = rows_of_chunk c ++ merge_answers left answers

  unfoldable pub query_peers_limited : List (Fields F) → Str → List Str → QOptions → List (Fields F)
  query_peers_limited criteria trace_id trace_path opts =
      let peers = limited opts.max_peers all_peers in
      merge_answers (length peers)
        (map (ask_connected criteria trace_id trace_path) (arrivals peers))

  -- one goroutine of queryPeersUntilQuorum
  unfoldable pub ask_any : List (Fields F) → Str → List Str → Peer → Result Err (List (Fields F))
  ask_any criteria trace_id trace_path p =
      let path = trace_path ++ identity ∷ [] in
      if contains_str trace_path (raw p)
      then ok []
      else map_ok (λ rows. tag_rows rows (source_value (codes "peer") (raw p) path) trace_id path)
          (request p (forward_request criteria trace_id trace_path))

  unfoldable pub some_rows : Result Err (List (Fields F)) → Bool
  some_rows (ok []) = false
  some_rows (ok (r ∷ rows)) = true
  some_rows (failed e) = false

  unfoldable pub respond : Dict Bool → Str → Result Err (List (Fields F)) → Dict Bool
  respond responders id r = if some_rows r then put responders id true else responders

  -- the loop on the rows merged so far and the responders
  unfoldable pub until_quorum :
      ℕ
      → List (Fields F)
      → Dict Bool
      → ℕ
      → List (Str × Result Err (List (Fields F)))
      → List (Fields F)
  until_quorum quorum_n merged responders zero answers = dedupe_by_id merged
  until_quorum quorum_n merged responders (suc left) [] = dedupe_by_id merged
  until_quorum quorum_n merged responders (suc left) ((id, r) ∷ answers) =
      let after = merged ++ rows_of_chunk r in
      let responded = respond responders id r in
      let rest = until_quorum quorum_n after responded left answers in
      if leb quorum_n (length responded) then dedupe_by_id after else rest

  unfoldable pub answer_of :
      (Peer → Result Err (List (Fields F))) → Peer → Str × Result Err (List (Fields F))
  answer_of ask p = (raw p, ask p)

  unfoldable pub until_quorum_of : ℤ → List (Fields F) → Str → List Str → List (Fields F)
  until_quorum_of (negsuc n) criteria trace_id trace_path = []
  until_quorum_of (pos zero) criteria trace_id trace_path = []
  until_quorum_of (pos (suc n)) criteria trace_id trace_path =
      until_quorum (suc n) [] [] (length connected)
        (map (answer_of (ask_any criteria trace_id trace_path)) (arrivals connected))

  unfoldable pub query_peers_until_quorum :
      List (Fields F) → Str → List Str → QOptions → List (Fields F)
  query_peers_until_quorum criteria trace_id trace_path opts =
      until_quorum_of opts.quorum_n criteria trace_id trace_path
