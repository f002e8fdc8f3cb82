-- ===== src/Tests/Answers.antt =====
-- Answers of queries: rows of two peers, a request between them, and the cached answer.
use optimusdb.Base.{
  ℕ, true, false, none, some, List, [], ◌∷◌, ◌++◌, if◌then◌else◌, ◌≡◌, ◌⊎◌, refl, ◌==◌, arith,
  length, map, take, ◌≤◌, ◌<◌,
}
use optimusdb.Base.Text.{Str, codes, str_eq}
use optimusdb.Base.Dict.{get, put, read_or}
use optimusdb.Document.{
  num, str, obj, Fields, end, field, find, index, value_or_nil, has, assign, as_str, as_bool,
}
use optimusdb.Base.Int.{pos}
use optimusdb.Tests.Fixtures.{a_id, b_id}
use optimusdb.Tests.Documents.{document}
use optimusdb.Query.Local.{Result, ok, failed}
use optimusdb.Query.Rows.{dedupe_by_id, id_key}
use optimusdb.Query.Rows.Unique.{with_key, without_key, dedupe_by_id-first}
use optimusdb.Query.Options.{
  QOptions, default_options, parse_options, as_int, contains_str, tag_rows, source_value,
}
use optimusdb.Query.Options.Parsed.{pick, non_empty, parse_options-pick}
use optimusdb.Query.Peers.{Network, answer_of, ask_any, forward_request, query_peers_until_quorum}
use optimusdb.Query.Peers.Quorum.{rows_of_answers, responders_of, query_peers_until_quorum-stops}
use optimusdb.Query.Handler.{handle_query_stream}
use optimusdb.Document.{Value, Items, nil, cons, as_obj}
use optimusdb.Query.Handler.Forwarded.{
  each_item, each_value, JsonWire, handle_query_stream-forward_request,
}
use optimusdb.Query.Cache.{CacheEntry}
use optimusdb.Query.Engine.{Surroundings, annotate, query_remote}
use mathlib.Core.List.Permᴰ
use optimusdb.Query.Rows.{Schedule, item_key}
use optimusdb.Query.Engine.{source_of, strategy_trace}
use optimusdb.Query.Peers.{rows_of_chunk}
use optimusdb.Query.Merge.{QueryOptions, local_then_remote_merge, parallel_merge, marked_local}
use optimusdb.Query.Merge.Sources.{merges_never_fail, parallel_merge-one}
use optimusdb.Query.Engine.Repeated.{entry_of, query_remote-repeated}

abbrev rows : List (Fields ℕ)
rows = document a_id (codes "x") ∷ end ∷ document b_id (codes "y") ∷ document a_id (codes "z") ∷ []

dedupe_by_id-first_example :
    (with_key id_key a_id (dedupe_by_id rows) ≡ take 1 (with_key id_key a_id rows))
    × (without_key id_key (dedupe_by_id rows) ≡ without_key id_key rows)
dedupe_by_id-first_example = dedupe_by_id-first rows a_id

abbrev message : Fields ℕ
message = field (codes "max_peers") (num 3) (
    field (codes "strategy") (str (codes "QUORUM"))
      (field (codes "options") (obj (field (codes "quorum_n") (num 2) end)) end))

parse_options-pick_example : parse_options pos message ≡ record {
  strategy = pick pos (λ v. non_empty (as_str v)) message "strategy" (codes "LOCAL_ONLY");
  force_remote = pick pos as_bool message "force_remote" false;
  include_local = pick pos as_bool message "include_local" true;
  annotate_source = pick pos as_bool message "annotate_source" true;
  time_budget_ms = pick pos (as_int pos) message "time_budget_ms" (pos 2000);
  max_peers = pick pos (as_int pos) message "max_peers" (pos 0);
  quorum_n = pick pos (as_int pos) message "quorum_n" (pos 0);
}
parse_options-pick_example = parse_options-pick pos message

-- a network of three peers, the third of which fails
abbrev reply_of : ℕ → Result ℕ (List (Fields ℕ))
reply_of p =
    if p == 1
    then ok (document a_id (codes "x") ∷ [])
    else if p == 2
    then ok (document b_id (codes "y") ∷ document a_id (codes "z") ∷ [])
    else failed p

abbrev network : Network ℕ ℕ ℕ
network = record {
  connected = 1 ∷ 2 ∷ 3 ∷ [];
  discovered = [];
  decode = λ id. none;
  raw = λ p. p ∷ [];
  is_connected = λ p. true;
  identity = 9 ∷ [];
  request = λ p m. reply_of p;
  arrivals = λ peers. peers;
}

abbrev options : QOptions
options = record default_options { quorum_n = pos 2 }

query_peers_until_quorum-stops_example :
    let answers =
      map
        (answer_of network (ask_any network (end ∷ []) (codes "t") ((8 ∷ []) ∷ [])))
        (1 ∷ 2 ∷ 3 ∷ []) in
    (n : ℕ) × ((query_peers_until_quorum network (end ∷ []) (codes "t") ((8 ∷ []) ∷ []) options
        ≡ dedupe_by_id (rows_of_answers (take n answers)))
      × (((m : ℕ) → 0 < m → m < n → length (responders_of network [] (take m answers)) < 2)
          × ((2 ≤ length (responders_of network [] (take n answers)))
              ⊎ ((n ≡ length network.connected) ⊎ (n ≡ length answers)))))
query_peers_until_quorum-stops_example =
    query_peers_until_quorum-stops network (end ∷ []) (codes "t") ((8 ∷ []) ∷ []) options 1 refl

abbrev local_rows : List (Fields ℕ) → List (Fields ℕ)
local_rows criteria = document b_id (codes "y") ∷ []

abbrev unchanged : Value ℕ → Value ℕ
unchanged v = v

abbrev same_text : Str → Str
same_text s = s

each_item-unchanged : (items : Items ℕ) → each_item unchanged items ≡ items
unfolding each_item
each_item-unchanged nil = refl
each_item-unchanged (cons v items) = rw (each_item-unchanged items) refl

each_value-unchanged : (m : Fields ℕ) → each_value unchanged m ≡ m
unfolding each_value
each_value-unchanged end = refl
each_value-unchanged (field k v m) = rw (each_value-unchanged m) refl

unchanged-JsonWire : JsonWire unchanged same_text
unchanged-JsonWire = record {
  ascii = λ s h. refl;
  of_str = λ s. refl;
  of_bool = λ b. refl;
  of_arr = λ items. rw (each_item-unchanged items) refl;
  of_obj = λ m h. rw (each_value-unchanged m) refl;
}

handle_query_stream-forward_request_example :
    let path = map same_text (((8 ∷ []) ∷ []) ++ network.identity ∷ []) in
    handle_query_stream pos network local_rows b_id true
      (as_obj (unchanged (obj (forward_request network (end ∷ []) (codes "t") ((8 ∷ []) ∷ [])))))
    ≡ (if contains_str path b_id
        then []
        else tag_rows
            (local_rows (end ∷ []))
            (source_value (codes "local") b_id (path ++ b_id ∷ []))
            (codes "t")
            (path ++ b_id ∷ []))
handle_query_stream-forward_request_example =
    handle_query_stream-forward_request pos network local_rows b_id true unchanged same_text network
      end [] (codes "t") ((8 ∷ []) ∷ []) unchanged-JsonWire (refl, tt)

abbrev hash_of : Fields ℕ → Str
hash_of r = codes "hash"

abbrev key_of : List (Fields ℕ) → Str
key_of criteria = codes "key"

abbrev at_start : Surroundings ℕ ℕ
at_start = record {
  asked_at = 1;
  stored_at = 2;
  peerstore = (1 ∷ []) ∷ (9 ∷ []) ∷ [];
  answers = λ peers. reply_of 2 ∷ failed 3 ∷ [];
}

abbrev later_on : Surroundings ℕ ℕ
later_on = record {
  asked_at = 600000000002;
  stored_at = 600000000003;
  peerstore = [];
  answers = λ peers. [];
}

abbrev marked : Str → Str → Fields ℕ
marked id city = field (codes "_id") (str id) (
    field (codes "city") (str city) (
      field (codes "_source") (source_of (codes "peer") [])
        (field (codes "_trace") (strategy_trace (codes "QUORUM")) end)))

abbrev entry : CacheEntry (List (Fields ℕ))
entry = record {
  data_of = marked b_id (codes "y") ∷ marked a_id (codes "z") ∷ [];
  expires_at = 600000000002;
  created_at = 2;
}

first-rows :
    (query_remote hash_of key_of (9 ∷ []) at_start none (end ∷ []) true (codes "QUORUM")).1
    ≡ ok (marked b_id (codes "y") ∷ marked a_id (codes "z") ∷ [])
unfolding annotate query_remote optimusdb.Query.Peers.tag_missing
    optimusdb.Query.Engine.annotate_remote optimusdb.Query.Engine.engine_query
    optimusdb.Query.Engine.or_ask optimusdb.Query.Cache.get_cached optimusdb.Query.Cache.answer get
    optimusdb.Query.Engine.engine_of optimusdb.Query.Cache.new_simple_cache
    optimusdb.Query.Engine.query_with_worker_pool optimusdb.Query.Engine.ask_pool
    optimusdb.Query.Engine.others str_eq optimusdb.Query.Engine.keep_results put read_or as_str
    assign find has index value_or_nil optimusdb.Query.Cache.record_hit
    optimusdb.Query.Cache.record_miss optimusdb.Query.Cache.set_cached
    optimusdb.Query.Engine.replace_entry optimusdb.Query.Peers.set_missing
    optimusdb.Query.Rows.collect_results optimusdb.Query.Rows.generate_item_key
    optimusdb.Query.Rows.id_of optimusdb.Query.Rows.is_new optimusdb.Query.Rows.item_key
    optimusdb.Query.Rows.note optimusdb.Query.Rows.or_hash optimusdb.Query.Rows.rows_or_nothing
    optimusdb.Query.Rows.unique_from
first-rows = refl

first-entry :
    entry_of key_of
      (query_remote hash_of key_of (9 ∷ []) at_start none (end ∷ []) true (codes "QUORUM")).0
      (end ∷ [])
    ≡ some entry
unfolding annotate query_remote optimusdb.Query.Peers.tag_missing
    optimusdb.Query.Engine.annotate_remote optimusdb.Query.Engine.engine_query
    optimusdb.Query.Engine.or_ask optimusdb.Query.Cache.get_cached optimusdb.Query.Cache.answer get
    optimusdb.Query.Engine.engine_of optimusdb.Query.Cache.new_simple_cache
    optimusdb.Query.Engine.query_with_worker_pool optimusdb.Query.Engine.ask_pool
    optimusdb.Query.Engine.others str_eq optimusdb.Query.Engine.keep_results put read_or as_str
    assign find has index value_or_nil optimusdb.Query.Cache.record_hit
    optimusdb.Query.Cache.record_miss optimusdb.Query.Cache.set_cached
    optimusdb.Query.Engine.replace_entry optimusdb.Query.Peers.set_missing
    optimusdb.Query.Rows.collect_results optimusdb.Query.Rows.generate_item_key
    optimusdb.Query.Rows.id_of optimusdb.Query.Rows.is_new optimusdb.Query.Rows.item_key
    optimusdb.Query.Rows.note optimusdb.Query.Rows.or_hash optimusdb.Query.Rows.rows_or_nothing
    optimusdb.Query.Rows.unique_from entry_of optimusdb.Query.Engine.write_through
first-entry = refl

query_remote-repeated_example :
    (query_remote hash_of key_of
      (9 ∷ [])
      later_on
      (query_remote hash_of key_of (9 ∷ []) at_start none (end ∷ []) true (codes "QUORUM")).0
      (end ∷ [])
      true
      (codes "REMOTE_ONLY")).1
    ≡ ok (marked b_id (codes "y") ∷ marked a_id (codes "z") ∷ [])
query_remote-repeated_example =
    query_remote-repeated hash_of key_of (9 ∷ []) at_start later_on none (end ∷ []) (codes "QUORUM")
      (codes "REMOTE_ONLY") true (marked b_id (codes "y")) (marked a_id (codes "z") ∷ []) entry
      first-rows first-entry (omega arith)

abbrev in_order : Schedule (Fields ℕ)
in_order = record { asked = λ xs. xs; sent = λ xs. xs }

abbrev merge_options : QueryOptions
merge_options = record {
  strategy = codes "PARALLEL_MERGE";
  consistency = codes "BEST_EFFORT";
  time_budget_ms = pos 1200;
  quorum_n = pos 0;
  min_rows = pos 0;
  max_peers = pos 0;
  include_local = true;
  annotate_source = true;
  force_remote = false;
}

merges_never_fail_example :
    ((out : List (Fields ℕ)) × ((local_then_remote_merge hash_of in_order key_of
          (9 ∷ [])
          later_on
          none
          (end ∷ [])
          merge_options
          (failed 5)).1
        ≡ ok out))
    × ((out : List (Fields ℕ)) × ((parallel_merge hash_of in_order key_of
            (9 ∷ [])
            later_on
            none
            (end ∷ [])
            merge_options
            (failed 5)).1
          ≡ ok out))
merges_never_fail_example =
    merges_never_fail hash_of in_order key_of (9 ∷ []) later_on none (end ∷ []) merge_options
      (failed 5)

abbrev local_answer : Result ℕ (List (Fields ℕ))
local_answer = ok rows

parallel_merge-one_example :
    let mine =
      rows_of_chunk
        (marked_local hash_of in_order true true (codes "PARALLEL_MERGE") local_answer) in
    let theirs =
      rows_of_chunk
        (query_remote hash_of key_of
          (9 ∷ [])
          at_start
          none
          (end ∷ [])
          true
          (codes "PARALLEL_MERGE")).1 in
    (out : List (Fields ℕ)) × (((parallel_merge hash_of in_order key_of
          (9 ∷ [])
          at_start
          none
          (end ∷ [])
          merge_options
          local_answer).1
        ≡ ok out)
      × ((key : Str)
          → length (with_key (item_key hash_of) key out)
            ≡ (if length (with_key (item_key hash_of) key (mine ++ theirs)) == 0 then 0 else 1)))
parallel_merge-one_example =
    parallel_merge-one hash_of in_order key_of (9 ∷ []) at_start none (end ∷ []) merge_options
      local_answer Permᴰ.refl Permᴰ.refl
