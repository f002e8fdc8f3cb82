-- ===== src/Query/Options.antt =====
-- app/query_handler.go: qOptions, parseOptions, asInt, contains, zero8 and tagRows. The message is decoded
-- JSON, whose numbers are float64; `to_int` is Go's conversion int(t), whose result on a number that
-- does not fit is the platform's.
pub mod Parsed
use optimusdb.Base.{
  Bool, true, false, ◌||◌, Option, none, some, List, [], ◌∷◌, if◌then◌else◌, length, take, ltb,
}
use optimusdb.Base.Text.{Str, codes, str_eq}
use optimusdb.Document.{
  Value, num, str, arr, obj, Items, nil, cons, Fields, end, field, index, assign, as_str, as_obj,
  as_bool,
}
use optimusdb.Base.Int.{ℤ, pos}

pub record QOptions : Type 0 where
  pub strategy : Str
  pub force_remote : Bool
  pub include_local : Bool
  pub annotate_source : Bool
  pub time_budget_ms : ℤ
  pub max_peers : ℤ
  pub quorum_n : ℤ

unfoldable pub default_options : QOptions
default_options = record {
  strategy = codes "LOCAL_ONLY";
  force_remote = false;
  include_local = true;
  annotate_source = true;
  time_budget_ms = pos 2000;
  max_peers = pos 0;
  quorum_n = pos 0;
}

unfoldable pub set_strategy : Option Str → QOptions → QOptions
set_strategy none o = o
set_strategy (some s) o = if str_eq s [] then o else record o { strategy = s }

unfoldable pub set_force_remote : Option Bool → QOptions → QOptions
set_force_remote none o = o
set_force_remote (some b) o = record o { force_remote = b }

unfoldable pub set_include_local : Option Bool → QOptions → QOptions
set_include_local none o = o
set_include_local (some b) o = record o { include_local = b }

unfoldable pub set_annotate_source : Option Bool → QOptions → QOptions
set_annotate_source none o = o
set_annotate_source (some b) o = record o { annotate_source = b }

unfoldable pub set_time_budget_ms : Option ℤ → QOptions → QOptions
set_time_budget_ms none o = o
set_time_budget_ms (some n) o = record o { time_budget_ms = n }

unfoldable pub set_max_peers : Option ℤ → QOptions → QOptions
set_max_peers none o = o
set_max_peers (some n) o = record o { max_peers = n }

unfoldable pub set_quorum_n : Option ℤ → QOptions → QOptions
set_quorum_n none o = o
set_quorum_n (some n) o = record o { quorum_n = n }

unfoldable pub contains_str : List Str → Str → Bool
contains_str [] val = false
contains_str (v ∷ list) val = str_eq v val || contains_str list val

unfoldable pub zero8 : Str → Str
zero8 s = if ltb (length s) 8 then s else take 8 s

module _ {F : Type 0} where
  unfoldable pub strs : List Str → Items F
  strs [] = nil
  strs (s ∷ path) = cons (str s) (strs path)

  -- the map under "_trace"
  unfoldable pub trace_value : Str → List Str → Value F
  trace_value trace_id trace_path =
      obj (field (codes "id") (str trace_id) (field (codes "path") (arr (strs trace_path)) end))

  -- the map under "_source" of rows of this type, from this peer
  unfoldable pub source_value : Str → Str → List Str → Value F
  source_value type' peer_id path = obj (
      field (codes "type") (str type')
        (field (codes "peer_id") (str peer_id) (field (codes "path") (arr (strs path)) end)))

  unfoldable pub tag_rows : List (Fields F) → Value F → Str → List Str → List (Fields F)
  tag_rows [] source trace_id trace_path = []
  tag_rows (r ∷ rows) source trace_id trace_path =
      assign (assign r (codes "_source") source) (codes "_trace") (trace_value trace_id trace_path)
      ∷ tag_rows rows source trace_id trace_path

module _ {F : Type 0} (to_int : F → ℤ) where
  unfoldable pub as_int : Value F → Option ℤ
  as_int (num t) = some (to_int t)
  as_int _ = none

  -- the seven assignments of parseOptions from the map `m`
  unfoldable pub read_options : Fields F → QOptions → QOptions
  read_options m o =
      let o1 = set_strategy (as_str (index m (codes "strategy"))) o in
      let o2 = set_force_remote (as_bool (index m (codes "force_remote"))) o1 in
      let o3 = set_include_local (as_bool (index m (codes "include_local"))) o2 in
      let o4 = set_annotate_source (as_bool (index m (codes "annotate_source"))) o3 in
      let o5 = set_time_budget_ms (as_int (index m (codes "time_budget_ms"))) o4 in
      let o6 = set_max_peers (as_int (index m (codes "max_peers"))) o5 in
      set_quorum_n (as_int (index m (codes "quorum_n"))) o6

  unfoldable pub read_nested : Option (Fields F) → QOptions → QOptions
  read_nested none o = o
  read_nested (some om) o = read_options om o

  unfoldable pub parse_options : Fields F → QOptions
  parse_options msg =
      read_nested (as_obj (index msg (codes "options"))) (read_options msg default_options)
