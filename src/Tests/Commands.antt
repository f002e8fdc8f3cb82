-- ===== src/Tests/Commands.antt =====
-- Commands on the documents of a store, and on the capacities of a registry.
use optimusdb.Base.{ℕ, true, false, none, some, List, [], ◌∷◌, ◌++◌, if◌then◌else◌, ◌≡◌, refl, map}
use optimusdb.Base.Text.{Str, codes, str_eq}
use optimusdb.Base.Dict.{Dict, remove}
use optimusdb.Document.{Value, str, obj, Fields, end, field, find, index, value_or_nil, as_str}
use optimusdb.Tests.Fixtures.{milli, a_id, settings}
use optimusdb.Tests.Documents.{library, document, documents}
use optimusdb.Store.Batch.{DocumentStore, Reply}
use mathlib.Core.List.{Memᴰ}
use optimusdb.Tests.Writes.{last-Extends, last-Logged}
use optimusdb.Crud.Ids.{doc_id_of, text_of}
use optimusdb.Crud.Update.{add_updated}
use optimusdb.Store.Batch.Stored.{Keeps, NoneSame}
use optimusdb.Lineage.Queue.{LineageQueue}
use optimusdb.Query.Local.{ok, DocumentReader, id_only_filter}
use optimusdb.Base.{All, List, if◌then◌else◌, Bool, true, false}
use optimusdb.Base.Text.{str_eq}
use optimusdb.Document.{assign, null}
use optimusdb.Query.Local.{Result}
use optimusdb.Store.Batch.Stored.{Faithful}
use optimusdb.Query.Persist.{is_stored, missing_rows, persist_remote_rows}
use optimusdb.Query.Persist.Learned.{IsLearned, persist_remote_rows-IsLearned}
use optimusdb.Base.{Option, sym, ◌∙◌}
use optimusdb.Base.Text.{str_eq_iff}
use mathlib.Core.Option.{some-injective}
use optimusdb.Query.Cache.{SimpleCache}
use optimusdb.Query.Rows.{Schedule, id_key}
use optimusdb.Query.Peers.{rows_of_chunk}
use optimusdb.Query.Engine.{Surroundings}
use optimusdb.Query.Merge.{QueryOptions}
use optimusdb.Query.Command.{default_query_options, run_query, persist_answer}
use optimusdb.Query.Command.ReadOnly.{IsHeld, local_query_writes_nothing}
use optimusdb.Crud.Update.{updated_docs, Outcome, matched_docs, crud_update_doc_store}
use optimusdb.Crud.Update.Preserved.{IsMap, or_value, find-updated_docs}
use optimusdb.Crud.Update.Logged.{Wrote, crud_update_doc_store-Wrote}
use optimusdb.Crud.Delete.{Stores}
use optimusdb.Tests.Fixtures.{b_id}

abbrev print_number : ℕ → Str
print_number n = 110 ∷ n ∷ []

abbrev print_any : Value ℕ → Str
print_any v = codes "?"

abbrev updates : Fields ℕ
updates = field (codes "city") (str (codes "z")) end

updates-IsMap : IsMap updates
unfolding IsMap find
updates-IsMap = (refl, tt)

document_a-id : find (document a_id (codes "x")) (codes "_id") ≡ some (str a_id)
unfolding find str_eq
document_a-id = refl

find-updated_docs_example :
    (doc : Fields ℕ) × ((updated_docs print_number print_any updates
          (codes "noon")
          (obj (document a_id (codes "x")) ∷ [])
        ≡ (a_id, doc) ∷ updated_docs print_number print_any updates (codes "noon") [])
      × ((j : Str)
          → find doc j ≡ (
              if str_eq (codes "_updated_at") j
              then some (str (codes "noon"))
              else if str_eq (codes "_id") j
              then find (document a_id (codes "x")) (codes "_id")
              else or_value (find updates j) (find (document a_id (codes "x")) j))))
find-updated_docs_example =
    find-updated_docs print_number print_any updates (document a_id (codes "x")) a_id (codes "noon")
      [] updates-IsMap document_a-id

abbrev InLog : List (Fields ℕ) → Fields ℕ → Type 0
InLog s d = Memᴰ d s

abbrev log_reader : DocumentReader (List (Fields ℕ)) (Value ℕ) ℕ
log_reader = record {
  get_docs = λ s id. ok (map obj s);
  query = λ s f. some (ok []);
  query_indexed = λ s eq f. some none;
}

abbrev log_store : DocumentStore (Fields ℕ) (List (Fields ℕ)) ℕ
log_store = record { put = λ s d. (s ++ d ∷ [], none); put_all = λ s docs. (s ++ docs, none) }

log_store-Keeps : Keeps log_store id_key InLog
log_store-Keeps = record {
  put_kept = λ s d fine. (last-Logged s (d ∷ [])).0;
  put_extends = λ s d. last-Extends s (d ∷ []);
  put_all_kept = λ s docs differ fine. last-Logged s docs;
  put_all_extends = λ s docs. last-Extends s docs;
}

abbrev by_id : Fields ℕ
by_id = field (codes "_id") (str a_id) end

abbrev stored : List (Fields ℕ)
stored = document a_id (codes "x") ∷ []

abbrev no_jobs : LineageQueue (Fields ℕ)
no_jobs = record { pending = []; order = []; running = false }

by_id-matches :
    matched_docs milli library print_number print_any log_reader log_store
      (λ d. none)
      settings
      (codes "kb")
      stored
      by_id
      (id_only_filter by_id)
    ≡ some (ok (map obj stored))
unfolding matched_docs id_only_filter optimusdb.Query.Local.string_of find str_eq as_str
by_id-matches = refl

one_update-NoneSame :
    NoneSame id_key
      (map (λ d. d.1) (updated_docs print_number print_any updates (codes "noon") (map obj stored)))
unfolding NoneSame updated_docs add_updated doc_id_of text_of find str_eq
one_update-NoneSame = (tt, tt)

crud_update_doc_store-Wrote_example :
    (out : Outcome ℕ (List (Fields ℕ)) ℕ) × ((crud_update_doc_store milli library print_number
          print_any log_reader log_store
          (λ d. none)
          settings
          (codes "kb")
          stored
          no_jobs
          (codes "noon")
          (by_id ∷ [])
          (updates ∷ [])
        ≡ some out)
      × Wrote milli library print_number print_any log_reader log_store id_key InLog log_store-Keeps
          (λ d. none)
          settings
          (codes "kb")
          stored
          (map
            (λ d. d.1)
            (updated_docs print_number print_any updates (codes "noon") (map obj stored)))
          out)
crud_update_doc_store-Wrote_example =
    crud_update_doc_store-Wrote milli library print_number print_any log_reader log_store id_key
      InLog log_store-Keeps (λ d. none) settings (codes "kb") stored no_jobs (codes "noon") by_id
      updates [] [] (map obj stored) by_id-matches one_update-NoneSame

abbrev delete_doc : Dict (Value ℕ) → Str → Reply (Dict (Value ℕ)) ℕ
delete_doc s id = (remove s id, none)

abbrev delete_meta : ℕ → Str → ℕ
delete_meta m id = m

abbrev stores : Stores (Dict (Value ℕ)) ℕ (Fields ℕ)
stores = record { documents = documents; metadata = some 0; told = [] }

abbrev city_y : Fields ℕ
city_y = field (codes "city") (str (codes "y")) end

abbrev holds_a : List (Fields ℕ) → Str → Bool
holds_a s id = str_eq id a_id

abbrev learned : List (Fields ℕ)
learned =
    assign (document b_id (codes "y")) (codes "_trace") null ∷ document a_id (codes "x") ∷ end ∷ []

abbrev get_nothing : List (Fields ℕ) → Str → Result ℕ (List (Value ℕ))
get_nothing s id = ok []

learned-NoneSame :
    NoneSame id_key (missing_rows (is_stored (some holds_a) get_nothing stored) learned)
unfolding NoneSame missing_rows is_stored id_key optimusdb.Query.Rows.key_unless_empty
    optimusdb.Query.Rows.id_of as_str index value_or_nil find assign str_eq
    optimusdb.Query.Persist.add_missing
learned-NoneSame = (tt, tt)

persist_remote_rows-IsLearned_example :
    let stored' = is_stored (some holds_a) get_nothing stored in
    Faithful InLog stored
      (missing_rows stored' learned)
      (persist_remote_rows log_store (λ d. none) settings (some holds_a) get_nothing stored learned)
    × All (IsLearned stored') (missing_rows stored' learned)
persist_remote_rows-IsLearned_example =
    persist_remote_rows-IsLearned log_store id_key InLog log_store-Keeps (λ d. none) settings
      (some holds_a) get_nothing stored learned learned-NoneSame

abbrev local_options : QueryOptions
local_options = record default_query_options { strategy = codes "LOCAL_ONLY" }

abbrev no_peers : Surroundings ℕ ℕ
no_peers = record { asked_at = 0; stored_at = 0; peerstore = []; answers = λ peers. [] }

abbrev unordered : Schedule (Fields ℕ)
unordered = record { asked = λ xs. xs; sent = λ xs. xs }

abbrev no_hash : Fields ℕ → Str
no_hash r = []

abbrev no_key : List (Fields ℕ) → Str
no_key criteria = []

abbrev no_engine : Option (SimpleCache (List (Fields ℕ)))
no_engine = none

abbrev stored_answer : Result ℕ (List (Fields ℕ))
stored_answer = ok stored

document_a-key : id_key (document a_id (codes "x")) ≡ some a_id
unfolding id_key optimusdb.Query.Rows.key_unless_empty optimusdb.Query.Rows.id_of as_str index
    value_or_nil find str_eq
document_a-key = refl

stored_answer-IsHeld :
    All (IsHeld (is_stored (some holds_a) get_nothing stored)) (rows_of_chunk stored_answer)
unfolding IsHeld rows_of_chunk is_stored
stored_answer-IsHeld =
    (λ id is. (str_eq_iff id a_id).1 (sym (some-injective _ _ (sym document_a-key ∙ is))), tt)

local_query_writes_nothing_example :
    let out =
      run_query no_hash unordered no_key b_id no_peers no_engine
        (by_id ∷ [])
        local_options
        stored_answer
        [] in
    ((now : Surroundings ℕ ℕ) (chunks : List (Str × Result ℕ (List (Fields ℕ))))
      → run_query no_hash unordered no_key b_id now no_engine
          (by_id ∷ [])
          local_options
          stored_answer
          chunks
        ≡ out)
    × (out.0 ≡ no_engine)
    × (persist_answer log_store (λ d. none) settings (some holds_a) get_nothing stored out.1
        ≡ (stored, [], none))
local_query_writes_nothing_example =
    local_query_writes_nothing log_store (λ d. none) settings (some holds_a) get_nothing no_hash
      unordered no_key b_id stored no_peers no_engine (by_id ∷ []) local_options stored_answer []
      refl stored_answer-IsHeld
