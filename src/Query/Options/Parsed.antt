-- ===== src/Query/Options/Parsed.antt =====
-- app/query_handler.go: which of the places of a message gives an option its value.
use optimusdb.Base.{
  Bool, true, false, Option, none, some, [], if◌then◌else◌, ◌≡◌, inl, inr, refl, Bool-cases,
}
use optimusdb.Base.Text.{Str, codes, str_eq}
use optimusdb.Document.{Value, Fields, end, find, index, value_or_nil, as_str, as_obj, as_bool}
use optimusdb.Base.Int.{ℤ, pos}
use Prim.Native.String.{String}
use optimusdb.Query.Options.{
  QOptions, default_options, set_strategy, set_force_remote, set_include_local, set_annotate_source,
  set_time_budget_ms, set_max_peers, set_quorum_n, as_int, read_options, read_nested, parse_options,
}

unfoldable pub or_else_value : {A : Type 0} → Option A → A → A
or_else_value none d = d
or_else_value (some a) d = a

unfoldable pub non_empty : Option Str → Option Str
non_empty none = none
non_empty (some s) = if str_eq s [] then none else some s

set_strategy-value :
    (v : Option Str) (o : QOptions)
    → set_strategy v o ≡ record o { strategy = or_else_value (non_empty v) o.strategy }
unfolding set_strategy or_else_value non_empty
set_strategy-value none o = refl
set_strategy-value (some s) o = elim (Bool-cases (str_eq s [])) [
  | inl none' ↦ rw none' refl
  | inr given ↦ rw given refl
]

set_force_remote-value :
    (v : Option Bool) (o : QOptions)
    → set_force_remote v o ≡ record o { force_remote = or_else_value v o.force_remote }
unfolding set_force_remote or_else_value
set_force_remote-value none o = refl
set_force_remote-value (some v) o = refl

set_include_local-value :
    (v : Option Bool) (o : QOptions)
    → set_include_local v o ≡ record o { include_local = or_else_value v o.include_local }
unfolding set_include_local or_else_value
set_include_local-value none o = refl
set_include_local-value (some v) o = refl

set_annotate_source-value :
    (v : Option Bool) (o : QOptions)
    → set_annotate_source v o ≡ record o { annotate_source = or_else_value v o.annotate_source }
unfolding set_annotate_source or_else_value
set_annotate_source-value none o = refl
set_annotate_source-value (some v) o = refl

set_time_budget_ms-value :
    (v : Option ℤ) (o : QOptions)
    → set_time_budget_ms v o ≡ record o { time_budget_ms = or_else_value v o.time_budget_ms }
unfolding set_time_budget_ms or_else_value
set_time_budget_ms-value none o = refl
set_time_budget_ms-value (some v) o = refl

set_max_peers-value :
    (v : Option ℤ) (o : QOptions)
    → set_max_peers v o ≡ record o { max_peers = or_else_value v o.max_peers }
unfolding set_max_peers or_else_value
set_max_peers-value none o = refl
set_max_peers-value (some v) o = refl

set_quorum_n-value :
    (v : Option ℤ) (o : QOptions)
    → set_quorum_n v o ≡ record o { quorum_n = or_else_value v o.quorum_n }
unfolding set_quorum_n or_else_value
set_quorum_n-value none o = refl
set_quorum_n-value (some v) o = refl

module _ {F : Type 0} (to_int : F → ℤ) where
  -- the options that a map of them gives, before others
  unfoldable overlay : Fields F → QOptions → QOptions
  overlay m o = record {
    strategy = or_else_value (non_empty (as_str (index m (codes "strategy")))) o.strategy;
    force_remote = or_else_value (as_bool (index m (codes "force_remote"))) o.force_remote;
    include_local = or_else_value (as_bool (index m (codes "include_local"))) o.include_local;
    annotate_source = or_else_value (as_bool (index m (codes "annotate_source"))) o.annotate_source;
    time_budget_ms =
        or_else_value (as_int to_int (index m (codes "time_budget_ms"))) o.time_budget_ms;
    max_peers = or_else_value (as_int to_int (index m (codes "max_peers"))) o.max_peers;
    quorum_n = or_else_value (as_int to_int (index m (codes "quorum_n"))) o.quorum_n;
  }

  read_options-overlay : (m : Fields F) (o : QOptions) → read_options to_int m o ≡ overlay m o
  unfolding read_options overlay
  read_options-overlay m o =
      rw
        (
          set_quorum_n-value, set_max_peers-value, set_time_budget_ms-value,
          set_annotate_source-value, set_include_local-value, set_force_remote-value,
          set_strategy-value,
        )
        refl

  read_nested-overlay :
      (n : Option (Fields F)) (o : QOptions)
      → read_nested to_int n o ≡ overlay (or_else_value n end) o
  unfolding read_nested overlay or_else_value non_empty index find value_or_nil as_str as_bool
      as_int
  read_nested-overlay none o = refl
  read_nested-overlay (some m) o = read_options-overlay m o

  -- the place that has precedence: the map under "options" where there is one
  unfoldable pub nested_options : Fields F → Fields F
  nested_options msg = or_else_value (as_obj (index msg (codes "options"))) end

  -- the value under "options" where that has the type, else the message's own one where that has, else
  -- the default
  unfoldable pub pick : {A : Type 0} → (Value F → Option A) → Fields F → String → A → A
  pick typed msg key d =
      or_else_value (typed (index (nested_options msg) (codes key)))
        (or_else_value (typed (index msg (codes key))) d)

  -- Every option of parseOptions is the value under "options" where that has the option's type, else the
  -- message's own value where that has it, else the default; an empty strategy counts as none.
  pub parse_options-pick :
      (msg : Fields F)
      → parse_options to_int msg ≡ record {
        strategy = pick (λ v. non_empty (as_str v)) msg "strategy" (codes "LOCAL_ONLY");
        force_remote = pick as_bool msg "force_remote" false;
        include_local = pick as_bool msg "include_local" true;
        annotate_source = pick as_bool msg "annotate_source" true;
        time_budget_ms = pick (as_int to_int) msg "time_budget_ms" (pos 2000);
        max_peers = pick (as_int to_int) msg "max_peers" (pos 0);
        quorum_n = pick (as_int to_int) msg "quorum_n" (pos 0);
      }
  unfolding parse_options overlay pick nested_options default_options
  parse_options-pick msg =
      rw
        (
          read_options-overlay msg default_options,
          read_nested-overlay (as_obj (index msg (codes "options"))) (overlay msg default_options),
        )
        refl
