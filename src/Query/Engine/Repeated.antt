-- ===== src/Query/Engine/Repeated.antt =====
-- app/service.go and queryengine/engine.go: a query of the peers that is repeated while its answer is
-- cached.
use optimusdb.Base.{
  ℕ, Bool, true, false, ◌||◌, Option, none, some, List, [], ◌∷◌, if◌then◌else◌, ◌≡◌, inl, inr, refl,
  sym, ap, ◌∙◌, arith, Bool-cases, ◌≤◌,
}
use optimusdb.Base.Text.{Str, codes, str_eq, str_eq_iff, str_eq_refl}
use optimusdb.Base.Dict.{Dict, get, put}
use optimusdb.Document.{Value, Fields, has}
use optimusdb.Document.Laws.{has-assign}
use optimusdb.Query.Cache.{CacheEntry, SimpleCache, get_cached, answer}
use optimusdb.Query.Local.{Result, ok, failed}
use optimusdb.Query.Peers.{rows_of_chunk}
use optimusdb.Query.Engine.{
  annotate, annotate_remote, query_remote, engine_query, write_through, replace_entry, or_ask,
  engine_of, Surroundings,
}
use mathlib.Core.Option.{some-injective}
use optimusdb.Query.Peers.{tag_missing, set_missing}
use optimusdb.Base.Dict.{get-put}

module _ {F : Type 0} where
  set_missing_again :
      (k : Str) (v : Value F) (r : Fields F) → has r k ≡ true → set_missing k v r ≡ r
  unfolding set_missing
  set_missing_again k v r h = rw h refl

  has-set_missing :
      (k j : Str) (v : Value F) (r : Fields F) → has (set_missing k v r) j ≡ (str_eq k j || has r j)
  unfolding set_missing
  has-set_missing k j v r = elim (Bool-cases (has r k)) [
    | inl there ↦ rw there (ground (arith, str_eq_iff k j))
    | inr missing ↦ rw missing (has-assign r k j v)
  ]

  tag_again :
      (rows : List (Fields F)) (source trace source' trace' : Value F)
      → tag_missing source' trace' (tag_missing source trace rows) ≡ tag_missing source trace rows
  unfolding tag_missing str_eq
  tag_again [] s t s' t' = refl
  tag_again (r ∷ rows) s t s' t' =
      let once : Fields F = set_missing (codes "_trace") t (set_missing (codes "_source") s r) in
      let sourced : has once (codes "_source") ≡ true =
        rw (has-set_missing, has-set_missing) refl in
      let traced : has once (codes "_trace") ≡ true = rw has-set_missing refl in
      rw
        (
          set_missing_again (codes "_source") s' once sourced,
          set_missing_again (codes "_trace") t' once traced,
          tag_again rows s t s' t',
        )
        refl

  annotate_again :
      (rows : List (Fields F)) (source peer_id strategy source' peer_id' strategy' : Str)
      → annotate (annotate rows source peer_id strategy) source' peer_id' strategy'
        ≡ annotate rows source peer_id strategy
  unfolding annotate
  annotate_again rows s p t s' p' t' = tag_again rows _ _ _ _

module _ {F : Type 0} (generate_key : List (Fields F) → Str) where
  -- the entry that the engine's cache holds for the criteria
  unfoldable pub entry_of :
      Option (SimpleCache (List (Fields F)))
      → List (Fields F)
      → Option (CacheEntry (List (Fields F)))
  entry_of engine criteria = get (engine_of engine).entries (generate_key criteria)

  get-replace_entry :
      (m : Dict (CacheEntry (List (Fields F)))) (key : Str) (rows : List (Fields F))
      (o : Option (CacheEntry (List (Fields F)))) (e : CacheEntry (List (Fields F)))
      → get m key ≡ o
      → get (replace_entry m key rows o) key ≡ some e
      → e.data_of ≡ rows
  unfolding replace_entry
  get-replace_entry m key rows none e h k = ground arith
  get-replace_entry m key rows (some old) e h k =
      let there = get-put m key key (record old { data_of = rows }) in
      let now_there : get (put m key (record old { data_of = rows })) key
          ≡ some (record old { data_of = rows }) =
        there ∙ rw (str_eq_refl key) refl in
      ap (λ c. c.data_of) (sym (some-injective _ _ (sym now_there ∙ k)))

  annotate_remote-entry :
      {Err : Type 0} (strategy : Str) (criteria : List (Fields F))
      (found : SimpleCache (List (Fields F)) × Result Err (List (Fields F))) (r : Fields F)
      (rows : List (Fields F)) (e : CacheEntry (List (Fields F)))
      → (annotate_remote generate_key true strategy criteria found).1 ≡ ok (r ∷ rows)
      → entry_of (annotate_remote generate_key true strategy criteria found).0 criteria ≡ some e
      → e.data_of ≡ r ∷ rows
  unfolding annotate_remote write_through entry_of engine_of annotate tag_missing rows_of_chunk
  annotate_remote-entry strategy criteria (sc, failed x) r rows e h k = ground arith
  annotate_remote-entry strategy criteria (sc, ok []) r rows e h k =
      let none_left : [] ≡ r ∷ rows = ap rows_of_chunk h in ground arith
  annotate_remote-entry strategy criteria (sc, ok (f ∷ found)) r rows e h k =
      get-replace_entry sc.entries (generate_key criteria) _ _ e refl k ∙ ap rows_of_chunk h

  annotate_remote-raw :
      {Err : Type 0} (strategy : Str) (criteria : List (Fields F))
      (found : SimpleCache (List (Fields F)) × Result Err (List (Fields F)))
      (rows : List (Fields F))
      → (annotate_remote generate_key true strategy criteria found).1 ≡ ok rows
      → (raw : List (Fields F)) × (annotate raw (codes "peer") [] strategy ≡ rows)
  unfolding annotate_remote rows_of_chunk
  annotate_remote-raw strategy criteria (sc, failed x) rows h = ground arith
  annotate_remote-raw strategy criteria (sc, ok raw) rows h = (raw, ap rows_of_chunk h)

  get_cached-live :
      (sc : SimpleCache (List (Fields F))) (now : ℕ) (criteria : List (Fields F))
      (e : CacheEntry (List (Fields F)))
      → get sc.entries (generate_key criteria) ≡ some e
      → now ≤ e.expires_at
      → (get_cached generate_key sc now criteria).1 ≡ some e.data_of
  unfolding get_cached answer
  get_cached-live sc now criteria e h live = rw h (ground arith)

  marked_again :
      (marks : Bool) (raw rows : List (Fields F)) (strategy strategy' : Str)
      → annotate raw (codes "peer") [] strategy ≡ rows
      → (if marks then annotate rows (codes "peer") [] strategy' else rows) ≡ rows
  marked_again true raw rows strategy strategy' h =
      rw (sym h) (annotate_again raw (codes "peer") [] strategy (codes "peer") [] strategy')
  marked_again false raw rows strategy strategy' h = refl

  annotate_remote-rows :
      {Err : Type 0} (marks : Bool) (strategy : Str) (criteria : List (Fields F))
      (found : SimpleCache (List (Fields F)) × Result Err (List (Fields F)))
      (rows : List (Fields F))
      → found.1 ≡ ok rows
      → (annotate_remote generate_key marks strategy criteria found).1
        ≡ ok (if marks then annotate rows (codes "peer") [] strategy else rows)
  unfolding annotate_remote rows_of_chunk
  annotate_remote-rows true strategy criteria (sc, ok found) rows h = rw (ap rows_of_chunk h) refl
  annotate_remote-rows false strategy criteria (sc, ok found) rows h = h
  annotate_remote-rows marks strategy criteria (sc, failed x) rows h = ground arith

module _ {F Err : Type 0} (hash_of : Fields F → Str) (generate_key : List (Fields F) → Str)
    (self : Str) where
  or_ask-cached :
      (now : Surroundings F Err) (criteria : List (Fields F))
      (p : SimpleCache (List (Fields F)) × Option (List (Fields F))) (rows : List (Fields F))
      → p.1 ≡ some rows
      → (or_ask hash_of generate_key self now criteria p).1 ≡ ok rows
  unfolding or_ask
  or_ask-cached now criteria (sc, none) rows h = ground arith
  or_ask-cached now criteria (sc, some cached) rows h = ap ok (some-injective _ _ h)

  -- After queryRemote with annotation has given some rows under one strategy: while the entry of the
  -- criteria in the engine's cache lives, queryRemote under any strategy, annotated or not, gives the same
  -- rows, with the provenance that the first strategy wrote.
  pub query_remote-repeated :
      (now later : Surroundings F Err) (engine : Option (SimpleCache (List (Fields F))))
      (criteria : List (Fields F)) (strategy strategy' : Str) (marks : Bool) (r : Fields F)
      (rows : List (Fields F)) (e : CacheEntry (List (Fields F)))
      → let first = query_remote hash_of generate_key self now engine criteria true strategy in
        first.1 ≡ ok (r ∷ rows)
        → entry_of generate_key first.0 criteria ≡ some e
        → later.asked_at ≤ e.expires_at
        → (query_remote hash_of generate_key self later first.0 criteria marks strategy').1
          ≡ ok (r ∷ rows)
  unfolding query_remote engine_query entry_of
  query_remote-repeated now later engine criteria strategy strategy' marks r rows e h k live =
      let found = engine_query hash_of generate_key self now (engine_of engine) criteria in
      let held = annotate_remote-entry generate_key strategy criteria found r rows e h k in
      let (raw, marked) = annotate_remote-raw generate_key strategy criteria found (r ∷ rows) h in
      let kept = query_remote hash_of generate_key self now engine criteria true strategy in
      let p = engine_query hash_of generate_key self later (engine_of kept.0) criteria in
      let again : p.1 ≡ ok (r ∷ rows) =
        or_ask-cached later criteria
          (get_cached generate_key (engine_of kept.0) later.asked_at criteria) e.data_of
          (get_cached-live generate_key (engine_of kept.0) later.asked_at criteria e k live)
        ∙ ap ok held in
      annotate_remote-rows generate_key marks strategy' criteria p (r ∷ rows) again
      ∙ ap ok (marked_again generate_key marks raw (r ∷ rows) strategy strategy' marked)
