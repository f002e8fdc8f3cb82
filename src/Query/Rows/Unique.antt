-- ===== src/Query/Rows/Unique.antt =====
-- app/query_handler.go, queryengine/worker_pool.go and app/service.go: what dropping repeated rows
-- keeps, key by key.
use optimusdb.Base.{
  ◌+◌, Bool, true, false, ◌&&◌, Option, none, some, List, [], ◌∷◌, if◌then◌else◌, ◌≡◌, inl, inr,
  refl, sym, ◌∙◌, ◌==◌, arith, Bool-cases, length, take,
}
use optimusdb.Base.Text.{Str, str_eq, str_eq_iff, str_eq_refl}
use optimusdb.Base.Dict.{Dict, get, read_or, read_or-put}
use optimusdb.Document.{Fields}
use optimusdb.Query.Rows.{
  id_key, dedupe_by_id, is_new, note, unique_from, Schedule, dedup_by, dedup_results, item_key,
}
use mathlib.Core.List.{Permᴰ}

module _ {A : Type 0} (key_of : A → Option Str) where
  unfoldable pub key_is : Str → Option Str → Bool
  key_is key none = false
  key_is key (some k) = str_eq k key

  -- the rows with a key, in their order
  unfoldable pub with_key : Str → List A → List A
  with_key key [] = []
  with_key key (r ∷ rows) =
      let rest = with_key key rows in if key_is key (key_of r) then r ∷ rest else rest

  unfoldable pub lacks_key : Option Str → Bool
  lacks_key none = true
  lacks_key (some key) = false

  unfoldable pub without_key : List A → List A
  without_key [] = []
  without_key (r ∷ rows) =
      let rest = without_key rows in if lacks_key (key_of r) then r ∷ rest else rest

  with_key-if :
      (key : Str) (b : Bool) (r : A) (rows : List A)
      → with_key key (if b then r ∷ rows else rows)
        ≡ (if b && key_is key (key_of r) then r ∷ with_key key rows else with_key key rows)
  unfolding with_key
  with_key-if key true r rows = refl
  with_key-if key false r rows = refl

  -- one row with the key `o`, before rows of which `kept` have the key
  first_of :
      (seen : Dict Bool) (key : Str) (o : Option Str) (r : A) (kept : List A)
      → let after = if read_or (note key_of seen o) key false then [] else take 1 kept in
        (if is_new key_of seen o && key_is key o then r ∷ after else after)
        ≡ (if read_or seen key false then [] else take 1 (if key_is key o then r ∷ kept else kept))
  unfolding note is_new key_is
  first_of seen key none r kept = refl
  first_of seen key (some k) r kept = elim (Bool-cases (str_eq k key)) [
    | inl same ↦ rw (read_or-put, (str_eq_iff k key).0 same, str_eq_refl key) (ground arith)
    | inr other ↦ rw (read_or-put, other) (ground arith)
  ]

  with_key-unique_from :
      (seen : Dict Bool) (key : Str) (rows : List A)
      → with_key key (unique_from key_of seen rows)
        ≡ (if read_or seen key false then [] else take 1 (with_key key rows))
  unfolding with_key unique_from
  with_key-unique_from seen key [] = ground arith
  with_key-unique_from seen key (r ∷ rows) =
      with_key-if key (is_new key_of seen (key_of r)) r _
      ∙ rw (with_key-unique_from (note key_of seen (key_of r)) key rows)
          (first_of seen key (key_of r) r (with_key key rows))

  without_key-if :
      (b : Bool) (r : A) (rows : List A)
      → without_key (if b then r ∷ rows else rows)
        ≡ (if b && lacks_key (key_of r) then r ∷ without_key rows else without_key rows)
  unfolding without_key
  without_key-if true r rows = refl
  without_key-if false r rows = refl

  is_new-lacks_key :
      (seen : Dict Bool) (o : Option Str) → (is_new key_of seen o && lacks_key o) ≡ lacks_key o
  unfolding is_new lacks_key
  is_new-lacks_key seen none = refl
  is_new-lacks_key seen (some k) = ground arith

  without_key-unique_from :
      (seen : Dict Bool) (rows : List A)
      → without_key (unique_from key_of seen rows) ≡ without_key rows
  unfolding without_key unique_from
  without_key-unique_from seen [] = refl
  without_key-unique_from seen (r ∷ rows) =
      without_key-if (is_new key_of seen (key_of r)) r _
      ∙ rw
          (
            is_new-lacks_key seen (key_of r),
            without_key-unique_from (note key_of seen (key_of r)) rows,
          )
          refl

  length-with_key-cons :
      (key : Str) (r : A) (rows : List A)
      → length (with_key key (r ∷ rows))
        ≡ (if key_is key (key_of r) then 1 else 0) + length (with_key key rows)
  unfolding with_key
  length-with_key-cons key r rows = ground arith

  swap_counts :
      (key : Str) (a b : A) (l : List A)
      → length (with_key key (a ∷ b ∷ l)) ≡ length (with_key key (b ∷ a ∷ l))
  unfolding with_key
  swap_counts key a b l = ground arith

  length-with_key-Perm :
      (key : Str) (xs ys : List A)
      → Permᴰ xs ys
      → length (with_key key xs) ≡ length (with_key key ys)
  length-with_key-Perm key _ _ Permᴰ.nil = refl
  length-with_key-Perm key _ _ (Permᴰ.cons {a = a} {b = b} {l₁ = xs} {l₂ = ys} e p) =
      rw
        (
          length-with_key-cons key a xs,
          length-with_key-cons key b ys,
          e,
          length-with_key-Perm key xs ys p,
        )
        refl
  length-with_key-Perm key _ _ (Permᴰ.swap {a = a} {b = b} {a' = a'} {b' = b'} {l = l} e d) =
      rw (e, d) (swap_counts key b' a' l)
  length-with_key-Perm key _ _ (Permᴰ.trans {l₁ = xs} {l₂ = ys} {l₃ = zs} p q) =
      length-with_key-Perm key xs ys p ∙ length-with_key-Perm key ys zs q

  length-take_one : (rows : List A) → length (take 1 rows) ≡ (if length rows == 0 then 0 else 1)
  length-take_one [] = refl
  length-take_one (r ∷ rows) = ground arith

  length-with_key-unique_from :
      (key : Str) (rows : List A)
      → length (with_key key (unique_from key_of [] rows))
        ≡ (if length (with_key key rows) == 0 then 0 else 1)
  unfolding read_or get
  length-with_key-unique_from key rows =
      rw (with_key-unique_from [] key rows) (length-take_one (with_key key rows))

  dedup_by-one :
      (sched : Schedule A) (rows : List A) (key : Str)
      → ((xs : List A) → Permᴰ xs (sched.asked xs))
      → ((xs : List A) → Permᴰ xs (sched.sent xs))
      → length (with_key key (dedup_by key_of sched rows))
        ≡ (if length (with_key key rows) == 0 then 0 else 1)
  unfolding dedup_by
  dedup_by-one sched rows key asks sends =
      rw
        (
          sym (length-with_key-Perm key _ _ (sends (unique_from key_of [] (sched.asked rows)))),
          length-with_key-unique_from key (sched.asked rows),
          length-with_key-Perm key _ _ (asks rows),
        )
        refl

module _ {F : Type 0} where
  -- dedupeByID keeps, for each key, exactly the first of the rows with this string "_id", and keeps every
  -- row whose "_id" is no string or the empty one, these in their order.
  pub dedupe_by_id-first :
      (rows : List (Fields F)) (id : Str)
      → (with_key id_key id (dedupe_by_id rows) ≡ take 1 (with_key id_key id rows))
        × (without_key id_key (dedupe_by_id rows) ≡ without_key id_key rows)
  unfolding dedupe_by_id read_or get
  dedupe_by_id-first rows id =
      (with_key-unique_from id_key [] id rows, without_key-unique_from id_key [] rows)

module _ {F : Type 0} (hash_of : Fields F → Str) where
  -- In whatever order the goroutines of dedupResults ask and send: of the rows with one key (the string
  -- "_id", or else the hash of the row) the result holds exactly one where there is one, and none where
  -- there is none.
  pub dedup_results-one :
      (sched : Schedule (Fields F)) (rows : List (Fields F)) (key : Str)
      → ((xs : List (Fields F)) → Permᴰ xs (sched.asked xs))
      → ((xs : List (Fields F)) → Permᴰ xs (sched.sent xs))
      → length (with_key (item_key hash_of) key (dedup_results hash_of sched rows))
        ≡ (if length (with_key (item_key hash_of) key rows) == 0 then 0 else 1)
  unfolding dedup_results
  dedup_results-one sched rows key asks sends =
      dedup_by-one (item_key hash_of) sched rows key asks sends
