-- ===== src/Query/Cache/Laws.antt =====
-- What a lookup gives after each operation, from every state that the operations reach.
use optimusdb.Base.{
  ℕ, ◌+◌, ◌≡◌, ◌≤◌, refl, Option, none, some, [], ◌∷◌, if◌then◌else◌, ltb, arith, Bool-cases, inl,
  inr,
}
use optimusdb.Base.Text.{Str, str_eq, str_eq_iff}
use optimusdb.Base.Dict.{Dict, get, get-put, Distinct, put-Distinct}
use optimusdb.Query.Cache.{
  CacheEntry, SimpleCache, new_simple_cache, record_hit, record_miss, answer, get_cached,
  set_cached, without_expired, cleanup, clear,
}

module _ {Data : Type 0} where
  -- what of an entry is still alive at an instant
  abbrev alive : ℕ → Option (CacheEntry Data) → Option (CacheEntry Data)
  alive now none = none
  alive now (some e) = if ltb e.expires_at now then none else some e

  get-without_expired-none :
      (now : ℕ) (m : Dict (CacheEntry Data)) (k : Str)
      → get m k ≡ none
      → get (without_expired now m) k ≡ none
  unfolding get without_expired
  get-without_expired-none now [] k h = refl
  get-without_expired-none now ((j, e) ∷ m) k h = ground (arith, get-without_expired-none now m k)

  get-without_expired :
      (now : ℕ) (m : Dict (CacheEntry Data)) (k : Str)
      → Distinct m
      → get (without_expired now m) k ≡ alive now (get m k)
  unfolding get without_expired
  get-without_expired now [] k d = refl
  get-without_expired now ((j, e) ∷ m) k d =
      ground (
        arith,
        get-without_expired now m k d.1,
        get-without_expired-none now m j d.0,
        str_eq_iff j k,
      )

  without_expired-Distinct :
      (now : ℕ) (m : Dict (CacheEntry Data)) → Distinct m → Distinct (without_expired now m)
  unfolding without_expired
  without_expired-Distinct now [] d = tt
  without_expired-Distinct now ((j, e) ∷ m) d = elim (Bool-cases (ltb e.expires_at now)) [
    | inl expired ↦ rw expired (without_expired-Distinct now m d.1)
    | inr fresh ↦
        rw fresh (get-without_expired-none now m j d.0, without_expired-Distinct now m d.1)
  ]

  answer-alive :
      (sc : SimpleCache Data) (now later : ℕ) (o : Option (CacheEntry Data))
      → now ≤ later
      → (answer (cleanup sc now) later (alive now o)).1 ≡ (answer sc later o).1
  unfolding answer
  answer-alive sc now later none h = refl
  answer-alive sc now later (some e) h = ground arith

  -- what is answered hangs on the entry alone
  answer_of :
      (sc tc : SimpleCache Data) (now : ℕ) (o : Option (CacheEntry Data))
      → (answer sc now o).1 ≡ (answer tc now o).1
  unfolding answer
  answer_of sc tc now none = refl
  answer_of sc tc now (some e) = ground arith

  abbrev Counted : SimpleCache Data → SimpleCache Data × Option Data → Type 0
  Counted sc (after, result) =
      (result ≡ none → (after.misses ≡ sc.misses + 1) × (after.hits ≡ sc.hits))
      × ((r : Data) → result ≡ some r → (after.hits ≡ sc.hits + 1) × (after.misses ≡ sc.misses))

  answer-Counted :
      (sc : SimpleCache Data) (now : ℕ) (o : Option (CacheEntry Data))
      → Counted sc (answer sc now o)
  unfolding answer record_hit record_miss
  answer-Counted sc now none = (λ e. (refl, refl), λ r e. ground arith)
  answer-Counted sc now (some entry) = elim (Bool-cases (ltb entry.expires_at now)) [
    | inl expired ↦ rw expired (λ e. (refl, refl), λ r e. ground arith)
    | inr fresh ↦ rw fresh (λ e. ground arith, λ r e. (refl, refl))
  ]

module _ {Criteria Data : Type 0} (generate_key : Criteria → Str) where
  -- The states that the operations reach from a new cache.
  pub data Reached : SimpleCache Data → Type 0 where
    fresh : (ttl : ℕ) → Reached (new_simple_cache ttl)
    looked_up :
        (sc : SimpleCache Data) (now : ℕ) (c : Criteria)
        → Reached sc
        → Reached (get_cached generate_key sc now c).0
    stored :
        (sc : SimpleCache Data) (now : ℕ) (c : Criteria) (result : Data)
        → Reached sc
        → Reached (set_cached generate_key sc now c result)
    cleaned : (sc : SimpleCache Data) (now : ℕ) → Reached sc → Reached (cleanup sc now)
    cleared : (sc : SimpleCache Data) → Reached sc → Reached (clear sc)

  get_cached-entries :
      (sc : SimpleCache Data) (now : ℕ) (c : Criteria)
      → (get_cached generate_key sc now c).0.entries ≡ sc.entries
  unfolding get_cached answer record_hit record_miss
  get_cached-entries sc now c = ground arith

  Reached-Distinct : (sc : SimpleCache Data) → Reached sc → Distinct sc.entries
  unfolding new_simple_cache set_cached cleanup clear
  Reached-Distinct _ (fresh ttl) = tt
  Reached-Distinct _ (looked_up sc now c r) =
      rw (get_cached-entries sc now c) (Reached-Distinct sc r)
  Reached-Distinct _ (stored sc now c result r) =
      put-Distinct sc.entries (generate_key c) _ (Reached-Distinct sc r)
  Reached-Distinct _ (cleaned sc now r) =
      without_expired-Distinct now sc.entries (Reached-Distinct sc r)
  Reached-Distinct _ (cleared sc r) = tt

  -- From every reachable state the cleanup is invisible: each later lookup gives what it would have
  -- given without it.
  pub get_cached-cleanup :
      (sc : SimpleCache Data) (now later : ℕ) (c : Criteria)
      → Reached sc
      → now ≤ later
      → (get_cached generate_key (cleanup sc now) later c).1
        ≡ (get_cached generate_key sc later c).1
  unfolding get_cached
  get_cached-cleanup sc now later c r h =
      rw (get_entry sc now c r) (answer-alive sc now later (get sc.entries (generate_key c)) h)
    where
      get_entry :
          (sc : SimpleCache Data) (now : ℕ) (c : Criteria)
          → Reached sc
          → get (cleanup sc now).entries (generate_key c)
            ≡ alive now (get sc.entries (generate_key c))
      get_entry sc now c r =
          unfold cleanup in
          get-without_expired now sc.entries (generate_key c) (Reached-Distinct sc r)

  -- After a result is stored, a lookup of criteria with the same key gives this result until the
  -- time to live has passed and nothing from then on; criteria with another key give what they gave.
  pub get_cached-set_cached :
      (sc : SimpleCache Data) (now later : ℕ) (c d : Criteria) (result : Data)
      → (get_cached generate_key (set_cached generate_key sc now c result) later d).1 ≡ (
          if str_eq (generate_key c) (generate_key d)
          then if ltb (now + sc.ttl) later then none else some result
          else (get_cached generate_key sc later d).1)
  unfolding get_cached set_cached answer
  get_cached-set_cached sc now later c d result =
      let same = str_eq (generate_key c) (generate_key d) in
      elim (Bool-cases same) [
        | inl e ↦ rw (get-put sc.entries (generate_key c) (generate_key d), e) (ground arith)
        | inr e ↦
            rw (get-put sc.entries (generate_key c) (generate_key d), e)
              (answer_of (set_cached generate_key sc now c result) sc later
                (get sc.entries (generate_key d)))
      ]

  -- A lookup is counted once: as a hit where it gives a result, as a miss where it gives none.
  pub get_cached_counts :
      (sc : SimpleCache Data) (now : ℕ) (c : Criteria)
      → let (after, result) = get_cached generate_key sc now c in
        (result ≡ none → (after.misses ≡ sc.misses + 1) × (after.hits ≡ sc.hits))
        × ((r : Data) → result ≡ some r → (after.hits ≡ sc.hits + 1) × (after.misses ≡ sc.misses))
  unfolding get_cached
  get_cached_counts sc now c = answer-Counted sc now (get sc.entries (generate_key c))
