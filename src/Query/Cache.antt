-- ===== src/Query/Cache.antt =====
-- queryengine/cache.go: SimpleCache. The key of a query, the hash of its criteria as JSON, is the
-- argument `generate_key`. One call reads the clock once here. `cleanup` is one tick of its loop.
pub mod Laws
use optimusdb.Base.{ℕ, ◌+◌, Option, none, some, [], ◌∷◌, if◌then◌else◌, ltb}
use optimusdb.Base.Text.{Str}
use optimusdb.Base.Dict.{Dict, get, put}

pub record CacheEntry (Data : Type 0) : Type 0 where
  pub data_of : Data
  pub expires_at : ℕ
  pub created_at : ℕ

pub record SimpleCache (Data : Type 0) : Type 0 where
  pub entries : Dict (CacheEntry Data)
  pub ttl : ℕ
  pub hits : ℕ
  pub misses : ℕ

module _ {Data : Type 0} where
  unfoldable pub new_simple_cache : ℕ → SimpleCache Data
  new_simple_cache ttl = record { entries = []; ttl = ttl; hits = 0; misses = 0 }

  unfoldable pub record_hit : SimpleCache Data → SimpleCache Data
  record_hit sc = record sc { hits = sc.hits + 1 }

  unfoldable pub record_miss : SimpleCache Data → SimpleCache Data
  record_miss sc = record sc { misses = sc.misses + 1 }

  unfoldable pub answer :
      SimpleCache Data → ℕ → Option (CacheEntry Data) → SimpleCache Data × Option Data
  answer sc now none = (record_miss sc, none)
  answer sc now (some entry) =
      if ltb entry.expires_at now
      then (record_miss sc, none)
      else (record_hit sc, some entry.data_of)

  unfoldable pub without_expired : ℕ → Dict (CacheEntry Data) → Dict (CacheEntry Data)
  without_expired now [] = []
  without_expired now ((key, entry) ∷ m) =
      let rest = without_expired now m in
      if ltb entry.expires_at now then rest else (key, entry) ∷ rest

  unfoldable pub cleanup : SimpleCache Data → ℕ → SimpleCache Data
  cleanup sc now = record sc { entries = without_expired now sc.entries }

  unfoldable pub clear : SimpleCache Data → SimpleCache Data
  clear sc = record sc { entries = [] }

module _ {Criteria Data : Type 0} (generate_key : Criteria → Str) where
  unfoldable pub get_cached : SimpleCache Data → ℕ → Criteria → SimpleCache Data × Option Data
  get_cached sc now criteria = answer sc now (get sc.entries (generate_key criteria))

  unfoldable pub set_cached : SimpleCache Data → ℕ → Criteria → Data → SimpleCache Data
  set_cached sc now criteria result =
      let entry : CacheEntry Data = record {
        data_of = result;
        expires_at = now + sc.ttl;
        created_at = now;
      } in
      record sc { entries = put sc.entries (generate_key criteria) entry }
