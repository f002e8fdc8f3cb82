-- ===== src/Base/Dict.antt =====
-- Go maps with string keys as association lists. The order of the entries stands for the order in
-- which `range` meets them, which Go leaves open.
use mathlib.Core.Path.{◌≡◌, refl}
use mathlib.Core.List.{List, [], ◌∷◌}
use mathlib.Core.Option.{Option, none, some}
use native.Mathlib.Omega.{arith}
use mathlib.Core.List.{Memᴰ}
use mathlib.Core.Path.{sym, ap}
use mathlib.Core.Logic.{inl, inr}
use optimusdb.Base.Tests.{Bool-cases}
use optimusdb.Base.Tests.{if◌then◌else◌}
use optimusdb.Base.Text.{Str, str_eq, str_eq_iff}

abbrev pub Dict {ℓ} : Type ℓ → Type ℓ
Dict V = List (Str × V)

module _ {ℓ} {V : Type ℓ} where
  -- v, ok := m[k]
  unfoldable pub get : Dict V → Str → Option V
  get [] k = none
  get ((j, v) ∷ m) k = if str_eq j k then some v else get m k

  -- m[k] = v
  unfoldable pub put : Dict V → Str → V → Dict V
  put [] k v = (k, v) ∷ []
  put ((j, w) ∷ m) k v = if str_eq j k then (k, v) ∷ m else (j, w) ∷ put m k v

  -- delete(m, k)
  unfoldable pub remove : Dict V → Str → Dict V
  remove [] k = []
  remove ((j, w) ∷ m) k = let rest = remove m k in if str_eq j k then rest else (j, w) ∷ rest

  -- m[k], where a missing key reads as the zero value `d`
  unfoldable pub read_or : Dict V → Str → V → V
  unfolding get
  read_or m k d = elim (get m k) [ none ↦ d | some v ↦ v ]

  pub get-put :
      (m : Dict V) (k j : Str) (v : V)
      → get (put m k v) j ≡ (if str_eq k j then some v else get m j)
  unfolding get put
  get-put [] k j v = refl
  get-put ((i, w) ∷ m) k j v =
      ground (arith, str_eq_iff k j, str_eq_iff i k, str_eq_iff i j, get-put m k j v)

  pub get-remove :
      (m : Dict V) (k j : Str) → get (remove m k) j ≡ (if str_eq k j then none else get m j)
  unfolding get remove
  get-remove [] k j = ground arith
  get-remove ((i, w) ∷ m) k j =
      ground (arith, str_eq_iff k j, str_eq_iff i k, str_eq_iff i j, get-remove m k j)

pub get-nil {ℓ} : {V : Type ℓ} (k : Str) → get {V = V} [] k ≡ none
unfolding get
get-nil k = refl

module _ {ℓ} {V : Type ℓ} where
  pub read_or-put :
      (m : Dict V) (k j : Str) (v d : V)
      → read_or (put m k v) j d ≡ (if str_eq k j then v else read_or m j d)
  unfolding read_or
  read_or-put m k j v d = ground (arith, get-put m k j v)

  pub read_or-remove :
      (m : Dict V) (k j : Str) (d : V)
      → read_or (remove m k) j d ≡ (if str_eq k j then d else read_or m j d)
  unfolding read_or
  read_or-remove m k j d = ground (arith, get-remove m k j)

-- No key stands twice.
abbrev pub Distinct {ℓ} : {V : Type ℓ} → Dict V → Type ℓ
Distinct [] = Unit
Distinct ((k, v) ∷ m) = (get m k ≡ none) × Distinct m

module _ {ℓ} {V : Type ℓ} where
  pub put-Distinct : (m : Dict V) (k : Str) (v : V) → Distinct m → Distinct (put m k v)
  unfolding put
  put-Distinct [] k v d = (get-nil k, tt)
  put-Distinct ((j, w) ∷ m) k v d = elim (Bool-cases (str_eq j k)) [
    | inl same ↦ let j_is : j ≡ k = (str_eq_iff j k).0 same in rw same (rw j_is at d.0, d.1)
    | inr other ↦ rw other (
      ground (arith, get-put m k j v, str_eq_iff k j, str_eq_iff j k, d.0),
      put-Distinct m k v d.1,
    )
  ]

  pub get_of_mem : (m : Dict V) (k : Str) (v : V) → Distinct m → Memᴰ (k, v) m → get m k ≡ some v
  unfolding get
  get_of_mem [] k v d x = elim x [ ]
  get_of_mem ((j, w) ∷ m) k v d (Memᴰ.head e) =
      rw ((str_eq_iff j k).1 (sym (ap (λ p. p.0) e)), ap (λ p. p.1) e)
  get_of_mem ((j, w) ∷ m) k v d (Memᴰ.tail x) = elim (Bool-cases (str_eq j k)) [
    | inl same ↦
        let j_is : j ≡ k = (str_eq_iff j k).0 same in ground (arith, get_of_mem m k v d.1 x, d.0)
    | inr other ↦ rw other (get_of_mem m k v d.1 x)
  ]

pub ruleset dict_laws = (get-put, get-remove, read_or-put, read_or-remove)
