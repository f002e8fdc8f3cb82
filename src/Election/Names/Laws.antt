-- ===== src/Election/Names/Laws.antt =====
-- What the names of containers determine.
use optimusdb.Base.{
  ℕ, ◌+◌, ◌-◌, ◌<◌, ◌≡◌, refl, ◌∙◌, ◌≢◌, Bool, true, false, List, [], ◌∷◌, ◌++◌, leb, ◌==◌,
  if◌then◌else◌, length, take, get_or, take-length_append, get_or-append, length-append, arith,
  Bool-cases, inl, inr,
}
use optimusdb.Base.Text.{Str, codes, str_eq, contains, has_prefix, split, join}
use optimusdb.Election.Names.{
  dash, scan_hash, looks_like_hash, extract_base_name, base_of_parts, is_default_coordinator_node,
}

-- A string without the separator is one part.
no_dash : Str → Bool
no_dash [] = true
no_dash (c ∷ s) = if c == dash then false else no_dash s

scan_hash-no_dash : (s : Str) (l d : Bool) → scan_hash s l d ≡ true → no_dash s ≡ true
unfolding scan_hash no_dash
scan_hash-no_dash [] l d h = refl
scan_hash-no_dash (c ∷ s) l d h =
    ground (arith, scan_hash-no_dash s true d, scan_hash-no_dash s l true)

looks_like_hash-no_dash : (s : Str) → looks_like_hash s ≡ true → no_dash s ≡ true
unfolding looks_like_hash
looks_like_hash-no_dash s h = ground (arith, scan_hash-no_dash s false false)

split_of_no_dash : (s : Str) → no_dash s ≡ true → split dash s ≡ s ∷ []
unfolding split no_dash
split_of_no_dash [] h = refl
split_of_no_dash (c ∷ s) h = ground (arith, split_of_no_dash s)

split-ne-nil : (s : Str) → split dash s ≢ []
unfolding split
split-ne-nil [] e = cc
split-ne-nil (c ∷ s) e = ground arith

split-append : (s t : Str) → split dash (s ++ dash ∷ t) ≡ split dash s ++ split dash t
unfolding split
split-append [] t = refl
split-append (c ∷ s) t = ground (arith, split-append s t, split-ne-nil s)

join_head : (c : ℕ) (p : Str) (ps : List Str) → join dash ((c ∷ p) ∷ ps) ≡ c ∷ join dash (p ∷ ps)
unfolding join
join_head c p [] = refl
join_head c p (q ∷ ps) = refl

join_empty_head : (ps : List Str) → ps ≢ [] → join dash ([] ∷ ps) ≡ dash ∷ join dash ps
unfolding join
join_empty_head [] h = absurd (h refl)
join_empty_head (q ∷ ps) h = refl

-- the parts that a further byte makes
push : ℕ → List Str → List Str
push c [] = (c ∷ []) ∷ []
push c (p ∷ ps) = (c ∷ p) ∷ ps

split-dash : (s : Str) → split dash (dash ∷ s) ≡ [] ∷ split dash s
unfolding split
split-dash s = refl

split_other : (c : ℕ) (s : Str) → (c == dash) ≡ false → split dash (c ∷ s) ≡ push c (split dash s)
unfolding split push
split_other c s h = ground arith

join-push : (c : ℕ) (ps : List Str) → ps ≢ [] → join dash (push c ps) ≡ c ∷ join dash ps
unfolding push
join-push c [] h = absurd (h refl)
join-push c (p ∷ ps) h = join_head c p ps

join-split : (s : Str) → join dash (split dash s) ≡ s
join-split [] = unfold split join in refl
join-split (c ∷ s) = elim (Bool-cases (c == dash)) [
  | inl e ↦
      let c_is : c ≡ dash = ground arith in
      rw (c_is, split-dash, join_empty_head (split dash s) (split-ne-nil s), join-split s)
  | inr e ↦ rw (split_other c s e, join-push c (split dash s) (split-ne-nil s), join-split s)
]

-- The parts of a base name followed by two segments without a dash.
split_two :
    (base h p : Str)
    → no_dash h ≡ true
    → no_dash p ≡ true
    → split dash (base ++ dash ∷ (h ++ dash ∷ p)) ≡ split dash base ++ h ∷ p ∷ []
split_two base h p nh np =
    rw (split-append, split-append, split_of_no_dash h nh, split_of_no_dash p np)

long_enough : (s : Str) → looks_like_hash s ≡ true → leb 5 (length s) ≡ true
unfolding looks_like_hash
long_enough s h = ground arith

module _ (xs : List Str) (h p : Str) where
  abbrev parts : List Str
  parts = xs ++ h ∷ p ∷ []

  length-parts : length parts ≡ length xs + 2
  length-parts = omega (arith, length-append xs (h ∷ p ∷ []))

  parts_last : get_or parts (length parts - 1) [] ≡ p
  parts_last =
      let e : length parts - 1 ≡ length xs + 1 = omega (arith, length-parts) in
      rw e (get_or-append xs (h ∷ p ∷ []) 1 [])

  parts_second : get_or parts (length parts - 2) [] ≡ h
  parts_second =
      let e : length parts - 2 ≡ length xs + 0 = omega (arith, length-parts) in
      rw e (get_or-append xs (h ∷ p ∷ []) 0 [])

  parts_front : take (length parts - 2) parts ≡ xs
  parts_front =
      let e : length parts - 2 ≡ length xs = omega (arith, length-parts) in
      rw e (take-length_append xs (h ∷ p ∷ []))

length_of_ne_nil : (xs : List Str) → xs ≢ [] → 0 < length xs
length_of_ne_nil [] n = absurd (n refl)
length_of_ne_nil (x ∷ xs) n = omega arith

base_of_parts-segments :
    (name : Str) (xs : List Str) (h p : Str)
    → xs ≢ []
    → looks_like_hash h ≡ true
    → looks_like_hash p ≡ true
    → base_of_parts name (xs ++ h ∷ p ∷ []) ≡ join dash xs
unfolding base_of_parts
base_of_parts-segments name xs h p n hh hp =
    let many : leb 3 (length (xs ++ h ∷ p ∷ [])) ≡ true =
      ground (arith, length_of_ne_nil xs n, length-parts xs h p) in
    rw (
      many,
      parts_last xs h p,
      parts_second xs h p,
      parts_front xs h p,
      hh,
      hp,
      long_enough h hh,
      long_enough p hp,
    )

-- A pod of a deployment, `<base>-<replica set>-<pod>` with two segments that look like hashes, has
-- the base name, whatever the base name is.
pub extract_base_name-deployment :
    (base h p : Str)
    → looks_like_hash h ≡ true
    → looks_like_hash p ≡ true
    → extract_base_name (base ++ dash ∷ (h ++ dash ∷ p)) ≡ base
unfolding extract_base_name
extract_base_name-deployment base h p hh hp =
    rw (split_two base h p (looks_like_hash-no_dash h hh) (looks_like_hash-no_dash p hp))
      (base_of_parts-segments _ (split dash base) h p (split-ne-nil base) hh hp ∙ join-split base)

has_prefix-append : (p s : Str) → has_prefix (p ++ s) p ≡ true
unfolding has_prefix
has_prefix-append [] s = refl
has_prefix-append (c ∷ p) s = ground (arith, has_prefix-append p s)

contains_of_has_prefix : (s p : Str) → has_prefix s p ≡ true → contains s p ≡ true
unfolding contains
contains_of_has_prefix [] p h = h
contains_of_has_prefix (c ∷ s) p h = ground arith

contains-append : (r s p : Str) → contains s p ≡ true → contains (r ++ s) p ≡ true
unfolding contains
contains-append [] s p h = h
contains-append (c ∷ r) s p h = ground (arith, contains-append r s p)

str_eq_nil-append : (r : Str) (c : ℕ) (s : Str) → str_eq (r ++ c ∷ s) [] ≡ false
unfolding str_eq
str_eq_nil-append [] c s = refl
str_eq_nil-append (d ∷ r) c s = refl

-- Every name with `optimusdb1` inside is taken for the default coordinator: beside optimusdb1 also
-- optimusdb10, optimusdb11 and the like.
pub is_default_coordinator_node-infix :
    (r s : Str) → is_default_coordinator_node (r ++ (codes "optimusdb1" ++ s)) ≡ true
unfolding is_default_coordinator_node
is_default_coordinator_node-infix r s = ground (
  arith,
  str_eq_nil-append r 111 (112 ∷ 116 ∷ 105 ∷ 109 ∷ 117 ∷ 115 ∷ 100 ∷ 98 ∷ 49 ∷ s),
  contains-append r (codes "optimusdb1" ++ s) (codes "optimusdb1") (
      contains_of_has_prefix (codes "optimusdb1" ++ s) (codes "optimusdb1")
        (has_prefix-append (codes "optimusdb1") s)),
)
