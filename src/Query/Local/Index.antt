-- ===== src/Query/Local/Index.antt =====
-- app/query_fastpath.go: lists of documents as a scan selects them, under one key and under the
-- equalities that an index answers.
use optimusdb.Base.{
  ℕ, Bool, true, false, ◌&&◌, Option, none, some, List, [], ◌∷◌, ◌≡◌, ◌⊎◌, inl, inr, refl, sym, ap,
  ◌∙◌, ◌==◌, arith, All,
}
use optimusdb.Base.Text.{Str, codes, str_eq, str_eq_iff, contains, split, has_prefix}
use optimusdb.Base.Dict.{Dict, get, Distinct}
use optimusdb.Document.{
  Value, str, obj, Fields, find, index, value_or_nil, as_str, dot, nested_from, get_nested_value,
}
use optimusdb.Query.Match.{and_also, or_else}
use optimusdb.Query.Local.{keep_if, select, listed, says}
use mathlib.Core.Option.{some-injective}

-- a document that a store keyed by "_id" holds under the key
pub data KeyedBy {F : Type 0} (k : Str) : Value F → Type 0 where
  keyed : (m : Fields F) → find m (codes "_id") ≡ some (str k) → KeyedBy k (obj m)

unfoldable pub IsKeyed : {F : Type 0} → Dict (Value F) → Type 0
IsKeyed = All (λ e. KeyedBy e.0 e.1)

pub and_also-true :
    (b c : Option Bool) → and_also b c ≡ some true → (b ≡ some true) × (c ≡ some true)
unfolding and_also
and_also-true none c h = ground arith
and_also-true (some false) c h = ground arith
and_also-true (some true) c h = (refl, h)

pub or_else-false : (b : Option Bool) → or_else b (some false) ≡ b
unfolding or_else
or_else-false none = refl
or_else-false (some true) = refl
or_else-false (some false) = refl

has_prefix-one : (a b : ℕ) (s : Str) → has_prefix (a ∷ s) (b ∷ []) ≡ (a == b && has_prefix s [])
unfolding has_prefix
has_prefix-one a b s = refl

split-plain : (key : Str) → contains key (dot ∷ []) ≡ false → split dot key ≡ key ∷ []
unfolding split contains has_prefix
split-plain [] h = refl
split-plain (c ∷ s) h = ground (arith, split-plain s)

pub keep_if-cases :
    {A : Type 0} (b : Option Bool) (d : A) (rest : Option (List A)) (docs : List A)
    → keep_if b d rest ≡ some docs
    → ((b ≡ some false) × (rest ≡ some docs))
      ⊎ ((kept : List A) × ((b ≡ some true) × ((rest ≡ some kept) × (docs ≡ d ∷ kept))))
unfolding keep_if
keep_if-cases none d rest docs h = ground arith
keep_if-cases (some false) d rest docs h = inl (refl, h)
keep_if-cases (some true) d none docs h = ground arith
keep_if-cases (some true) d (some kept) docs h =
    inr (kept, (refl, (refl, sym (some-injective _ _ h))))

keep_if-true :
    {A : Type 0} (d : A) (kept : List A) → keep_if (some true) d (some kept) ≡ some (d ∷ kept)
unfolding keep_if
keep_if-true d kept = refl

keep_if-false : {A : Type 0} (d : A) (rest : Option (List A)) → keep_if (some false) d rest ≡ rest
unfolding keep_if
keep_if-false d rest = refl

module _ {F : Type 0} where
  value_or_nil-says : (o : Option (Value F)) (s : Str) → value_or_nil o ≡ str s → says o s ≡ true
  unfolding value_or_nil says as_str
  value_or_nil-says none s h = ground arith
  value_or_nil-says (some (str t)) s h = (str_eq_iff t s).1 (some-injective _ _ (ap as_str h))
  value_or_nil-says (some _) s h = ground arith

  pub index-says : (m : Fields F) (key s : Str) → index m key ≡ str s → says (find m key) s ≡ true
  unfolding index
  index-says m key s h = value_or_nil-says (find m key) s h

  pub nested-plain :
      (m : Fields F) (key : Str)
      → contains key (dot ∷ []) ≡ false
      → get_nested_value m key ≡ index m key
  unfolding get_nested_value nested_from
  nested-plain m key h = rw (split-plain key h) refl

  none_left :
      (k id : Str) (m : Dict (Value F))
      → str_eq k id ≡ true
      → get m k ≡ none
      → listed (get m id) ≡ []
  unfolding listed
  none_left k id m same d = rw (sym ((str_eq_iff k id).0 same), d) refl

  pub select-id :
      (f : Value F → Option Bool) (id : Str) (m : Dict (Value F)) (docs : List (Value F))
      → ((k : Str) (d : Value F) → KeyedBy k d → f d ≡ some (str_eq k id))
      → IsKeyed m
      → Distinct m
      → select f m ≡ some docs
      → docs ≡ listed (get m id)
  unfolding select listed get IsKeyed
  select-id f id [] docs tests keyed' d h = sym (some-injective _ _ h)
  select-id f id ((k, v) ∷ m) docs tests keyed' d h =
      elim (keep_if-cases (f v) v (select f m) docs h) [
        | inl (out, rest) ↦
            let other : str_eq k id ≡ false = some-injective _ _ (sym (tests k v keyed'.0) ∙ out) in
            rw other (select-id f id m docs tests keyed'.1 d.1 rest)
        | inr (kept, (taken, (rest, is))) ↦
            let same : str_eq k id ≡ true = some-injective _ _ (sym (tests k v keyed'.0) ∙ taken) in
            rw (same, is)
              (ap (◌∷◌ v)
                (select-id f id m kept tests keyed'.1 d.1 rest ∙ none_left k id m same d.0))
      ]
