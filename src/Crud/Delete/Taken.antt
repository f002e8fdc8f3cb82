-- ===== src/Crud/Delete/Taken.antt =====
-- app/service.go: the keys of the documents that a filter takes, and the entries of the others.
use mathlib.Core.List.{Permᴰ}
use mathlib.Core.List.Permᴰ
use optimusdb.Base.{
  suc, Bool, false, Option, none, some, List, [], ◌∷◌, if◌then◌else◌, ◌≡◌, inl, inr, refl, sym, ap,
  ◌∙◌, arith, Bool-cases, length, map,
}
use optimusdb.Base.Text.{Str, str_eq, str_eq_iff, str_eq_refl}
use optimusdb.Base.Dict.{Dict, get, remove, get-remove, Distinct}
use optimusdb.Document.{Value}
use optimusdb.Query.Match.{matched}
use optimusdb.Query.Options.{contains_str}
use optimusdb.Query.Local.{select}
use optimusdb.Query.Local.Index.{KeyedBy, IsKeyed, keep_if-cases}
use optimusdb.Crud.Ids.{doc_id_of, text_of, id_text}
use mathlib.Core.Option.{some-injective}
use optimusdb.Base.{length-map}

unfoldable pub remove_all : {V : Type 0} → Dict V → List Str → Dict V
remove_all m [] = m
remove_all m (k ∷ keys) = remove_all (remove m k) keys

remove-missing : {V : Type 0} (m : Dict V) (k : Str) → get m k ≡ none → remove m k ≡ m
unfolding remove get
remove-missing [] k h = refl
remove-missing ((j, v) ∷ m) k h = ground (arith, remove-missing m k)

remove_all-skip :
    {V : Type 0} (k : Str) (v : V) (m : Dict V) (keys : List Str)
    → contains_str keys k ≡ false
    → remove_all ((k, v) ∷ m) keys ≡ (k, v) ∷ remove_all m keys
unfolding remove_all contains_str remove
remove_all-skip k v m [] h = refl
remove_all-skip k v m (j ∷ keys) h =
    let other : str_eq k j ≡ false = ground (arith, str_eq_iff j k, str_eq_iff k j, h) in
    let later : contains_str keys k ≡ false = ground (arith, h) in
    rw other (remove_all-skip k v (remove m j) keys later)

remove-first :
    {V : Type 0} (k : Str) (v : V) (m : Dict V) → get m k ≡ none → remove ((k, v) ∷ m) k ≡ m
unfolding remove
remove-first k v m h = rw (str_eq_refl k) (remove-missing m k h)

module _ {V : Type 0} (f : V → Option Bool) where
  -- the keys of the documents that a filter takes, and the entries of the others
  unfoldable pub taken : Dict V → List Str
  taken [] = []
  taken ((k, d) ∷ m) = let rest = taken m in if matched (f d) then k ∷ rest else rest

  unfoldable pub rejected : Dict V → Dict V
  rejected [] = []
  rejected ((k, d) ∷ m) = let rest = rejected m in if matched (f d) then rest else (k, d) ∷ rest

  taken-missing : (m : Dict V) (k : Str) → get m k ≡ none → contains_str (taken m) k ≡ false
  unfolding taken get contains_str
  taken-missing [] k h = refl
  taken-missing ((j, d) ∷ m) k h = ground (arith, taken-missing m k)

  remove_all-taken : (m : Dict V) → Distinct m → remove_all m (taken m) ≡ rejected m
  unfolding remove_all taken rejected remove
  remove_all-taken [] h = refl
  remove_all-taken ((k, d) ∷ m) h = elim (Bool-cases (matched (f d))) [
    | inl yes' ↦
        rw yes' (ap (λ n. remove_all n (taken m)) (remove-first k d m h.0) ∙ remove_all-taken m h.1)
    | inr no' ↦
        rw (no', remove_all-skip k d m (taken m) (taken-missing m k h.0), remove_all-taken m h.1)
          refl
  ]

get-remove_all :
    {V : Type 0} (m : Dict V) (keys : List Str) (k : Str)
    → get (remove_all m keys) k ≡ (if contains_str keys k then none else get m k)
unfolding remove_all contains_str
get-remove_all m [] k = refl
get-remove_all m (j ∷ keys) k = ground (arith, get-remove_all (remove m j) keys k, get-remove m j k)

-- the ids that a deletion of these documents removes; a document without one is passed over
unfoldable pub keep_id : Option Str → List Str → List Str
keep_id none ids = ids
keep_id (some id) ids = id ∷ ids

unfoldable pub given : List (Option Str) → List Str
given [] = []
given (o ∷ ids) = keep_id o (given ids)

keep_id-Perm :
    (o : Option Str) {xs ys : List Str} → Permᴰ xs ys → Permᴰ (keep_id o xs) (keep_id o ys)
unfolding keep_id
keep_id-Perm none p = p
keep_id-Perm (some id) p = Permᴰ.cons refl p

keep_id-swap :
    (a b : Option Str) (xs : List Str) → Permᴰ (keep_id a (keep_id b xs)) (keep_id b (keep_id a xs))
unfolding keep_id
keep_id-swap none b xs = Permᴰ.refl _
keep_id-swap (some i) none xs = Permᴰ.refl _
keep_id-swap (some i) (some j) xs = Permᴰ.swap refl refl

given-Perm : {xs ys : List (Option Str)} → Permᴰ xs ys → Permᴰ (given xs) (given ys)
unfolding given
given-Perm Permᴰ.nil = Permᴰ.nil
given-Perm (Permᴰ.cons {b = b} e p) = rw e (keep_id-Perm b (given-Perm p))
given-Perm (Permᴰ.swap {l = l} e d) = rw (e, d) (keep_id-swap _ _ (given l))
given-Perm (Permᴰ.trans p q) = Permᴰ.trans (given-Perm p) (given-Perm q)

contains_str-Perm :
    (k : Str) {xs ys : List Str} → Permᴰ xs ys → contains_str xs k ≡ contains_str ys k
unfolding contains_str
contains_str-Perm k Permᴰ.nil = refl
contains_str-Perm k (Permᴰ.cons e p) = rw (e, contains_str-Perm k p) refl
contains_str-Perm k (Permᴰ.swap e d) = rw (e, d) (ground arith)
contains_str-Perm k (Permᴰ.trans p q) = contains_str-Perm k p ∙ contains_str-Perm k q

length-Perm : {A : Type 0} {xs ys : List A} → Permᴰ xs ys → length xs ≡ length ys
length-Perm Permᴰ.nil = refl
length-Perm (Permᴰ.cons e p) = ap suc (length-Perm p)
length-Perm (Permᴰ.swap e d) = refl
length-Perm (Permᴰ.trans p q) = length-Perm p ∙ length-Perm q

unfoldable pub present : {V : Type 0} → List V → List (Option V)
present [] = []
present (x ∷ xs) = some x ∷ present xs

given-present : (keys : List Str) → given (present keys) ≡ keys
unfolding given present keep_id
given-present [] = refl
given-present (k ∷ keys) = ap (λ xs. k ∷ xs) (given-present keys)

length-present : {V : Type 0} (xs : List V) → length (present xs) ≡ length xs
unfolding present
length-present [] = refl
length-present (x ∷ xs) = ap suc (length-present xs)

module _ {F : Type 0} (print_float : F → Str) (print_value : Value F → Str) where
  doc_id_of-keyed :
      (k : Str) (d : Value F) → KeyedBy k d → doc_id_of print_float print_value d ≡ some k
  unfolding doc_id_of text_of id_text
  doc_id_of-keyed k _ (KeyedBy.keyed m h) = rw h refl

  doc_id_of-select :
      (f : Value F → Option Bool) (m : Dict (Value F)) (docs : List (Value F))
      → IsKeyed m
      → select f m ≡ some docs
      → map (doc_id_of print_float print_value) docs ≡ present (taken f m)
  unfolding taken present select IsKeyed matched
  doc_id_of-select f [] docs keyed' h = rw (sym (some-injective _ _ h)) refl
  doc_id_of-select f ((k, d) ∷ m) docs keyed' h = elim (keep_if-cases (f d) d (select f m) docs h) [
    | inl (out, rest) ↦ rw out (doc_id_of-select f m docs keyed'.1 rest)
    | inr (kept, (was, (rest, is))) ↦
        rw (was, is, doc_id_of-keyed k d keyed'.0, doc_id_of-select f m kept keyed'.1 rest) refl
  ]

  length-taken :
      (f : Value F → Option Bool) (m : Dict (Value F)) (docs : List (Value F))
      → IsKeyed m
      → select f m ≡ some docs
      → length (taken f m) ≡ length docs
  length-taken f m docs keyed' h =
      sym (length-present (taken f m))
      ∙ (sym (ap length (doc_id_of-select f m docs keyed' h))
          ∙ length-map (doc_id_of print_float print_value) docs)

  -- Where documents come in any order, without their ids the index has what the filter does not take.
  pub given-rejected :
      (f : Value F → Option Bool) (m : Dict (Value F)) (docs got : List (Value F))
      → IsKeyed m
      → Distinct m
      → select f m ≡ some docs
      → Permᴰ docs got
      → let ids = given (map (doc_id_of print_float print_value) got) in
        ((k : Str) → (if contains_str ids k then none else get m k) ≡ get (rejected f m) k)
        × (length ids ≡ length docs)
  given-rejected f m docs got keyed' distinct h p =
      let named = doc_id_of-select f m docs keyed' h in
      let kept : given (map (doc_id_of print_float print_value) docs) ≡ taken f m =
        ap given named ∙ given-present (taken f m) in
      let moved = given-Perm (Permᴰ.map (doc_id_of print_float print_value) p) in
      (
        λ k.
            rw
              (
                sym (contains_str-Perm k moved),
                kept,
                sym (get-remove_all m (taken f m) k),
                remove_all-taken f m distinct,
              )
              refl,
        sym (length-Perm moved) ∙ (ap length kept ∙ length-taken f m docs keyed' h),
      )
