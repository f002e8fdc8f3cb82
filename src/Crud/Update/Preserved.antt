-- ===== src/Crud/Update/Preserved.antt =====
-- app/service.go: the fields of an updated document.
use optimusdb.Base.{Option, none, some, List, ◌∷◌, if◌then◌else◌, ◌≡◌, inl, inr, refl, Bool-cases}
use optimusdb.Base.Text.{Str, codes, str_eq, str_eq_iff}
use optimusdb.Document.{Value, str, obj, Fields, end, field, find, assign, assign_all}
use optimusdb.Document.Laws.{find-assign}
use optimusdb.Crud.Ids.{doc_id_of, text_of, id_text}
use optimusdb.Crud.Update.{update_doc, add_updated, updated_docs}

module _ {F : Type 0} where
  -- No key of the map stands twice.
  unfoldable pub IsMap : Fields F → Type 0
  IsMap end = Unit
  IsMap (field k v m) = (find m k ≡ none) × IsMap m

  unfoldable pub or_value : Option (Value F) → Option (Value F) → Option (Value F)
  or_value none b = b
  or_value (some a) b = some a

  find-assign_all :
      (m updates : Fields F) (j : Str)
      → IsMap updates
      → find (assign_all m updates) j ≡ or_value (find updates j) (find m j)
  unfolding assign_all find or_value IsMap
  find-assign_all m end j h = refl
  find-assign_all m (field k v updates) j h = elim (Bool-cases (str_eq k j)) [
    | inl same ↦
        let missing : find updates j ≡ none = rw ((str_eq_iff k j).0 same) at h.0 in
        rw (find-assign_all (assign m k v) updates j h.1, missing, find-assign, same) refl
    | inr other ↦ rw (find-assign_all (assign m k v) updates j h.1, find-assign, other) refl
  ]

  find-update_doc :
      (updates record' : Fields F) (doc_id now_text j : Str)
      → IsMap updates
      → find (update_doc updates doc_id now_text record') j ≡ (
          if str_eq (codes "_updated_at") j
          then some (str now_text)
          else if str_eq (codes "_id") j
          then some (str doc_id)
          else or_value (find updates j) (find record' j))
  unfolding update_doc
  find-update_doc updates record' doc_id now_text j h =
      rw (find-assign, find-assign, find-assign_all record' updates j h) refl

  -- Where the update data are a map, a matched document whose "_id" is a string is updated: beside the
  -- documents of the other matches stands one, under the same id, with the old "_id" and the time of the
  -- update under "_updated_at"; under any other key it has the value of the update data where there is one,
  -- and else what the document had.
  pub find-updated_docs :
      (print_float : F → Str) (print_value : Value F → Str) (updates record' : Fields F)
      (id now_text : Str) (matched : List (Value F))
      → IsMap updates
      → find record' (codes "_id") ≡ some (str id)
      → (doc : Fields F) × ((updated_docs print_float print_value updates now_text
              (obj record' ∷ matched)
            ≡ (id, doc) ∷ updated_docs print_float print_value updates now_text matched)
          × ((j : Str)
              → find doc j ≡ (
                  if str_eq (codes "_updated_at") j
                  then some (str now_text)
                  else if str_eq (codes "_id") j
                  then find record' (codes "_id")
                  else or_value (find updates j) (find record' j))))
  unfolding updated_docs add_updated doc_id_of text_of id_text
  find-updated_docs print_float print_value updates record' id now_text matched h has_id = (
    update_doc updates id now_text record',
    (rw has_id refl, λ j. rw has_id (find-update_doc updates record' id now_text j h)),
  )
