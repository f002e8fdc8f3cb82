-- ===== src/Document/Laws.antt =====
-- What a map holds under a key after an assignment or a deletion.
use optimusdb.Base.{◌||◌, none, some, if◌then◌else◌, ◌≡◌, refl, arith}
use optimusdb.Base.Text.{Str, str_eq, str_eq_iff}
use optimusdb.Document.{Value, Fields, end, field, find, has, assign, delete}

module _ {F : Type 0} where
  pub find-assign :
      (m : Fields F) (k j : Str) (v : Value F)
      → find (assign m k v) j ≡ (if str_eq k j then some v else find m j)
  unfolding find assign
  find-assign end k j v = refl
  find-assign (field i w m) k j v =
      ground (arith, str_eq_iff k j, str_eq_iff i k, str_eq_iff i j, find-assign m k j v)

  pub find-delete :
      (m : Fields F) (k j : Str) → find (delete m k) j ≡ (if str_eq k j then none else find m j)
  unfolding find delete
  find-delete end k j = ground arith
  find-delete (field i v m) k j =
      ground (arith, str_eq_iff k j, str_eq_iff i k, str_eq_iff i j, find-delete m k j)

  pub has-assign :
      (r : Fields F) (k j : Str) (v : Value F) → has (assign r k v) j ≡ (str_eq k j || has r j)
  unfolding has assign
  has-assign end k j v = refl
  has-assign (field i w r) k j v =
      ground (arith, has-assign r k j v, str_eq_iff i k, str_eq_iff i j, str_eq_iff k j)
