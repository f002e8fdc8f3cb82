-- ===== src/Capacity/Registry/Lifecycle.antt =====
-- app/service.go: the states of a reservation under the commands of the registry.
use optimusdb.Base.{ℕ, Option, none, some, List, [], ◌∷◌, if◌then◌else◌, ◌≡◌}
use optimusdb.Base.Text.{Str, codes, str_eq}
use optimusdb.Document.{str, obj, Fields, assign}
use optimusdb.Query.Local.{Result, ok, failed}
use optimusdb.Capacity.Records.{CapacityError, CapacityReservation, GoLibrary, status_released}
use optimusdb.Capacity.Registry.{CapacityStore, first_record, attach_cdt, release_capacity}

-- What is relied on of encoding/json and of the store: a reservation that was encoded is decoded again,
-- and a Put without an error replaces what is under the document's "_id", while one with an error changes
-- nothing.
pub record Registers {F S Err : Type 0} (go : GoLibrary F) (ds : CapacityStore F S Err)
    : Type 0 where
  pub round_trip :
      (r : CapacityReservation F) (m : Fields F)
      → go.marshal r ≡ some m
      → go.unmarshal (assign m (codes "_id") (str r.id)) ≡ some r
  pub put_get :
      (s : S) (m : Fields F) (id j : Str)
      → (ds.put_doc s (assign m (codes "_id") (str id))).1 ≡ none
      → ds.get_doc (ds.put_doc s (assign m (codes "_id") (str id))).0 j
        ≡ (if str_eq id j then ok (obj (assign m (codes "_id") (str id)) ∷ []) else ds.get_doc s j)
  pub put_fails :
      (s : S) (doc : Fields F) (e : Err) (j : Str)
      → (ds.put_doc s doc).1 ≡ some e
      → ds.get_doc (ds.put_doc s doc).0 j ≡ ds.get_doc s j

pub data Command (F : Type 0) : Type 0 where
  attach : Str → Fields F → ℕ → Command F
  release : Str → ℕ → Command F

abbrev found_in : {E A : Type 0} → A → Result E (Option A) → A
found_in d (ok (some a)) = a
found_in d (ok none) = d
found_in d (failed e) = d

module _ {F S Err : Type 0} (go : GoLibrary F) (ds : CapacityStore F S Err) where
  unfoldable pub apply : S → Command F → S
  apply s (attach cap_id cdt now) = (attach_cdt go ds s cap_id cdt now).0
  apply s (release cap_id now) = (release_capacity go ds s cap_id now).0

  unfoldable pub run : S → List (Command F) → S
  run s [] = s
  run s (c ∷ commands) = run (apply s c) commands

  -- the record of the store under an id
  unfoldable pub record_under :
      S → Str → Result (CapacityError Err) (Option (CapacityReservation F))
  record_under s id = first_record go ds (ds.get_doc s id)

  -- Every reservation is filed under its own id.
  unfoldable pub IsFiled : S → Type 0
  IsFiled s = (j : Str) (r : CapacityReservation F) → record_under s j ≡ ok (some r) → r.id ≡ j

  unfoldable pub IsReleased : S → Str → Type 0
  IsReleased s id =
      (r : CapacityReservation F) × ((record_under s id ≡ ok (some r))
        × ((r.id ≡ id) × (r.status ≡ status_released)))

  unfoldable filled : CapacityReservation F → CapacityReservation F
  filled r = if str_eq r.cap_id [] then record r { cap_id = r.id } else r
