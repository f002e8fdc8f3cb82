-- ===== src/Capacity/Registry.antt =====
-- app/service.go: ReserveCapacity, GetCapacity, AttachCDT, ReleaseCapacity, ListCapacities and IsExpired. Instants
-- are seconds.
pub mod Lifecycle
use optimusdb.Base.{
  ℕ, ◌+◌, Bool, true, false, ◌||◌, Option, none, some, List, [], ◌∷◌, if◌then◌else◌, ◌==◌, ltb,
}
use optimusdb.Base.Text.{Str, codes, str_eq}
use optimusdb.Base.Dict.{Dict}
use optimusdb.Document.{Value, str, obj, Fields, end, index, assign, size, as_str}
use optimusdb.Base.Text.{str_lt}
use optimusdb.Query.Local.{Result, ok, failed}
use optimusdb.Store.Batch.{Reply}
use optimusdb.Capacity.CapId.{Agent, agent_peer_id, generate_cap_id}
use optimusdb.Capacity.Records.{
  CapacityError, CapacityRequest, CapacityReservation, capacity_store_name,
  capacity_reservation_ttl, status_reserved, status_active, status_released, GoLibrary, no_provider,
  no_type, no_peer_id, no_cap_id, empty_cdt, unknown_cap_id, was_released, bad_record, bad_json,
}
use optimusdb.Capacity.Records.{store_failed}

-- the calls of the document store; `query` is the scan with a filter
pub record CapacityStore (F S Err : Type 0) : Type 0 where
  pub get_doc : S → Str → Result Err (List (Value F))
  pub put_doc : S → Fields F → Reply S Err
  pub query : S → (Value F → Bool) → Result Err (List (Value F))

module _ {F S Err : Type 0} (go : GoLibrary F) (ds : CapacityStore F S Err) where
  open go use {marshal, unmarshal, trim_space, to_lower, equal_fold, format_time, parse_time}

  unfoldable pub with_id : CapacityReservation F → Option (Fields F) → Option (Fields F)
  with_id r none = none
  with_id r (some m) = some (assign m (codes "_id") (str r.id))

  unfoldable pub capacity_to_map : CapacityReservation F → Option (Fields F)
  capacity_to_map r = with_id r (marshal r)

  unfoldable pub with_cap_id : Option (CapacityReservation F) → Option (CapacityReservation F)
  with_cap_id none = none
  with_cap_id (some r) = some (if str_eq r.cap_id [] then record r { cap_id = r.id } else r)

  unfoldable pub capacity_from_map : Fields F → Option (CapacityReservation F)
  capacity_from_map m = with_cap_id (unmarshal m)

  unfoldable pub decoded :
      Option (CapacityReservation F) → Result (CapacityError Err) (Option (CapacityReservation F))
  decoded none = failed bad_json
  decoded (some r) = ok (some r)

  unfoldable pub first_record :
      Result Err (List (Value F)) → Result (CapacityError Err) (Option (CapacityReservation F))
  first_record (failed e) = failed (store_failed e)
  first_record (ok []) = ok none
  first_record (ok (obj m ∷ docs)) = decoded (capacity_from_map m)
  first_record (ok (_ ∷ docs)) = failed bad_record

  unfoldable pub get_capacity :
      S → Str → Result (CapacityError Err) (Option (CapacityReservation F))
  get_capacity s cap_id =
      let id = trim_space cap_id in
      if str_eq id [] then failed no_cap_id else first_record (ds.get_doc s id)

  unfoldable pub settle :
      CapacityReservation F → Reply S Err → S × Result (CapacityError Err) (CapacityReservation F)
  settle res (s, none) = (s, ok res)
  settle res (s, some e) = (s, failed (store_failed e))

  unfoldable pub put_doc_of :
      S
      → CapacityReservation F
      → Option (Fields F)
      → S × Result (CapacityError Err) (CapacityReservation F)
  put_doc_of s res none = (s, failed bad_json)
  put_doc_of s res (some doc) = settle res (ds.put_doc s doc)

  -- capacityToMap, then the Put of the document
  unfoldable pub store_record :
      S → CapacityReservation F → S × Result (CapacityError Err) (CapacityReservation F)
  store_record s res = put_doc_of s res (capacity_to_map res)

  unfoldable pub reservation_of : CapacityRequest F → Str → Str → ℕ → CapacityReservation F
  reservation_of req cap_id peer_id now = record {
    id = cap_id;
    cap_id = cap_id;
    status = status_reserved;
    provider_id = trim_space req.provider_id;
    provider_name = req.provider_name;
    capacity_type = to_lower (trim_space req.capacity_type);
    capacity_name = req.capacity_name;
    region = req.region;
    cdt_version = req.cdt_version;
    expected_ra = req.expected_ra;
    attributes = req.attributes;
    issued_by = peer_id;
    issued_at = format_time now;
    expires_at = format_time (now + capacity_reservation_ttl);
    updated_at = format_time now;
    cdt_submitted = false;
    cdt_submitted_at = [];
    cdt = end;
    store = capacity_store_name;
  }

  unfoldable pub reserve_as :
      S
      → Agent
      → CapacityRequest F
      → ℕ
      → Option Str
      → S × Result (CapacityError Err) (CapacityReservation F)
  reserve_as s kb req now none = (s, failed no_peer_id)
  reserve_as s kb req now (some cap_id) =
      store_record s (reservation_of req cap_id (agent_peer_id kb) now)

  unfoldable pub reserve_capacity :
      S
      → Agent
      → Str
      → ℕ
      → CapacityRequest F
      → S × Result (CapacityError Err) (CapacityReservation F)
  reserve_capacity s kb uuid now req =
      if str_eq (trim_space req.provider_id) []
      then (s, failed no_provider)
      else if str_eq (trim_space req.capacity_type) []
      then (s, failed no_type)
      else reserve_as s kb req now (generate_cap_id kb uuid)

  unfoldable pub with_cdt : CapacityReservation F → Fields F → ℕ → CapacityReservation F
  with_cdt res cdt now = record res {
    cdt = cdt;
    cdt_submitted = true;
    cdt_submitted_at = format_time now;
    updated_at = format_time now;
    status = status_active;
  }

  unfoldable pub attach_to :
      S
      → Fields F
      → ℕ
      → Result (CapacityError Err) (Option (CapacityReservation F))
      → S × Result (CapacityError Err) (CapacityReservation F)
  attach_to s cdt now (failed e) = (s, failed e)
  attach_to s cdt now (ok none) = (s, failed unknown_cap_id)
  attach_to s cdt now (ok (some res)) =
      if str_eq res.status status_released
      then (s, failed was_released)
      else store_record s (with_cdt res cdt now)

  unfoldable pub attach_cdt :
      S → Str → Fields F → ℕ → S × Result (CapacityError Err) (CapacityReservation F)
  attach_cdt s cap_id cdt now =
      if size cdt == 0 then (s, failed empty_cdt) else attach_to s cdt now (get_capacity s cap_id)

  unfoldable pub released : CapacityReservation F → ℕ → CapacityReservation F
  released res now = record res { status = status_released; updated_at = format_time now }

  unfoldable pub release_found :
      S
      → ℕ
      → Result (CapacityError Err) (Option (CapacityReservation F))
      → S × Result (CapacityError Err) (CapacityReservation F)
  release_found s now (failed e) = (s, failed e)
  release_found s now (ok none) = (s, failed unknown_cap_id)
  release_found s now (ok (some res)) = store_record s (released res now)

  unfoldable pub release_capacity :
      S → Str → ℕ → S × Result (CapacityError Err) (CapacityReservation F)
  release_capacity s cap_id now = release_found s now (get_capacity s cap_id)

  unfoldable pub got_or_empty : Option Str → Str
  got_or_empty none = []
  got_or_empty (some s) = s

  -- the loop over the filter of ListCapacities
  unfoldable pub passes : Dict Str → Fields F → Bool
  passes [] m = true
  passes ((k, want) ∷ filter) m =
      let rest = passes filter m in
      if str_eq want []
      then rest
      else if equal_fold (got_or_empty (as_str (index m k))) want
      then rest
      else false

  unfoldable pub passes_doc : Dict Str → Value F → Bool
  passes_doc filter (obj m) = passes filter m
  passes_doc filter _ = false

  unfoldable pub keep_reservation :
      Option (CapacityReservation F) → List (CapacityReservation F) → List (CapacityReservation F)
  keep_reservation none out = out
  keep_reservation (some r) out = r ∷ out

  unfoldable pub reservations_of : List (Value F) → List (CapacityReservation F)
  reservations_of [] = []
  reservations_of (obj m ∷ docs) = keep_reservation (capacity_from_map m) (reservations_of docs)
  reservations_of (_ ∷ docs) = reservations_of docs

  -- sort.Slice on the text of the issue, the latest first; equal ones in whatever order
  unfoldable pub insert_by_issue :
      CapacityReservation F → List (CapacityReservation F) → List (CapacityReservation F)
  insert_by_issue r [] = r ∷ []
  insert_by_issue r (x ∷ out) =
      let rest = insert_by_issue r out in
      if str_lt r.issued_at x.issued_at then x ∷ rest else r ∷ x ∷ out

  unfoldable pub sort_by_issue : List (CapacityReservation F) → List (CapacityReservation F)
  sort_by_issue [] = []
  sort_by_issue (r ∷ out) = insert_by_issue r (sort_by_issue out)

  unfoldable pub listed_capacities :
      Result Err (List (Value F)) → Result (CapacityError Err) (List (CapacityReservation F))
  listed_capacities (failed e) = failed (store_failed e)
  listed_capacities (ok docs) = ok (sort_by_issue (reservations_of docs))

  unfoldable pub list_capacities :
      S → Dict Str → Result (CapacityError Err) (List (CapacityReservation F))
  list_capacities s filter = listed_capacities (ds.query s (passes_doc filter))

  unfoldable pub past : ℕ → Option ℕ → Bool
  past now none = false
  past now (some t) = ltb t now

  unfoldable pub is_expired : Option (CapacityReservation F) → ℕ → Bool
  is_expired none now = false
  is_expired (some r) now =
      if r.cdt_submitted || str_eq r.expires_at []
      then false
      else past now (parse_time r.expires_at)
