-- ===== src/Capacity/Records.antt =====
-- app/app.go and app/service.go: the requests, reservations and constants of the capacity registry, the errors of
-- its commands, and what the code calls of Go's packages encoding/json, strings and time.
use optimusdb.Base.{ℕ, Bool, Option}
use optimusdb.Base.Text.{Str, codes}
use optimusdb.Document.{Fields}

pub data CapacityError (Err : Type 0) : Type 0 where
  no_provider : CapacityError Err
  no_type : CapacityError Err
  no_peer_id : CapacityError Err
  no_cap_id : CapacityError Err
  empty_cdt : CapacityError Err
  unknown_cap_id : CapacityError Err
  was_released : CapacityError Err
  bad_record : CapacityError Err
  bad_json : CapacityError Err
  store_failed : Err → CapacityError Err

pub record CapacityRequest (F : Type 0) : Type 0 where
  pub provider_id : Str
  pub provider_name : Str
  pub capacity_type : Str
  pub capacity_name : Str
  pub region : Str
  pub cdt_version : Str
  pub expected_ra : Str
  pub attributes : Fields F

pub record CapacityReservation (F : Type 0) : Type 0 where
  pub id : Str
  pub cap_id : Str
  pub status : Str
  pub provider_id : Str
  pub provider_name : Str
  pub capacity_type : Str
  pub capacity_name : Str
  pub region : Str
  pub cdt_version : Str
  pub expected_ra : Str
  pub attributes : Fields F
  pub issued_by : Str
  pub issued_at : Str
  pub expires_at : Str
  pub updated_at : Str
  pub cdt_submitted : Bool
  pub cdt_submitted_at : Str
  pub cdt : Fields F
  pub store : Str

abbrev pub capacity_store_name : Str
capacity_store_name = codes "kbcapacity"

-- 24 hours
abbrev pub capacity_reservation_ttl : ℕ
capacity_reservation_ttl = 86400

abbrev pub status_reserved : Str
status_reserved = codes "reserved"

abbrev pub status_active : Str
status_active = codes "active"

abbrev pub status_released : Str
status_released = codes "released"

-- what the code calls of Go's library
pub record GoLibrary (F : Type 0) : Type 0 where
  pub marshal : CapacityReservation F → Option (Fields F)
  pub unmarshal : Fields F → Option (CapacityReservation F)
  pub trim_space : Str → Str
  pub to_lower : Str → Str
  pub equal_fold : Str → Str → Bool
  pub format_time : ℕ → Str
  pub parse_time : Str → Option ℕ
