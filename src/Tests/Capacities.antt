-- ===== src/Tests/Capacities.antt =====
-- A registry of capacities, and the ids of two agents.
use optimusdb.Base.{ℕ, Bool, true, false, Option, none, some, List, [], ◌∷◌, ◌≡◌, refl}
use optimusdb.Base.Text.{Str, codes, str_eq}
use optimusdb.Base.Dict.{Dict, get, put}
use optimusdb.Document.{
  Value, bool, num, str, obj, Fields, end, field, index, as_str, as_obj, as_bool,
}
use optimusdb.Query.Local.{Result, ok, listed}
use optimusdb.Capacity.CapId.{Agent, agent_peer_id, generate_cap_id}
use optimusdb.Capacity.CapId.Unique.{generate_cap_id-parts}
use optimusdb.Capacity.Records.{CapacityError, CapacityReservation, GoLibrary, status_released}
use optimusdb.Capacity.Registry.{CapacityStore}
use optimusdb.Capacity.Registry.Lifecycle.{Command, attach, release}

abbrev first_agent : Agent
first_agent = record { host_text = some (codes "QmAlpha1"); config_peer_id = none; host_id = [] }

abbrev second_agent : Agent
second_agent = record {
  host_text = none;
  config_peer_id = some (codes "QmAlpha1");
  host_id = codes "x";
}

abbrev issued : Str
issued = codes "cap-QmAlpha1-7"

first-issues : generate_cap_id first_agent (codes "7") ≡ some issued
unfolding generate_cap_id str_eq agent_peer_id optimusdb.Capacity.CapId.or_printable
    optimusdb.Capacity.CapId.is_printable_id optimusdb.Capacity.CapId.all_alphanumeric
    optimusdb.Capacity.CapId.is_alphanumeric optimusdb.Capacity.CapId.all_clean
    optimusdb.Capacity.CapId.cap_id_of optimusdb.Capacity.CapId.shortened
first-issues = refl

second-issues : generate_cap_id second_agent (codes "7") ≡ some issued
unfolding generate_cap_id str_eq agent_peer_id optimusdb.Capacity.CapId.or_printable
    optimusdb.Capacity.CapId.is_printable_id optimusdb.Capacity.CapId.all_alphanumeric
    optimusdb.Capacity.CapId.is_alphanumeric optimusdb.Capacity.CapId.all_clean
    optimusdb.Capacity.CapId.cap_id_of optimusdb.Capacity.CapId.shortened
second-issues = refl

generate_cap_id-parts_example :
    (agent_peer_id first_agent ≡ agent_peer_id second_agent) × (codes "7" ≡ codes "7")
generate_cap_id-parts_example =
    generate_cap_id-parts first_agent second_agent (codes "7") (codes "7") issued first-issues
      second-issues

abbrev reservation : CapacityReservation ℕ
reservation = record {
  id = issued;
  cap_id = issued;
  status = status_released;
  provider_id = codes "did:1";
  provider_name = [];
  capacity_type = codes "compute";
  capacity_name = [];
  region = [];
  cdt_version = [];
  expected_ra = [];
  attributes = end;
  issued_by = codes "QmAlpha1";
  issued_at = codes "1";
  expires_at = codes "2";
  updated_at = codes "1";
  cdt_submitted = false;
  cdt_submitted_at = [];
  cdt = end;
  store = codes "kbcapacity";
}

-- an encoding that numbers the fields, but for "_id"
abbrev text : Option Str → Str
text none = []
text (some s) = s

abbrev fields : Option (Fields ℕ) → Fields ℕ
fields none = end
fields (some m) = m

abbrev is_set : Option Bool → Bool
is_set none = false
is_set (some b) = b

abbrev encoded : CapacityReservation ℕ → Fields ℕ
encoded r =
    (field (codes "_id") (str r.id) (
      field (2 ∷ []) (str r.cap_id) (
        field (3 ∷ []) (str r.status) (
          field (4 ∷ []) (str r.provider_id) (
            field (5 ∷ []) (str r.provider_name) (
              field (6 ∷ []) (str r.capacity_type) (
                field (7 ∷ []) (str r.capacity_name) (
                  field (8 ∷ []) (str r.region) (
                    field (9 ∷ []) (str r.cdt_version) (
                      field (10 ∷ []) (str r.expected_ra) (
                        field (11 ∷ []) (obj r.attributes) (
                          field (12 ∷ []) (str r.issued_by) (
                            field (13 ∷ []) (str r.issued_at) (
                              field (14 ∷ []) (str r.expires_at) (
                                field (15 ∷ []) (str r.updated_at) (
                                  field (16 ∷ []) (bool r.cdt_submitted) (
                                    field (17 ∷ []) (str r.cdt_submitted_at) (
                                      field (18 ∷ []) (obj r.cdt)
                                        (field (19 ∷ []) (str r.store) end)))))))))))))))))))

abbrev decoded : Fields ℕ → CapacityReservation ℕ
decoded m = record {
  id = text (as_str (index m (codes "_id")));
  cap_id = text (as_str (index m (2 ∷ [])));
  status = text (as_str (index m (3 ∷ [])));
  provider_id = text (as_str (index m (4 ∷ [])));
  provider_name = text (as_str (index m (5 ∷ [])));
  capacity_type = text (as_str (index m (6 ∷ [])));
  capacity_name = text (as_str (index m (7 ∷ [])));
  region = text (as_str (index m (8 ∷ [])));
  cdt_version = text (as_str (index m (9 ∷ [])));
  expected_ra = text (as_str (index m (10 ∷ [])));
  attributes = fields (as_obj (index m (11 ∷ [])));
  issued_by = text (as_str (index m (12 ∷ [])));
  issued_at = text (as_str (index m (13 ∷ [])));
  expires_at = text (as_str (index m (14 ∷ [])));
  updated_at = text (as_str (index m (15 ∷ [])));
  cdt_submitted = is_set (as_bool (index m (16 ∷ [])));
  cdt_submitted_at = text (as_str (index m (17 ∷ [])));
  cdt = fields (as_obj (index m (18 ∷ [])));
  store = text (as_str (index m (19 ∷ [])));
}

abbrev go : GoLibrary ℕ
go = record {
  marshal = λ r. some (encoded r);
  unmarshal = λ m. some (decoded m);
  trim_space = λ s. s;
  to_lower = λ s. s;
  equal_fold = str_eq;
  format_time = λ n. n ∷ [];
  parse_time = λ s. none;
}

abbrev ds : CapacityStore ℕ (Dict (Value ℕ)) ℕ
ds = record {
  get_doc = λ s id. ok (listed (get s id));
  put_doc = λ s m. (put s (text (as_str (index m (codes "_id")))) (obj m), none);
  query = λ s f. ok [];
}

abbrev answered : List (Value ℕ) → Result ℕ (List (Value ℕ))
answered docs = ok docs

abbrev registry : Dict (Value ℕ)
registry = (issued, obj (encoded reservation)) ∷ []

abbrev record_of : Result (CapacityError ℕ) (Option (CapacityReservation ℕ)) → CapacityReservation ℕ
record_of (ok (some r)) = r
record_of _ = reservation

abbrev is_held : Result (CapacityError ℕ) (Option (CapacityReservation ℕ)) → Bool
is_held (ok (some r)) = true
is_held _ = false

abbrev commands : List (Command ℕ)
commands =
    attach issued (field (codes "tosca") (num 1) end) 5
    ∷ release (codes "cap-other") 6
    ∷ attach issued end 7
    ∷ []
