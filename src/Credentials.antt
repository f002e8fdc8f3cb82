-- ===== src/Credentials.antt =====
-- credentials/cred_service.go and credentials/cred_queries.go: ValidateCredential, VerifyProof, extractMetadata and
-- VerifyCredential, with the types of credentials/cred_datamodel.go. `parse_time` is time.Parse for RFC 3339;
-- where it fails Go's zero time is the instant 0. The row of the database is its status, or `none`.
pub mod Verified
use optimusdb.Base.{
  ℕ, Bool, true, false, not, ◌&&◌, Option, none, some, List, [], ◌∷◌, if◌then◌else◌, ◌==◌, length,
  ltb,
}
use optimusdb.Base.Text.{Str, codes, str_eq}
use optimusdb.Document.{Value, str, obj, Fields, index, size, as_str}
use optimusdb.Query.Options.{contains_str}
use optimusdb.Query.Handler.{str_or_empty, is_null}

pub record Proof : Type 0 where
  pub proof_type : Str
  pub verification_method : Str
  pub proof_value : Str
  pub jws : Str

pub record VerifiableCredential (F : Type 0) : Type 0 where
  pub context : List Str
  pub id : Str
  pub types : List Str
  pub issuer : Value F
  pub issuance_date : Str
  pub expiration_date : Str
  pub credential_subject : Fields F
  pub proof : Option Proof

pub record CredentialMetadata : Type 0 where
  pub credential_id : Str
  pub issuer_id : Str
  pub subject_id : Str
  pub credential_type : List Str
  pub issued : Option ℕ
  pub expires : Option ℕ
  pub status : Str
  pub stored_at : ℕ

pub data CredentialError : Type 0 where
  no_context : CredentialError
  wrong_context : CredentialError
  no_type : CredentialError
  wrong_type : CredentialError
  no_issuer : CredentialError
  no_issuance_date : CredentialError
  bad_issuance_date : CredentialError
  bad_expiration_date : CredentialError
  no_subject : CredentialError
  no_proof_type : CredentialError
  no_verification_method : CredentialError
  no_signature : CredentialError
  no_proof : CredentialError
  not_found : CredentialError
  is_revoked : CredentialError
  has_expired : CredentialError

abbrev pub first_context : Str
first_context = codes "https://www.w3.org/2018/credentials/v1"

unfoldable pub fails_when : Bool → CredentialError → Option CredentialError → Option CredentialError
fails_when true e rest = some e
fails_when false e rest = rest

unfoldable pub context_error : List Str → Option CredentialError → Option CredentialError
context_error [] rest = some no_context
context_error (c ∷ context) rest = fails_when (not (str_eq c first_context)) wrong_context rest

unfoldable pub is_absent : Option ℕ → Bool
is_absent none = true
is_absent (some t) = false

unfoldable pub expiry_of : (Str → Option ℕ) → Str → Option ℕ
expiry_of parse_time date = if str_eq date [] then none else parse_time date

module _ {F : Type 0} (parse_time : Str → Option ℕ) where
  unfoldable pub validate_credential : VerifiableCredential F → Option CredentialError
  validate_credential vc = context_error vc.context (
      fails_when (length vc.types == 0) no_type (
        fails_when (not (contains_str vc.types (codes "VerifiableCredential"))) wrong_type (
          fails_when (is_null vc.issuer) no_issuer (
            fails_when (str_eq vc.issuance_date []) no_issuance_date (
              fails_when (is_absent (parse_time vc.issuance_date)) bad_issuance_date (
                fails_when
                  (not (str_eq vc.expiration_date []) && is_absent (parse_time vc.expiration_date))
                  bad_expiration_date
                  (fails_when (size vc.credential_subject == 0) no_subject none)))))))

  unfoldable pub issuer_of : Value F → Str
  issuer_of (str s) = s
  issuer_of (obj m) = str_or_empty (as_str (index m (codes "id")))
  issuer_of _ = []

  unfoldable pub extract_metadata : VerifiableCredential F → ℕ → CredentialMetadata
  extract_metadata vc now = record {
    credential_id = vc.id;
    issuer_id = issuer_of vc.issuer;
    subject_id = str_or_empty (as_str (index vc.credential_subject (codes "id")));
    credential_type = vc.types;
    issued = parse_time vc.issuance_date;
    expires = expiry_of parse_time vc.expiration_date;
    status = codes "active";
    stored_at = now;
  }

unfoldable pub verify_proof : Option Proof → Option CredentialError
verify_proof none = none
verify_proof (some p) = fails_when (str_eq p.proof_type []) no_proof_type (
    fails_when (str_eq p.verification_method []) no_verification_method
      (fails_when (str_eq p.proof_value [] && str_eq p.jws []) no_signature none))

unfoldable pub add_error : Option CredentialError → List CredentialError → List CredentialError
add_error none errors = errors
add_error (some e) errors = e ∷ errors

unfoldable pub proof_error : Option Proof → Option CredentialError
proof_error none = some no_proof
proof_error (some p) = verify_proof (some p)

unfoldable pub status_error : Option Str → Option CredentialError
status_error none = some not_found
status_error (some status) =
    if str_eq status (codes "revoked")
    then some is_revoked
    else if str_eq status (codes "expired")
    then some has_expired
    else none

unfoldable pub instant_or_zero : Option ℕ → ℕ
instant_or_zero none = 0
instant_or_zero (some t) = t

unfoldable pub expiry_error : (Str → Option ℕ) → Str → ℕ → Option CredentialError
expiry_error parse_time date now =
    if not (str_eq date []) && ltb (instant_or_zero (parse_time date)) now
    then some has_expired
    else none

module _ {F : Type 0} (parse_time : Str → Option ℕ) where
  -- the errors of VerifyCredential, in their order
  unfoldable pub verify_errors :
      (Str → Option Str) → VerifiableCredential F → ℕ → List CredentialError
  verify_errors status_of vc now = add_error (validate_credential parse_time vc) (
      add_error (proof_error vc.proof) (
        add_error (status_error (status_of vc.id))
          (add_error (expiry_error parse_time vc.expiration_date now) [])))

  unfoldable pub verify_credential :
      (Str → Option Str) → VerifiableCredential F → ℕ → Bool × List CredentialError
  verify_credential status_of vc now =
      let errors = verify_errors status_of vc now in (length errors == 0, errors)
