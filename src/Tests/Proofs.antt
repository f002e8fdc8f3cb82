-- ===== src/Tests/Proofs.antt =====
-- Credentials, and the errors of their verification.
use optimusdb.Base.{ℕ, false, Option, none, some, [], ◌∷◌, ◌≡◌, refl}
use optimusdb.Base.Text.{Str, codes, str_eq}
use optimusdb.Document.{str, end, field}
use optimusdb.Credentials.{Proof, VerifiableCredential, first_context, verify_credential}
use optimusdb.Base.{◌-◌}
use optimusdb.Credentials.Verified.{with_value, verify_credential_any_value}

abbrev proof_with : Str → Proof
proof_with value = record {
  proof_type = codes "Ed25519";
  verification_method = codes "did:1#key";
  proof_value = value;
  jws = [];
}

abbrev credential : VerifiableCredential ℕ
credential = record {
  context = first_context ∷ [];
  id = codes "vc1";
  types = codes "VerifiableCredential" ∷ [];
  issuer = str (codes "did:1");
  issuance_date = codes "5";
  expiration_date = codes "9";
  credential_subject = field (codes "id") (str (codes "did:2")) end;
  proof = some (proof_with (codes "z1"));
}

abbrev day_of : Str → Option ℕ
day_of [] = none
day_of (c ∷ s) = some (c - 48)

abbrev active_row : Str → Option Str
active_row id = some (codes "active")

first_value : str_eq (codes "z1") [] ≡ false
unfolding str_eq
first_value = refl

other_value : str_eq (codes "forged") [] ≡ false
unfolding str_eq
other_value = refl

verify_credential_any_value_example :
    verify_credential day_of active_row
      (record credential { proof = with_value credential.proof (codes "z1") })
      7
    ≡ verify_credential day_of active_row
        (record credential { proof = with_value credential.proof (codes "forged") })
        7
verify_credential_any_value_example =
    verify_credential_any_value day_of active_row credential 7 (codes "z1") (codes "forged")
      first_value other_value
