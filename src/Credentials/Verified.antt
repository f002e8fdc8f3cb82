-- ===== src/Credentials/Verified.antt =====
-- credentials/cred_queries.go: what a verified credential is.
use optimusdb.Base.{
  ℕ, true, false, Option, none, some, List, [], ◌∷◌, ◌≡◌, ◌⊎◌, inl, inr, refl, ◌==◌, arith,
  Bool-cases, length, ◌≤◌,
}
use optimusdb.Base.Text.{Str, codes, str_eq, str_eq_iff}
use optimusdb.Credentials.{
  Proof, VerifiableCredential, CredentialError, validate_credential, verify_proof, proof_error,
  status_error, expiry_error, add_error, instant_or_zero, verify_errors, verify_credential,
}

add_error-nil :
    (o : Option CredentialError) (errors : List CredentialError)
    → add_error o errors ≡ []
    → (o ≡ none) × (errors ≡ [])
unfolding add_error
add_error-nil none errors h = (refl, h)
add_error-nil (some e) errors h = ground arith

length-nil : {A : Type 0} (xs : List A) → (length xs == 0) ≡ true → xs ≡ []
length-nil [] h = refl
length-nil (x ∷ xs) h = ground arith

-- a proof with this value in place of its own
unfoldable pub with_value : Option Proof → Str → Option Proof
with_value none value = none
with_value (some p) value = some (record p { proof_value = value })

unfoldable pub HasProof : Option Proof → Type 0
HasProof o = (p : Proof) × ((o ≡ some p) × (verify_proof (some p) ≡ none))

proof_error-none : (o : Option Proof) → proof_error o ≡ none → HasProof o
unfolding proof_error HasProof
proof_error-none none h = ground arith
proof_error-none (some p) h = (p, (refl, h))

status_error-none :
    (o : Option Str)
    → status_error o ≡ none
    → (s : Str) × ((o ≡ some s)
        × ((str_eq s (codes "revoked") ≡ false) × (str_eq s (codes "expired") ≡ false)))
unfolding status_error
status_error-none none h = ground arith
status_error-none (some s) h = (s, (refl, ground arith))

expiry_error-none :
    (parse_time : Str → Option ℕ) (date : Str) (now : ℕ)
    → expiry_error parse_time date now ≡ none
    → (date ≡ []) ⊎ (now ≤ instant_or_zero (parse_time date))
unfolding expiry_error
expiry_error-none parse_time date now h = elim (Bool-cases (str_eq date [])) [
  | inl none' ↦ inl ((str_eq_iff date []).0 none')
  | inr given ↦ inr (ground (arith, h, given))
]

-- with_value keeps the checks where both values are there
verify_proof-value :
    (o : Option Proof) (value value' : Str)
    → str_eq value [] ≡ false
    → str_eq value' [] ≡ false
    → proof_error (with_value o value) ≡ proof_error (with_value o value')
unfolding proof_error with_value verify_proof
verify_proof-value none value value' h k = refl
verify_proof-value (some p) value value' h k = simp (h, k) refl

module _ {F : Type 0} (parse_time : Str → Option ℕ) where
  -- A credential that VerifyCredential verifies passes ValidateCredential, has a proof that VerifyProof
  -- accepts and a row in the database that says neither revoked nor expired, and has no expiration date
  -- or one that is not past.
  pub verify_credential_sound :
      (status_of : Str → Option Str) (vc : VerifiableCredential F) (now : ℕ)
      → (verify_credential parse_time status_of vc now).0 ≡ true
      → (validate_credential parse_time vc ≡ none)
        × (HasProof vc.proof
            × (((s : Str) × ((status_of vc.id ≡ some s)
                    × ((str_eq s (codes "revoked") ≡ false)
                        × (str_eq s (codes "expired") ≡ false))))
                × ((vc.expiration_date ≡ [])
                    ⊎ (now ≤ instant_or_zero (parse_time vc.expiration_date)))))
  unfolding verify_credential verify_errors
  verify_credential_sound status_of vc now h =
      let (valid, rest) = add_error-nil _ _ (length-nil _ h) in
      let (proved, rest') = add_error-nil _ _ rest in
      let (held, rest'') = add_error-nil _ _ rest' in
      let (alive, done) = add_error-nil _ _ rest'' in
      (
        valid,
        (
          proof_error-none vc.proof proved,
          (
            status_error-none (status_of vc.id) held,
            expiry_error-none parse_time vc.expiration_date now alive,
          ),
        ),
      )

  -- VerifyCredential does not look at what the value of a proof is: with any two non-empty values in the
  -- place of the proof's own it gives the same answer and the same errors.
  pub verify_credential_any_value :
      (status_of : Str → Option Str) (vc : VerifiableCredential F) (now : ℕ) (value value' : Str)
      → str_eq value [] ≡ false
      → str_eq value' [] ≡ false
      → verify_credential parse_time status_of (record vc { proof = with_value vc.proof value }) now
        ≡ verify_credential parse_time status_of
            (record vc { proof = with_value vc.proof value' })
            now
  unfolding verify_credential verify_errors validate_credential
  verify_credential_any_value status_of vc now value value' h k =
      simp (verify_proof-value vc.proof value value' h k) refl
