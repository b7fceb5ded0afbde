-- ===== src/Kernel/Enrollment.antt =====
-- src/kernel/enrollment.rs: bindings of workloads to services, the requests that enroll an
-- instance and their proofs. The crates that sign and hash are parameters; a challenge is the number
-- of its 32 bytes.
pub mod Service
use infernal_law.Base.{
  List, [], ◌∷◌, ℕ, ◌*◌, ℤ, pos, ltb, Bool, true, false, not, ◌||◌, ◌==◌, Option, Result, ok, err,
  reject, Action, ◌>>=◌, ◌>>◌, if◌then◌else◌, length, any_row, be_bytes, encode_fields, Text, codes,
  text_eq, bytes, trim, starts_with,
}
use infernal_law.Kernel.Faults.{Cause}
use infernal_law.Kernel.InstanceKeys.{Crypto, InstancePublicKey, InstanceCredential, sign}
use infernal_law.Kernel.Instances.{InstanceRegistryError}

abbrev pub enrollment_audience : Text
enrollment_audience = codes "infernal-law-enrollment"

abbrev pub enrollment_lifetime_seconds : ℤ
enrollment_lifetime_seconds = pos 30

abbrev pub proof_context : List ℕ
proof_context = codes "infernal-law/enrollment/v1"

abbrev pub max_name_length : ℕ
max_name_length = 253

abbrev pub max_uid_length : ℕ
max_uid_length = 253

abbrev pub max_token_length : ℕ
max_token_length = 32 * 1024

pub data EnrollmentError : Type 0 where
  audience_mismatch binding_disabled binding_not_found challenge_rejected : EnrollmentError
  invalid_field invalid_proof pod_mismatch service_mismatch token_rejected : EnrollmentError
  repository : Cause → EnrollmentError
  registry : InstanceRegistryError → EnrollmentError

abbrev is_empty : Text → Bool
is_empty s = elim s [ [] ↦ true | _ ↦ false ]

-- The test of `validate_field` on the trimmed text.
unfoldable pub is_bad_field : ℕ → Text → Bool
unfolding bytes
is_bad_field max value =
    is_empty value || ltb max (length (bytes value)) || any_row (λ c. c == 0) value

unfoldable pub validate_field : Text → ℕ → Result Text EnrollmentError
unfolding trim
validate_field text max =
    let value = trim text in if is_bad_field max value then err invalid_field else ok value

-- `validate_endpoint`.
unfoldable pub validate_service_endpoint : Text → Result Text EnrollmentError
unfolding text_eq starts_with
validate_service_endpoint value = validate_field value 2048 >>= λ endpoint.
    if text_eq endpoint (codes "https://") || not (starts_with endpoint (codes "https://"))
    then err invalid_field
    else ok endpoint

pub record VerifiedWorkload : Type 0 where
  pub namespace : Text
  pub service_account : Text
  pub service_account_uid : Text
  pub pod_name : Text
  pub pod_uid : Text
  pub audiences : List Text

-- `VerifiedWorkload::new`.
unfoldable pub verified_workload :
    Text → Text → Text → Text → Text → List Text → Result VerifiedWorkload EnrollmentError
verified_workload namespace account uid pod pod_uid audiences = do
  ns ← validate_field namespace max_name_length
  name ← validate_field account max_name_length
  account_uid ← validate_field uid max_uid_length
  pod_name ← validate_field pod max_name_length
  pod_id ← validate_field pod_uid max_uid_length
  ok (record {
    namespace = ns;
    service_account = name;
    service_account_uid = account_uid;
    pod_name = pod_name;
    pod_uid = pod_id;
    audiences = audiences;
  })

pub record EnrollmentBinding : Type 0 where
  pub service_id : ℕ
  pub namespace : Text
  pub service_account : Text
  pub service_account_uid : Text
  pub enabled : Bool

-- `EnrollmentBinding::restore`.
unfoldable pub restore_binding :
    ℕ → Text → Text → Text → Bool → Result EnrollmentBinding EnrollmentError
restore_binding service namespace account uid enabled = do
  ns ← validate_field namespace max_name_length
  name ← validate_field account max_name_length
  account_uid ← validate_field uid max_uid_length
  ok (record {
    service_id = service;
    namespace = ns;
    service_account = name;
    service_account_uid = account_uid;
    enabled = enabled;
  })

-- `EnrollmentBinding::new_disabled`.
unfoldable pub new_disabled : ℕ → Text → Text → Text → Result EnrollmentBinding EnrollmentError
new_disabled service namespace account uid = restore_binding service namespace account uid false

pub record EnrollmentRequest : Type 0 where
  pub challenge : ℕ
  pub public_key : InstancePublicKey
  pub endpoint : Text
  pub claimed_pod_uid : Text
  pub workload_token : Text
  pub signature : ℕ

-- `EnrollmentRequest::restore`.
unfoldable pub restore_enrollment :
    ℕ → InstancePublicKey → Text → Text → Text → ℕ → Result EnrollmentRequest EnrollmentError
unfolding bytes
restore_enrollment challenge public_key endpoint pod_uid token signature = do
  endpoint_text ← validate_service_endpoint endpoint
  pod ← validate_field pod_uid max_uid_length
  reject (is_empty token || ltb max_token_length (length (bytes token))) invalid_field
  ok (record {
    challenge = challenge;
    public_key = public_key;
    endpoint = endpoint_text;
    claimed_pod_uid = pod;
    workload_token = token;
    signature = signature;
  })

-- `trait EnrollmentBindingRepository` over a store `S`.
pub record EnrollmentBindingRepository (S : Type 0) : Type 0 where
  pub insert_disabled : EnrollmentBinding → Action S Unit EnrollmentError
  pub set_enabled : ℕ → Bool → Action S Unit EnrollmentError
  pub find_workload : Text → Text → Text → S → Result (Option EnrollmentBinding) EnrollmentError
  pub insert_challenge : ℕ → ℕ → ℤ → Action S Unit EnrollmentError
  pub consume_challenge : ℕ → ℕ → ℤ → Action S Unit EnrollmentError

module _ (crypto : Crypto) where
  abbrev pub proof_fields : ℕ → InstancePublicKey → Text → Text → Text → List (List ℕ)
  proof_fields challenge key endpoint pod_uid token =
      proof_context
      ∷ be_bytes 32 challenge
      ∷ be_bytes 16 key.service_id
      ∷ be_bytes 16 key.instance_id
      ∷ be_bytes 16 key.key_id
      ∷ be_bytes 32 key.public_key
      ∷ bytes endpoint
      ∷ bytes pod_uid
      ∷ be_bytes 32 (crypto.sha256 (bytes token))
      ∷ []

  -- `proof_message`.
  unfoldable pub proof_message : ℕ → InstancePublicKey → Text → Text → Text → List ℕ
  proof_message challenge key endpoint pod_uid token =
      encode_fields (proof_fields challenge key endpoint pod_uid token)

  -- `EnrollmentRequest::sign`.
  unfoldable pub sign_enrollment :
      InstanceCredential → ℕ → Text → Text → Text → Result EnrollmentRequest EnrollmentError
  unfolding bytes
  sign_enrollment credential challenge endpoint pod_uid token = do
    endpoint_text ← validate_service_endpoint endpoint
    pod ← validate_field pod_uid max_uid_length
    reject (is_empty token || ltb max_token_length (length (bytes token))) invalid_field
    ok (record {
      challenge = challenge;
      public_key = credential.public;
      endpoint = endpoint_text;
      claimed_pod_uid = pod;
      workload_token = token;
      signature =
          sign crypto credential
            (proof_message challenge credential.public endpoint_text pod token);
    })
