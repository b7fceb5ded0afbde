-- ===== src/Kernel/ServiceRequests.antt =====
-- src/kernel/service_requests.rs: signed requests, the lines that are signed, and the
-- parsing of the signature headers. The texts of UUIDs and base64 are those of crates: they are a
-- parameter.
pub mod Verifier
pub mod RoundTrip
pub mod Verified
use infernal_law.Base.{
  List, [], ℕ, ◌-◌, ℤ, pos, leb, ltb_ℤ, leb_ℤ, ◌-ℤ◌, Bool, true, false, not, ◌&&◌, ◌||◌, ◌==◌,
  Option, ◌++◌, Result, ok, err, ok_or, reject, ◌>>◌, if◌then◌else◌, length, all, any_row, i64_max,
  saturating_add, of_bytes, Text, codes, text_eq, bytes, trim, starts_with, strip_prefix,
  strip_last, split_once, decimal, number, ◌>>=◌,
}
use infernal_law.Kernel.Instances.{InstanceRegistryError}
use infernal_law.Kernel.Replay.{clock_skew_seconds}

-- The `Display` and `FromStr` of a UUID, and the standard base64 encoding.
pub record Codec : Type 0 where
  pub uuid_text : ℕ → Text
  pub parse_uuid : Text → Option ℕ
  pub encode : List ℕ → Text
  pub decode : Text → Option (List ℕ)

abbrev pub signature_validity_seconds : ℤ
signature_validity_seconds = pos 30

abbrev pub min_nonce_length : ℕ
min_nonce_length = 16

abbrev pub max_nonce_length : ℕ
max_nonce_length = 128

unfoldable pub covered_components : Text
covered_components =
    codes
      "(\"@method\" \"@target-uri\" \"content-digest\" \"content-type\" \"infernal-service-id\" \"infernal-instance-id\" \"infernal-request-id\")"

-- `ServiceRequestAuthenticationError`.
pub data AuthenticationError : Type 0 where
  credential_mismatch invalid_content_digest invalid_signature : AuthenticationError
  malformed not_fresh : AuthenticationError
  registry : InstanceRegistryError → AuthenticationError

pub record ServiceRequestParts : Type 0 where
  pub method : Text
  pub authority : Text
  pub path_and_query : Text
  pub content_type : Text
  pub body : List ℕ
  pub request_id : ℕ

abbrev is_empty : Text → Bool
is_empty s = elim s [ [] ↦ true | _ ↦ false ]

abbrev within : ℕ → ℕ → ℕ → Bool
within low high b = leb low b && leb b high

unfoldable pub valid_header_value : Text → Bool
unfolding text_eq trim all bytes
valid_header_value value =
    not (is_empty value) && text_eq (trim value) value && all (within 0x20 0x7e) (bytes value)

unfoldable pub valid_uri_value : Text → Bool
unfolding all bytes
valid_uri_value value = not (is_empty value) && all (within 0x21 0x7e) (bytes value)

-- `ServiceRequestParts::new`.
unfoldable pub request_parts :
    Text → Text → Text → Text → List ℕ → ℕ → Result ServiceRequestParts AuthenticationError
unfolding all bytes starts_with
request_parts method authority path_and_query content_type body request_id =
    if is_empty method
      || not (all (within b'A' b'Z') (bytes method))
      || not (valid_uri_value authority)
      || any_row (λ b. b == b'/' || b == b'@' || b == b'?' || b == b'#') (bytes authority)
      || not (starts_with path_and_query (codes "/"))
      || any_row (λ c. c == b'#') path_and_query
      || not (valid_uri_value path_and_query)
      || not (valid_header_value content_type)
    then err malformed
    else ok (record {
      method = method;
      authority = authority;
      path_and_query = path_and_query;
      content_type = content_type;
      body = body;
      request_id = request_id;
    })

unfoldable pub target_uri : ServiceRequestParts → Text
target_uri p = codes "https://" ++ (p.authority ++ p.path_and_query)

pub record SignedServiceRequest : Type 0 where
  pub parts : ServiceRequestParts
  pub service_id : ℕ
  pub instance_id : ℕ
  pub content_digest : Text
  pub signature_input : Text
  pub signature : Text

pub record SignatureMetadata : Type 0 where
  pub parameters : Text
  pub created : ℤ
  pub expires : ℤ
  pub nonce : Text
  pub key_id : ℕ

-- `is_ascii_alphanumeric`, `-` and `_`.
abbrev pub is_nonce_byte : ℕ → Bool
is_nonce_byte b =
    within b'0' b'9' b || within b'a' b'z' b || within b'A' b'Z' b || b == b'-' || b == b'_'

unfoldable pub is_bad_metadata : ℤ → ℤ → Text → Bool
unfolding bytes all
is_bad_metadata created expires nonce =
    ltb_ℤ created (pos 0)
    || leb_ℤ expires created
    || ltb_ℤ signature_validity_seconds (expires -ℤ created)
    || not (within min_nonce_length max_nonce_length (length (bytes nonce)))
    || not (all is_nonce_byte (bytes nonce))

-- `validate_signature_metadata`; the difference does not overflow where it is reached.
unfoldable pub validate_signature_metadata : ℤ → ℤ → Text → Result Unit AuthenticationError
validate_signature_metadata created expires nonce =
    reject (is_bad_metadata created expires nonce) malformed

-- `validate_signature_time`.
unfoldable pub validate_signature_time : ℤ → ℤ → ℤ → Result Unit AuthenticationError
validate_signature_time created expires now =
    reject
      (ltb_ℤ now (pos 0)
        || ltb_ℤ (saturating_add now clock_skew_seconds) created
        || ltb_ℤ (saturating_add expires clock_skew_seconds) now)
      not_fresh

-- `parse_timestamp`: digits, of a number that an `i64` holds.
unfoldable pub parse_timestamp : Text → Result ℤ AuthenticationError
unfolding all bytes
parse_timestamp value =
    reject (is_empty value || not (all (within b'0' b'9') (bytes value))) malformed
    >> (let n = pos (number value 0) in if ltb_ℤ i64_max n then err malformed else ok n)

module _ (codec : Codec) where
  -- `signature_parameters`.
  unfoldable pub signature_parameters : ℤ → ℤ → Text → ℕ → Text
  signature_parameters created expires nonce key_id =
      covered_components
      ++ (codes ";created="
          ++ (decimal created
              ++ (codes ";expires="
                  ++ (decimal expires
                      ++ (codes ";nonce=\""
                          ++ (nonce
                              ++ (codes "\";keyid=\""
                                  ++ (codec.uuid_text key_id
                                      ++ (codes "\";alg=\"" ++ codes "ed25519\"")))))))))

  -- `parse_signature_input`.
  unfoldable pub parse_signature_input : Text → Result SignatureMetadata AuthenticationError
  unfolding text_eq
  parse_signature_input value = do
    parameters ← ok_or (strip_prefix (codes "sig1=") value) malformed
    covered ← ok_or (strip_prefix covered_components parameters) malformed
    from ← ok_or (strip_prefix (codes ";created=") covered) malformed
    created ← ok_or (split_once (codes ";expires=") from) malformed
    expires ← ok_or (split_once (codes ";nonce=\"") created.1) malformed
    nonce ← ok_or (split_once (codes "\";keyid=\"") expires.1) malformed
    key ← ok_or (split_once (codes "\";alg=\"") nonce.1) malformed
    reject (not (text_eq key.1 (codes "ed25519\""))) malformed
    created_at ← parse_timestamp created.0
    expires_at ← parse_timestamp expires.0
    validate_signature_metadata created_at expires_at nonce.0
    key_id ← ok_or (codec.parse_uuid key.0) malformed
    ok (record {
      parameters = parameters;
      created = created_at;
      expires = expires_at;
      nonce = nonce.0;
      key_id = key_id;
    })

  -- `parse_signature`; a signature is the number of its 64 bytes.
  unfoldable pub parse_signature : Text → Result ℕ AuthenticationError
  unfolding text_eq
  parse_signature value = do
    rest ← ok_or (strip_prefix (codes "sig1=:") value) malformed
    encoded ← ok_or (strip_last b':' rest) malformed
    decoded ← ok_or (codec.decode encoded) malformed
    reject (not (length decoded == 64)) malformed
    reject (not (text_eq (codec.encode decoded) encoded)) malformed
    ok (of_bytes decoded 0)

  -- The lines that the signature and the fingerprint share.
  unfoldable pub request_lines : ServiceRequestParts → ℕ → Text → Text
  request_lines parts service digest =
      codes "\"@method\": "
      ++ (parts.method
          ++ (codes "\n\"@target-uri\": "
              ++ (target_uri parts
                  ++ (codes "\n\"content-digest\": "
                      ++ (digest
                          ++ (codes "\n\"content-type\": "
                              ++ (parts.content_type
                                  ++ (codes "\n\"infernal-service-id\": "
                                      ++ codec.uuid_text service))))))))

  -- `signature_base`.
  unfoldable pub signature_base : ServiceRequestParts → ℕ → ℕ → Text → Text → Text
  signature_base parts service instance_id digest parameters =
      request_lines parts service digest
      ++ (codes "\n\"infernal-instance-id\": "
          ++ (codec.uuid_text instance_id
              ++ (codes "\n\"infernal-request-id\": "
                  ++ (codec.uuid_text parts.request_id
                      ++ (codes "\n\"@signature-params\": " ++ parameters)))))

  -- `SignedServiceRequest::from_wire`.
  unfoldable pub from_wire :
      ServiceRequestParts
      → Text
      → Text
      → Text
      → Text
      → Text
      → Result SignedServiceRequest AuthenticationError
  from_wire parts service instance_text digest input signature = do
    service_id ← ok_or (codec.parse_uuid service) malformed
    instance_id ← ok_or (codec.parse_uuid instance_text) malformed
    ok (record {
      parts = parts;
      service_id = service_id;
      instance_id = instance_id;
      content_digest = digest;
      signature_input = input;
      signature = signature;
    })
