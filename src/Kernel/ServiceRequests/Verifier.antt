-- ===== src/Kernel/ServiceRequests/Verifier.antt =====
-- Signing and `ServiceRequestVerifier` of src/kernel/service_requests.rs.
use infernal_law.Base.{
  ℕ, ℤ, not, ◌&&◌, ◌==◌, List, ◌++◌, Result, ok, map_err, reject, ◌>>=◌, ◌>>◌, be_bytes, Text,
  codes, text_eq, bytes,
}
use infernal_law.Kernel.InstanceKeys.{Crypto, InstanceCredential, verify, sign}
use infernal_law.Kernel.Instances.{RegisteredInstance, InstanceRegistryError}
use infernal_law.Kernel.Replay.{VerifiedServiceRequest}
use infernal_law.Kernel.ServiceRequests.{
  Codec, AuthenticationError, credential_mismatch, invalid_content_digest, invalid_signature,
  registry, ServiceRequestParts, SignedServiceRequest, SignatureMetadata,
  validate_signature_metadata, validate_signature_time, signature_parameters, parse_signature_input,
  parse_signature, request_lines, signature_base,
}

module _ (codec : Codec) where
  module _ (crypto : Crypto) where
    -- `content_digest`; the digest is of 32 bytes.
    unfoldable pub content_digest : List ℕ → Text
    content_digest body =
        codes "sha-256=:" ++ (codec.encode (be_bytes 32 (crypto.sha256 body)) ++ codes ":")

    -- `request_fingerprint`.
    unfoldable pub request_fingerprint : SignedServiceRequest → ℕ
    unfolding bytes
    request_fingerprint r =
        crypto.sha256 (bytes (request_lines codec r.parts r.service_id r.content_digest))

    -- What is signed of a request, and the request that `sign` makes.
    abbrev pub base_of : ServiceRequestParts → InstanceCredential → ℤ → ℤ → Text → List ℕ
    base_of parts credential created expires nonce =
        let public = credential.public in
        bytes (
          signature_base codec parts public.service_id public.instance_id
            (content_digest parts.body)
            (signature_parameters codec created expires nonce public.key_id))

    abbrev pub signed_of :
        ServiceRequestParts → InstanceCredential → ℤ → ℤ → Text → SignedServiceRequest
    signed_of parts credential created expires nonce =
        let public = credential.public in
        record {
          parts = parts;
          service_id = public.service_id;
          instance_id = public.instance_id;
          content_digest = content_digest parts.body;
          signature_input =
              codes "sig1=" ++ signature_parameters codec created expires nonce public.key_id;
          signature =
              codes "sig1=:"
              ++ (codec.encode (
                    be_bytes 64
                      (sign crypto credential (base_of parts credential created expires nonce)))
                  ++ codes ":");
        }

    -- `SignedServiceRequest::sign`.
    unfoldable pub sign_request :
        ServiceRequestParts
        → InstanceCredential
        → ℤ
        → ℤ
        → Text
        → Result SignedServiceRequest AuthenticationError
    sign_request parts credential created expires nonce =
        validate_signature_metadata created expires nonce
        >> ok (signed_of parts credential created expires nonce)

    module _ {S : Type 0}
        (find_eligible : ℕ → ℤ → S → Result RegisteredInstance InstanceRegistryError) where
      -- The signature's check of `ServiceRequestVerifier::verify`.
      unfoldable pub check_signature :
          SignedServiceRequest
          → SignatureMetadata
          → RegisteredInstance
          → Result Unit AuthenticationError
      unfolding text_eq bytes
      check_signature r m i = do
        reject
            (not (
              i.public_key.service_id == r.service_id
              && i.public_key.instance_id == r.instance_id
              && i.public_key.key_id == m.key_id))
            credential_mismatch
        reject (not (text_eq (content_digest r.parts.body) r.content_digest)) invalid_content_digest
        signature ← parse_signature codec r.signature
        let base =
            signature_base codec r.parts r.service_id r.instance_id r.content_digest m.parameters
        map_err (λ _. invalid_signature) (verify crypto i.public_key (bytes base) signature)

      -- `ServiceRequestVerifier::verify`.
      unfoldable pub verify_request :
          SignedServiceRequest → ℤ → S → Result VerifiedServiceRequest AuthenticationError
      unfolding bytes
      verify_request r now s = do
        m ← parse_signature_input codec r.signature_input
        validate_signature_time m.created m.expires now
        i ← map_err registry (find_eligible r.instance_id now s)
        check_signature r m i
        ok (record {
          service_id = r.service_id;
          instance_id = r.instance_id;
          key_id = m.key_id;
          request_id = r.parts.request_id;
          created = m.created;
          expires = m.expires;
          nonce_digest = crypto.sha256 (bytes m.nonce);
          request_fingerprint = request_fingerprint r;
        })
