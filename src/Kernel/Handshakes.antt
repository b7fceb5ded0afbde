-- ===== src/Kernel/Handshakes.antt =====
-- src/kernel/handshakes.rs: the challenge that the kernel signs, the response of an instance, and
-- the repository of handshakes. The crates that sign and hash are parameters.
pub mod Reconciler
use infernal_law.Base.{
  List, [], ◌∷◌, ℕ, ℤ, pos, ltb_ℤ, leb_ℤ, Bool, not, ◌&&◌, ◌||◌, ◌==◌, Option, ◌++◌, Result, ok,
  err, ok_or, map_err, reject, Action, ◌>>◌, if◌then◌else◌, checked_add, min_ℤ, be_bytes, i64_bytes,
  encode_fields, codes, ◌>>=◌,
}
use infernal_law.Kernel.Faults.{Cause}
use infernal_law.Kernel.InstanceKeys.{Crypto, InstancePublicKey, InstanceCredential, verify, sign}
use infernal_law.Kernel.Instances.{RegisteredInstance, is_eligible_at}

abbrev pub challenge_lifetime_seconds : ℤ
challenge_lifetime_seconds = pos 15

abbrev pub handshake_lifetime_seconds : ℤ
handshake_lifetime_seconds = pos 30

abbrev pub challenge_context : List ℕ
challenge_context = codes "infernal-law/instance-handshake/challenge/v1"

abbrev pub response_context : List ℕ
response_context = codes "infernal-law/instance-handshake/response/v1"

pub data HandshakeError : Type 0 where
  challenge_already_used challenge_expired invalid_kernel_signature : HandshakeError
  invalid_stored_record invalid_target_signature invalid_timestamp : HandshakeError
  kernel_key_mismatch random_source target_mismatch : HandshakeError
  handshake_required ineligible_instance : ℕ → HandshakeError
  repository transport : Cause → HandshakeError

pub record SignedHandshakeChallenge : Type 0 where
  pub nonce : ℕ
  pub kernel_key : InstancePublicKey
  pub target_instance_id : ℕ
  pub target_key_id : ℕ
  pub issued_at : ℤ
  pub expires_at : ℤ
  pub signature : ℕ

pub record SignedHandshakeResponse : Type 0 where
  pub kernel_instance_id : ℕ
  pub target_instance_id : ℕ
  pub target_key_id : ℕ
  pub challenge_digest : ℕ
  pub signature : ℕ

pub record InstanceHandshake : Type 0 where
  pub challenge_digest : ℕ
  pub kernel_instance_id : ℕ
  pub target_instance_id : ℕ
  pub target_key_id : ℕ
  pub verified_at : ℤ
  pub expires_at : ℤ

-- `HandshakeChallengeRecord`.
pub record ChallengeRecord : Type 0 where
  pub digest : ℕ
  pub kernel_instance_id : ℕ
  pub target_instance_id : ℕ
  pub target_key_id : ℕ
  pub issued_at : ℤ
  pub expires_at : ℤ

abbrev pub challenge_fields : ℕ → InstancePublicKey → ℕ → ℕ → ℤ → ℤ → List (List ℕ)
challenge_fields nonce kernel_key target_instance target_key issued_at expires_at =
    challenge_context
    ∷ be_bytes 32 nonce
    ∷ be_bytes 16 kernel_key.service_id
    ∷ be_bytes 16 kernel_key.instance_id
    ∷ be_bytes 16 kernel_key.key_id
    ∷ be_bytes 32 kernel_key.public_key
    ∷ be_bytes 16 target_instance
    ∷ be_bytes 16 target_key
    ∷ i64_bytes issued_at
    ∷ i64_bytes expires_at
    ∷ []

-- `challenge_message`.
unfoldable pub challenge_message : ℕ → InstancePublicKey → ℕ → ℕ → ℤ → ℤ → List ℕ
challenge_message nonce kernel_key target_instance target_key issued_at expires_at =
    encode_fields
      (challenge_fields nonce kernel_key target_instance target_key issued_at expires_at)

abbrev pub response_fields : ℕ → ℕ → ℕ → ℕ → List (List ℕ)
response_fields kernel_instance target_instance target_key challenge_digest =
    response_context
    ∷ be_bytes 16 kernel_instance
    ∷ be_bytes 16 target_instance
    ∷ be_bytes 16 target_key
    ∷ be_bytes 32 challenge_digest
    ∷ []

-- `response_message`.
unfoldable pub response_message : ℕ → ℕ → ℕ → ℕ → List ℕ
response_message kernel_instance target_instance target_key challenge_digest =
    encode_fields (response_fields kernel_instance target_instance target_key challenge_digest)

-- `SignedHandshakeChallenge::message`.
unfoldable pub message_of : SignedHandshakeChallenge → List ℕ
message_of c =
    challenge_message c.nonce c.kernel_key c.target_instance_id c.target_key_id c.issued_at
      c.expires_at

abbrev key_eq : InstancePublicKey → InstancePublicKey → Bool
key_eq a b =
    a.service_id == b.service_id
    && a.instance_id == b.instance_id
    && a.key_id == b.key_id
    && a.public_key == b.public_key

-- `InstanceHandshake::restore`: the constructor's check on the fields of `h`.
unfoldable pub restore_handshake : InstanceHandshake → Result InstanceHandshake HandshakeError
restore_handshake h =
    if ltb_ℤ h.verified_at (pos 0) || leb_ℤ h.expires_at h.verified_at
    then err invalid_stored_record
    else ok h

unfoldable pub is_fresh_at : InstanceHandshake → ℤ → Bool
is_fresh_at h now = leb_ℤ h.verified_at now && ltb_ℤ now h.expires_at

-- The end of a lifetime that starts at `now`, the lease's end at the latest.
unfoldable pub ends_within : ℤ → ℤ → ℤ → Result ℤ HandshakeError
ends_within now seconds lease_end = do
  expires ← ok_or (checked_add now seconds) invalid_timestamp
  ok (min_ℤ expires lease_end)

module _ (crypto : Crypto) where
  -- `SignedHandshakeChallenge::issue`; `nonce` is what the random source returns, if it does.
  unfoldable pub issue :
      Option ℕ
      → InstanceCredential
      → RegisteredInstance
      → ℤ
      → Result SignedHandshakeChallenge HandshakeError
  issue nonce kernel target now = do
    reject (ltb_ℤ now (pos 0) || not (is_eligible_at target now))
        (ineligible_instance target.public_key.instance_id)
    expires_at ← ends_within now challenge_lifetime_seconds target.lease_expires_at
    reject (leb_ℤ expires_at now) invalid_timestamp
    drawn ← ok_or nonce random_source
    let message =
        challenge_message drawn kernel.public target.public_key.instance_id target.public_key.key_id
          now expires_at
    ok (record {
      nonce = drawn;
      kernel_key = kernel.public;
      target_instance_id = target.public_key.instance_id;
      target_key_id = target.public_key.key_id;
      issued_at = now;
      expires_at = expires_at;
      signature = sign crypto kernel message;
    })

  -- `SignedHandshakeChallenge::verify_kernel`.
  unfoldable pub verify_kernel :
      SignedHandshakeChallenge → InstancePublicKey → Result Unit HandshakeError
  verify_kernel c trusted =
      reject (not (key_eq trusted c.kernel_key)) kernel_key_mismatch
      >> map_err (λ _. invalid_kernel_signature) (verify crypto trusted (message_of c) c.signature)

  -- `SignedHandshakeChallenge::digest`; a signature is of 64 bytes.
  unfoldable pub digest_of : SignedHandshakeChallenge → ℕ
  digest_of c = crypto.sha256 (message_of c ++ be_bytes 64 c.signature)

  -- `HandshakeChallengeRecord::from`.
  unfoldable pub challenge_record : SignedHandshakeChallenge → ChallengeRecord
  challenge_record c = record {
    digest = digest_of c;
    kernel_instance_id = c.kernel_key.instance_id;
    target_instance_id = c.target_instance_id;
    target_key_id = c.target_key_id;
    issued_at = c.issued_at;
    expires_at = c.expires_at;
  }

  -- `SignedHandshakeResponse::sign`.
  unfoldable pub sign_response :
      SignedHandshakeChallenge → InstanceCredential → Result SignedHandshakeResponse HandshakeError
  sign_response c target =
      reject
        (not (target.public.instance_id == c.target_instance_id)
          || not (target.public.key_id == c.target_key_id))
        target_mismatch
      >> ok (record {
        kernel_instance_id = c.kernel_key.instance_id;
        target_instance_id = c.target_instance_id;
        target_key_id = c.target_key_id;
        challenge_digest = digest_of c;
        signature = sign crypto target (
            response_message c.kernel_key.instance_id c.target_instance_id c.target_key_id
              (digest_of c));
      })

  -- `SignedHandshakeResponse::verify`.
  unfoldable pub verify_response :
      SignedHandshakeResponse
      → SignedHandshakeChallenge
      → InstancePublicKey
      → ℤ
      → Result Unit HandshakeError
  verify_response r c target now =
      reject (ltb_ℤ now c.issued_at || leb_ℤ c.expires_at now) challenge_expired
      >> reject
          (not (
            r.kernel_instance_id == c.kernel_key.instance_id
            && r.target_instance_id == c.target_instance_id
            && r.target_key_id == c.target_key_id
            && r.challenge_digest == digest_of c
            && target.instance_id == r.target_instance_id
            && target.key_id == r.target_key_id))
          target_mismatch
      >> map_err (λ _. invalid_target_signature)
          (verify crypto target
            (response_message r.kernel_instance_id r.target_instance_id r.target_key_id
              r.challenge_digest)
            r.signature)

-- `trait HandshakeRepository` over a store `S`.
pub record HandshakeRepository (S : Type 0) : Type 0 where
  pub insert_challenge : ChallengeRecord → Action S Unit HandshakeError
  pub complete : InstanceHandshake → Action S Unit HandshakeError
  pub find_fresh : ℕ → ℕ → ℤ → S → Result (Option InstanceHandshake) HandshakeError
