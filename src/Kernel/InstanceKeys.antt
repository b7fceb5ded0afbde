-- ===== src/Kernel/InstanceKeys.antt =====
-- src/kernel/instance_keys.rs: the keys of service instances. The crates ed25519-dalek and sha2 are
-- a parameter; keys, signatures and digests are the numbers that their bytes spell.
use infernal_law.Base.{ℕ, ◌^◌, ◌<◌, List, Bool, ◌≡◌, true, Result, ok, err, if◌then◌else◌}

-- What the code calls of the two crates.
pub record Crypto : Type 0 where
  pub sha256 : List ℕ → ℕ
  -- `VerifyingKey::from_bytes` accepts the bytes.
  pub is_key : ℕ → Bool
  -- `verify_strict` of a key, a message and a signature.
  pub verifies : ℕ → List ℕ → ℕ → Bool
  -- The public bytes of a signing key, and its signature of a message.
  pub public_of : ℕ → ℕ
  pub signature_of : ℕ → List ℕ → ℕ

-- What the code relies on: a signing key's public bytes are a key, which accepts its signatures,
-- and a signature is of 64 bytes.
pub record Signs (crypto : Crypto) : Type 0 where
  pub public_is_key : (k : ℕ) → crypto.is_key (crypto.public_of k) ≡ true
  pub accepts_own :
      (k : ℕ) (message : List ℕ)
      → crypto.verifies (crypto.public_of k) message (crypto.signature_of k message) ≡ true
  pub signature_fits : (k : ℕ) (message : List ℕ) → crypto.signature_of k message < 256 ^ 64

pub record InstancePublicKey : Type 0 where
  pub service_id : ℕ
  pub instance_id : ℕ
  pub key_id : ℕ
  pub public_key : ℕ

pub record InstanceCredential : Type 0 where
  pub public : InstancePublicKey
  pub signing_key : ℕ

pub data InstanceKeyError : Type 0 where
  invalid_instance_id invalid_key_id invalid_public_key invalid_signature : InstanceKeyError

module _ (crypto : Crypto) where
  -- `InstancePublicKey::restore`.
  unfoldable pub restore_key : ℕ → ℕ → ℕ → ℕ → Result InstancePublicKey InstanceKeyError
  restore_key service instance_id key_id bytes =
      if crypto.is_key bytes
      then ok (record {
        service_id = service;
        instance_id = instance_id;
        key_id = key_id;
        public_key = bytes;
      })
      else err invalid_public_key

  -- `InstancePublicKey::verify`.
  unfoldable pub verify : InstancePublicKey → List ℕ → ℕ → Result Unit InstanceKeyError
  verify key message signature =
      if crypto.is_key key.public_key
      then (if crypto.verifies key.public_key message signature
          then ok tt
          else err invalid_signature)
      else err invalid_public_key

  -- `InstanceCredential::generate`; the signing key and the two ids are drawn at random.
  unfoldable pub generate : ℕ → ℕ → ℕ → ℕ → InstanceCredential
  generate signing_key instance_id key_id service = record {
    public = record {
      service_id = service;
      instance_id = instance_id;
      key_id = key_id;
      public_key = crypto.public_of signing_key;
    };
    signing_key = signing_key;
  }

  -- `InstanceCredential::sign`.
  unfoldable pub sign : InstanceCredential → List ℕ → ℕ
  sign credential message = crypto.signature_of credential.signing_key message

  -- A credential that `generate` made, or any other whose public bytes are its signing key's.
  abbrev pub IsPaired : InstanceCredential → Type 0
  IsPaired credential = credential.public.public_key ≡ crypto.public_of credential.signing_key
