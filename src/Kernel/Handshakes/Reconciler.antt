-- ===== src/Kernel/Handshakes/Reconciler.antt =====
-- The reconciler of src/kernel/handshakes.rs. The transport, the discovery of instances and the
-- random source are parameters.
use infernal_law.Base.{
  ℕ, ℤ, pos, ltb_ℤ, Option, none, some, List, [], ◌∷◌, Result, ok, err, ok_or, Action, ◌>>=◌, ◌>>◌,
  if◌then◌else◌, Text,
}
use infernal_law.Kernel.InstanceKeys.{Crypto, InstanceCredential}
use infernal_law.Kernel.Instances.{RegisteredInstance}
use infernal_law.Kernel.Handshakes.{
  handshake_lifetime_seconds, HandshakeError, invalid_timestamp, handshake_required,
  SignedHandshakeChallenge, SignedHandshakeResponse, InstanceHandshake, restore_handshake,
  ends_within, issue, digest_of, challenge_record, verify_response, HandshakeRepository,
}

pub record HandshakeExchange : Type 0 where
  pub response : SignedHandshakeResponse
  pub received_at : ℤ

pub data AttemptOutcome : Type 0 where
  already_fresh verified : InstanceHandshake → AttemptOutcome
  failed : HandshakeError → AttemptOutcome

pub record HandshakeAttempt : Type 0 where
  pub instance_id : ℕ
  pub outcome : AttemptOutcome

-- What a reconciler has of its surroundings: the kernel's credential, `trait HandshakeTransport`,
-- and the nonce that the random source returns in the attempt on an instance.
pub record Surroundings : Type 0 where
  pub kernel : InstanceCredential
  pub exchange : Text → SignedHandshakeChallenge → Result HandshakeExchange HandshakeError
  pub draw : ℕ → Option ℕ

module _ {S : Type 0} (store : HandshakeRepository S) (crypto : Crypto)
    (around : Surroundings) where
  -- `HandshakeReconciler::require_fresh`.
  unfoldable pub require_fresh : ℕ → ℤ → S → Result InstanceHandshake HandshakeError
  require_fresh target now s = do
    found ← store.find_fresh around.kernel.public.instance_id target now s
    ok_or found (handshake_required target)

  -- The handshake that an exchange proves.
  unfoldable pub handshake_of :
      SignedHandshakeChallenge
      → RegisteredInstance
      → HandshakeExchange
      → Result InstanceHandshake HandshakeError
  handshake_of c instance_of x = do
    verify_response crypto x.response c instance_of.public_key x.received_at
    expires ← ends_within x.received_at handshake_lifetime_seconds instance_of.lease_expires_at
    restore_handshake (record {
      challenge_digest = digest_of crypto c;
      kernel_instance_id = around.kernel.public.instance_id;
      target_instance_id = instance_of.public_key.instance_id;
      target_key_id = instance_of.public_key.key_id;
      verified_at = x.received_at;
      expires_at = expires;
    })

  abbrev completed :
      InstanceHandshake → Result Unit HandshakeError × S → Result AttemptOutcome HandshakeError × S
  completed h (ok u, t) = (ok (verified h), t)
  completed h (err e, t) = (err e, t)

  -- The exchange, once the challenge is stored.
  unfoldable pub exchange_and_complete :
      SignedHandshakeChallenge → RegisteredInstance → Action S AttemptOutcome HandshakeError
  exchange_and_complete c i s = elim (around.exchange i.endpoint c >>= handshake_of c i) [
    | err e ↦ (err e, s)
    | ok h ↦ completed h (store.complete h s)
  ]

  abbrev challenged :
      SignedHandshakeChallenge
      → RegisteredInstance
      → Result Unit HandshakeError × S
      → Result AttemptOutcome HandshakeError × S
  challenged c i (ok u, t) = exchange_and_complete c i t
  challenged c i (err e, t) = (err e, t)

  unfoldable pub reconcile_instance :
      RegisteredInstance → ℤ → Action S AttemptOutcome HandshakeError
  reconcile_instance i now s =
      elim (store.find_fresh around.kernel.public.instance_id i.public_key.instance_id now s) [
        | err e ↦ (err e, s)
        | ok (some h) ↦ (ok (already_fresh h), s)
        | ok none ↦ elim (issue crypto (around.draw i.public_key.instance_id) around.kernel i now) [
          | err e ↦ (err e, s)
          | ok c ↦ challenged c i (store.insert_challenge (challenge_record crypto c) s)
        ]
      ]

  abbrev outcome_of : Result AttemptOutcome HandshakeError → AttemptOutcome
  outcome_of (ok o) = o
  outcome_of (err e) = failed e

  -- The loop of `reconcile`: an attempt that fails is reported, and the next is made.
  unfoldable pub reconcile_all : List RegisteredInstance → ℤ → S → List HandshakeAttempt × S
  reconcile_all [] now s = ([], s)
  reconcile_all (i ∷ is) now s =
      let first = reconcile_instance i now s in
      let rest = reconcile_all is now first.1 in
      (
        record { instance_id = i.public_key.instance_id; outcome = outcome_of first.0 } ∷ rest.0,
        rest.1,
      )

  -- `HandshakeReconciler::reconcile`; `discovery` is `trait SubscribedInstanceDiscovery`.
  unfoldable pub reconcile :
      (ℤ → S → Result (List RegisteredInstance) HandshakeError)
      → ℤ
      → Action S (List HandshakeAttempt) HandshakeError
  reconcile discovery now s =
      if ltb_ℤ now (pos 0) then (err invalid_timestamp, s) else elim (discovery now s) [
        | err e ↦ (err e, s)
        | ok is ↦ let done = reconcile_all is now s in (ok done.0, done.1)
      ]
