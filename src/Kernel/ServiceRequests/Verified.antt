-- ===== src/Kernel/ServiceRequests/Verified.antt =====
-- What the verifier of signed requests accepts.
use infernal_law.Base.{
  ℕ, ◌^◌, ◌<◌, ◌≤◌, ℤ, pos, ◌≤ℤ◌, ◌+ℤ◌, i64_max, saturating_add, true, ◌≡◌, refl, sym, subst, ap,
  arith, List, Result, ok, Text, text_eq, text_eq_refl, text_eq-eq, bytes, Bool-cases, Result-cases,
  inl, inr,
}
use infernal_law.Kernel.InstanceKeys.{Crypto, Signs, InstanceCredential, IsPaired, verify, sign}
use infernal_law.Kernel.Instances.{RegisteredInstance, InstanceRegistryError}
use infernal_law.Kernel.Replay.{VerifiedServiceRequest}
use infernal_law.Kernel.ServiceRequests.{
  Codec, ServiceRequestParts, SignedServiceRequest, SignatureMetadata, is_bad_metadata,
  validate_signature_metadata, validate_signature_time, signature_parameters, parse_signature_input,
  parse_signature, signature_base,
}
use infernal_law.Kernel.ServiceRequests.Verifier.{
  content_digest, request_fingerprint, signed_of, base_of, sign_request, check_signature,
  verify_request,
}
use infernal_law.Kernel.ServiceRequests.RoundTrip.{
  Reads, parse-signature, parse_signature_input-parameters,
}

-- A time at which the signature is fresh, five seconds of skew allowed on either side.
abbrev pub IsTimely : ℤ → ℤ → ℤ → Type 0
IsTimely created expires now =
    (pos 0 ≤ℤ now) × (now ≤ℤ i64_max) × (created ≤ℤ now +ℤ pos 5) × (now ≤ℤ expires +ℤ pos 5)

timely-valid :
    (created expires now : ℤ)
    → created ≤ℤ i64_max
    → IsTimely created expires now
    → validate_signature_time created expires now ≡ ok tt
unfolding validate_signature_time saturating_add ◌+ℤ◌
timely-valid created expires now small h = ground (arith, small, h)

module _ (codec : Codec) (crypto : Crypto) {S : Type 0}
    (find_eligible : ℕ → ℤ → S → Result RegisteredInstance InstanceRegistryError) where
  -- The verification, given what each step finds.
  verify-steps :
      (r : SignedServiceRequest) (m : SignatureMetadata) (i : RegisteredInstance) (now : ℤ) (s : S)
      → parse_signature_input codec r.signature_input ≡ ok m
      → validate_signature_time m.created m.expires now ≡ ok tt
      → find_eligible r.instance_id now s ≡ ok i
      → check_signature codec crypto find_eligible r m i ≡ ok tt
      → verify_request codec crypto find_eligible r now s
        ≡ ok (record {
          service_id = r.service_id;
          instance_id = r.instance_id;
          key_id = m.key_id;
          request_id = r.parts.request_id;
          created = m.created;
          expires = m.expires;
          nonce_digest = crypto.sha256 (bytes m.nonce);
          request_fingerprint = request_fingerprint codec crypto r;
        })
  unfolding verify_request
  verify-steps r m i now s e1 e2 e3 e4 = ground (arith, e1, e2, e3, e4)

  check-steps :
      (r : SignedServiceRequest) (m : SignatureMetadata) (i : RegisteredInstance) (signature : ℕ)
      → i.public_key.service_id ≡ r.service_id
      → i.public_key.instance_id ≡ r.instance_id
      → i.public_key.key_id ≡ m.key_id
      → r.content_digest ≡ content_digest codec crypto r.parts.body
      → parse_signature codec r.signature ≡ ok signature
      → verify crypto i.public_key
          (bytes
            (signature_base codec r.parts r.service_id r.instance_id r.content_digest m.parameters))
          signature
        ≡ ok tt
      → check_signature codec crypto find_eligible r m i ≡ ok tt
  unfolding check_signature
  check-steps r m i signature e1 e2 e3 e4 e5 e6 =
      let digest =
        subst (λ d. text_eq (content_digest codec crypto r.parts.body) d ≡ true) (sym e4)
          (text_eq_refl (content_digest codec crypto r.parts.body)) in
      ground (arith, e1, e2, e3, digest, e5, e6)

  sign-fits :
      (k : InstanceCredential) (message : List ℕ) → Signs crypto → sign crypto k message < 256 ^ 64
  unfolding sign
  sign-fits k message signs = signs.signature_fits k.signing_key message

  own-signature :
      (k : InstanceCredential) (message : List ℕ)
      → Signs crypto
      → IsPaired crypto k
      → verify crypto k.public message (sign crypto k message) ≡ ok tt
  unfolding verify sign
  own-signature k message signs paired =
      let good = signs.public_is_key k.signing_key in
      let own = signs.accepts_own k.signing_key message in
      ground (
        arith,
        subst (λ p. crypto.is_key p ≡ true) (sym paired) good,
        subst (λ p. crypto.verifies p message (crypto.signature_of k.signing_key message) ≡ true)
            (sym paired) own,
      )

  -- With crates that read back what they print and a signature library that accepts a key's own
  -- signatures: a request that a credential of a registered, eligible instance signed, with times
  -- of an `i64` and a key id of 16 bytes, verifies at a timely moment as the request that was
  -- signed.
  pub sign-verifies :
      (parts : ServiceRequestParts) (k : InstanceCredential) (i : RegisteredInstance) (from to : ℕ)
      (nonce : Text) (now : ℤ) (s : S) (r : SignedServiceRequest)
      → Reads codec
      → Signs crypto
      → IsPaired crypto k
      → k.public.key_id < 256 ^ 16
      → from ≤ 0x7fffffffffffffff
      → to ≤ 0x7fffffffffffffff
      → IsTimely (pos from) (pos to) now
      → find_eligible k.public.instance_id now s ≡ ok i
      → i.public_key ≡ k.public
      → sign_request codec crypto parts k (pos from) (pos to) nonce ≡ ok r
      → verify_request codec crypto find_eligible r now s
        ≡ ok (record {
          service_id = k.public.service_id;
          instance_id = k.public.instance_id;
          key_id = k.public.key_id;
          request_id = parts.request_id;
          created = pos from;
          expires = pos to;
          nonce_digest = crypto.sha256 (bytes nonce);
          request_fingerprint = request_fingerprint codec crypto r;
        })
  unfolding sign_request validate_signature_metadata
  sign-verifies parts k i from to nonce now s r reads signs paired fk ff ft timely found own
        signed =
      elim (Bool-cases (is_bad_metadata (pos from) (pos to) nonce)) [
        | inl bad ↦ absurd (ground (arith, signed, bad))
        | inr good ↦
            let made = signed_of codec crypto parts k (pos from) (pos to) nonce in
            let same : made ≡ r = ground (arith, signed, good) in
            let result = λ (q : SignedServiceRequest).
              verify_request codec crypto find_eligible q now s
              ≡ ok (record {
                service_id = k.public.service_id;
                instance_id = k.public.instance_id;
                key_id = k.public.key_id;
                request_id = parts.request_id;
                created = pos from;
                expires = pos to;
                nonce_digest = crypto.sha256 (bytes nonce);
                request_fingerprint = request_fingerprint codec crypto q;
              }) in
            let m : SignatureMetadata = record {
              parameters = signature_parameters codec (pos from) (pos to) nonce k.public.key_id;
              created = pos from;
              expires = pos to;
              nonce = nonce;
              key_id = k.public.key_id;
            } in
            let base = base_of codec crypto parts k (pos from) (pos to) nonce in
            let input =
              parse_signature_input-parameters codec from to k.public.key_id nonce reads ff ft fk
                good in
            let fits : sign crypto k base < 256 ^ 64 = sign-fits k base signs in
            let checked =
              check-steps made m i (sign crypto k base) (ap (λ p. p.service_id) own)
                (ap (λ p. p.instance_id) own) (ap (λ p. p.key_id) own) refl
                (parse-signature codec (sign crypto k base) reads fits)
                (subst (λ p. verify crypto p base (sign crypto k base) ≡ ok tt) (sym own)
                  (own-signature k base signs paired)) in
            subst result same (
              verify-steps made m i now s input
                (timely-valid (pos from) (pos to) now (ground (arith, ff)) timely) found checked)
      ]

  -- The key `i` holds signed the request `r`, whose body has the digest that it carries, with the
  -- parameters `m`.
  abbrev pub SignedBy : SignedServiceRequest → SignatureMetadata → RegisteredInstance → Type 0
  SignedBy r m i =
      (i.public_key.service_id ≡ r.service_id)
      × (i.public_key.instance_id ≡ r.instance_id)
      × (i.public_key.key_id ≡ m.key_id)
      × (r.content_digest ≡ content_digest codec crypto r.parts.body)
      × ((signature : ℕ) × (parse_signature codec r.signature ≡ ok signature)
          × (crypto.verifies i.public_key.public_key
                (bytes (
                  signature_base codec r.parts r.service_id r.instance_id r.content_digest
                    m.parameters))
                signature
              ≡ true))

  check-SignedBy :
      (r : SignedServiceRequest) (m : SignatureMetadata) (i : RegisteredInstance)
      → check_signature codec crypto find_eligible r m i ≡ ok tt
      → SignedBy r m i
  unfolding check_signature verify
  check-SignedBy r m i h =
      elim (Bool-cases (text_eq (content_digest codec crypto r.parts.body) r.content_digest)) [
        | inr other ↦ absurd (ground (arith, h, other))
        | inl same ↦ elim (Result-cases (parse_signature codec r.signature)) [
          | inr (e, bad) ↦ absurd (ground (arith, h, same, bad))
          | inl (signature, read) ↦ (
            ground (arith, h),
            ground (arith, h),
            ground (arith, h),
            sym (text_eq-eq (content_digest codec crypto r.parts.body) r.content_digest same),
            (signature, read, ground (arith, h, same, read)),
          )
        ]
      ]

  time-IsTimely :
      (created expires now : ℤ)
      → validate_signature_time created expires now ≡ ok tt
      → (pos 0 ≤ℤ now) × (created ≤ℤ now +ℤ pos 5) × (now ≤ℤ expires +ℤ pos 5)
  unfolding validate_signature_time saturating_add ◌+ℤ◌
  time-IsTimely created expires now h = (ground (arith, h), ground (arith, h), ground (arith, h))

  -- A request that verifies is within its lifetime but for five seconds of skew, and names an
  -- instance that is eligible, whose registered key, of the service and the id that the request
  -- names, signed the request's method, target, body digest, content type, ids and parameters. What
  -- is reported of it are those ids and the parameters that its signature input holds.
  pub verify_request-signed :
      (r : SignedServiceRequest) (now : ℤ) (s : S) (v : VerifiedServiceRequest)
      → verify_request codec crypto find_eligible r now s ≡ ok v
      → (m : SignatureMetadata) × (i : RegisteredInstance) × (parse_signature_input codec
            r.signature_input
          ≡ ok m)
        × (find_eligible r.instance_id now s ≡ ok i)
        × SignedBy r m i
        × ((pos 0 ≤ℤ now) × (m.created ≤ℤ now +ℤ pos 5) × (now ≤ℤ m.expires +ℤ pos 5))
        × (v ≡ record {
          service_id = r.service_id;
          instance_id = r.instance_id;
          key_id = m.key_id;
          request_id = r.parts.request_id;
          created = m.created;
          expires = m.expires;
          nonce_digest = crypto.sha256 (bytes m.nonce);
          request_fingerprint = request_fingerprint codec crypto r;
        })
  unfolding verify_request
  verify_request-signed r now s v h =
      elim (Result-cases (parse_signature_input codec r.signature_input)) [
        | inr (e, bad) ↦ absurd (ground (arith, h, bad))
        | inl (m, read) ↦ elim (Result-cases (validate_signature_time m.created m.expires now)) [
          | inr (e, bad) ↦ absurd (ground (arith, h, read, bad))
          | inl (u, timely) ↦ elim (Result-cases (find_eligible r.instance_id now s)) [
            | inr (e, bad) ↦ absurd (ground (arith, h, read, timely, bad))
            | inl (i, found) ↦
                elim (Result-cases (check_signature codec crypto find_eligible r m i)) [
                  | inr (e, bad) ↦ absurd (ground (arith, h, read, timely, found, bad))
                  | inl (w, checked) ↦ (
                    m,
                    i,
                    read,
                    found,
                    check-SignedBy r m i checked,
                    time-IsTimely m.created m.expires now timely,
                    ground (arith, h, read, timely, found, checked),
                  )
                ]
          ]
        ]
      ]
