-- ===== src/Tests/Signing.antt =====
-- The theorems on signed requests, handshakes and enrollments, applied to the small database.
use infernal_law.Base.{
  ℕ, ◌+◌, ◌-◌, ◌^◌, ◌<◌, pos, ◌+ℤ◌, ◌-ℤ◌, ◌≤ℤ◌, ltb, ◌≡◌, ◌≢◌, refl, arith, true, Option, none,
  some, [], ◌∷◌, Result, ok, err, if◌then◌else◌, checked_add, min_ℤ, Text, codes, bytes, utf8, all,
  any_row, find_row, update_rows, be_bytes, i64_bytes, encode_fields, trim, trim_start,
  is_whitespace, starts_with, length,
}
use infernal_law.Kernel.InstanceKeys.{InstanceCredential, verify, sign, restore_key}
use infernal_law.Kernel.Instances.{
  RegisteredInstance, find_eligible, is_eligible_at, validate_endpoint, is_bad_endpoint,
  restore_instance,
}
use infernal_law.Kernel.Replay.{VerifiedServiceRequest}
use infernal_law.Kernel.ServiceRequests.{
  Codec, ServiceRequestParts, SignedServiceRequest, is_bad_metadata, validate_signature_metadata,
  parse_signature_input, SignatureMetadata,
}
use infernal_law.Kernel.ServiceRequests.Verifier.{
  signed_of, sign_request, verify_request, request_fingerprint,
}
use infernal_law.Kernel.ServiceRequests.RoundTrip.{Reads}
use infernal_law.Kernel.ServiceRequests.Verified.{
  sign-verifies, verify_request-signed, SignedBy, IsTimely,
}
use infernal_law.Kernel.Handshakes.{
  challenge_message, response_message, SignedHandshakeChallenge, InstanceHandshake, HandshakeError,
  challenge_already_used, issue, sign_response, verify_response, digest_of, message_of,
  challenge_record, ends_within, restore_handshake,
}
use infernal_law.Kernel.Handshakes.Reconciler.{
  HandshakeExchange, Surroundings, handshake_of, exchange_and_complete, reconcile_instance,
  verified,
}
use infernal_law.Kernel.Enrollment.{proof_message}
use infernal_law.Kernel.Messages.{messages_apart}
use infernal_law.Postgres.Db.{Db}
use infernal_law.Postgres.Instances.{registry, find, find_joined, instance_from_row}
use infernal_law.Postgres.Handshakes.{
  complete, complete_body, check_handshake, insert_challenge, insert_challenge_body,
  check_challenge, no_target, no_key, audited, find_fresh, last_verified, handshakes,
}
use infernal_law.Postgres.Handshakes.Once.{HasDigestKey, completion, after_calls, complete_once}
use infernal_law.Postgres.Handshakes.Proved.{Proves, reconcile_instance-proved}
use infernal_law.Tests.{start_db}
use infernal_law.Tests.Registry.{toy, toy_signs, registered, registered_key}

-- Texts of one character for UUIDs, and bytes for base64.
parse_one : Text → Option ℕ
parse_one (c ∷ []) = if ltb c 35 then none else some (c - 35)
parse_one _ = none

abbrev plain : Codec
plain = record {
  uuid_text = λ n. (n + 35) ∷ [];
  parse_uuid = parse_one;
  encode = λ bs. bs;
  decode = λ bs. some bs;
}

plain-Reads : Reads plain
unfolding parse_one
plain-Reads = record {
  uuid_read = λ n h. ground arith;
  uuid_unquoted = λ n. (λ e. omega (arith, e), tt);
  encoding_read = λ bs h. refl;
}

abbrev credential : InstanceCredential
credential = record { public = registered_key; signing_key = 33 }

abbrev parts : ServiceRequestParts
parts = record {
  method = codes "POST";
  authority = codes "kernel";
  path_and_query = codes "/v1/requests";
  content_type = codes "application/json";
  body = 123 ∷ 125 ∷ [];
  request_id = 50;
}

abbrev a_nonce : Text
a_nonce = codes "0123456789abcdef"

registered_eligible : find_eligible (registry toy) 20 (pos 30) start_db ≡ ok registered
unfolding find_eligible find find_joined instance_from_row restore_instance restore_key
    validate_endpoint is_bad_endpoint is_eligible_at find_row trim trim_start is_whitespace
    starts_with bytes utf8
registered_eligible = refl

abbrev signed_request : SignedServiceRequest
signed_request = signed_of plain toy parts credential (pos 20) (pos 50) a_nonce

signed : sign_request plain toy parts credential (pos 20) (pos 50) a_nonce ≡ ok signed_request
unfolding sign_request validate_signature_metadata is_bad_metadata bytes utf8 all ◌-ℤ◌
signed = refl

timely : IsTimely (pos 20) (pos 50) (pos 30)
unfolding ◌+ℤ◌
timely = ground arith

abbrev as_verified : VerifiedServiceRequest
as_verified = record {
  service_id = 13;
  instance_id = 20;
  key_id = 30;
  request_id = 50;
  created = pos 20;
  expires = pos 50;
  nonce_digest = toy.sha256 (bytes a_nonce);
  request_fingerprint = request_fingerprint plain toy signed_request;
}

-- The run that the second theorem is applied to.
verifies_again :
    verify_request plain toy (find_eligible (registry toy)) signed_request (pos 30) start_db
    ≡ ok as_verified
verifies_again =
    sign-verifies plain toy (find_eligible (registry toy)) parts credential registered 20 50 a_nonce
      (pos 30) start_db signed_request plain-Reads toy_signs refl (omega arith) (omega arith)
      (omega arith) timely registered_eligible refl signed

sign-verifies_example :
    verify_request plain toy (find_eligible (registry toy)) signed_request (pos 30) start_db
    ≡ ok as_verified
sign-verifies_example =
    sign-verifies plain toy (find_eligible (registry toy)) parts credential registered 20 50 a_nonce
      (pos 30) start_db signed_request plain-Reads toy_signs refl (omega arith) (omega arith)
      (omega arith) timely registered_eligible refl signed

verify_request-signed_example :
    (m : SignatureMetadata) × (i : RegisteredInstance) × (parse_signature_input plain
        signed_request.signature_input
      ≡ ok m)
    × (find_eligible (registry toy) 20 (pos 30) start_db ≡ ok i)
    × SignedBy plain toy (find_eligible (registry toy)) signed_request m i
    × ((pos 0 ≤ℤ pos 30) × (m.created ≤ℤ pos 30 +ℤ pos 5) × (pos 30 ≤ℤ m.expires +ℤ pos 5))
    × (as_verified ≡ record {
      service_id = 13;
      instance_id = 20;
      key_id = m.key_id;
      request_id = 50;
      created = m.created;
      expires = m.expires;
      nonce_digest = toy.sha256 (bytes m.nonce);
      request_fingerprint = request_fingerprint plain toy signed_request;
    })
verify_request-signed_example =
    verify_request-signed plain toy (find_eligible (registry toy)) signed_request (pos 30) start_db
      as_verified verifies_again

abbrev pod : Text
pod = codes "p"

endpoint_short : length (bytes (codes "https://a")) < 256 ^ 4
unfolding bytes utf8
endpoint_short = omega arith

pod_short : length (bytes pod) < 256 ^ 4
unfolding bytes utf8
pod_short = omega arith

messages_apart_example :
    (challenge_message 7 registered_key 20 30 (pos 1) (pos 16) ≢ response_message 20 20 30 8)
    × (challenge_message 7 registered_key 20 30 (pos 1) (pos 16)
        ≢ proof_message toy 9 registered_key (codes "https://a") pod (codes "t"))
    × (response_message 20 20 30 8
        ≢ proof_message toy 9 registered_key (codes "https://a") pod (codes "t"))
messages_apart_example =
    messages_apart toy 7 registered_key 20 30 (pos 1) (pos 16) 20 20 30 8 9 registered_key
      (codes "https://a") pod (codes "t") endpoint_short pod_short

abbrev challenge_db : Db
challenge_db = record start_db {
  handshake_challenges =
      record {
        challenge_digest = 5;
        kernel_instance_id = 99;
        target_instance_id = 20;
        target_key_id = 30;
        issued_at = pos 10;
        expires_at = pos 25;
        consumed_at = none;
      }
      ∷ [];
}

abbrev a_handshake : ℕ → InstanceHandshake
a_handshake digest = record {
  challenge_digest = digest;
  kernel_instance_id = 99;
  target_instance_id = 20;
  target_key_id = 30;
  verified_at = pos 12;
  expires_at = pos 42;
}

challenges-HasDigestKey : HasDigestKey challenge_db
unfolding any_row
challenges-HasDigestKey = (refl, tt)

abbrev completed_db : Db
completed_db = (complete (a_handshake 5) challenge_db).1

completed_at_12 : complete (a_handshake 5) challenge_db ≡ (ok tt, completed_db)
unfolding complete complete_body check_handshake no_target no_key any_row find_row update_rows
    audited
completed_at_12 = refl

complete_once_example :
    complete (a_handshake 5) (after_calls (completion (a_handshake 5) ∷ []) completed_db)
    ≡ (err challenge_already_used, after_calls (completion (a_handshake 5) ∷ []) completed_db)
complete_once_example =
    complete_once (a_handshake 5) challenge_db completed_db challenges-HasDigestKey completed_at_12
      (completion (a_handshake 5) ∷ []) (a_handshake 5) refl

-- The kernel's credential, and an instance that signs what it is asked to.
abbrev kernel : InstanceCredential
kernel = record {
  public = record { service_id = 9; instance_id = 99; key_id = 98; public_key = 97 };
  signing_key = 97;
}

answer : SignedHandshakeChallenge → Result HandshakeExchange HandshakeError
answer c = elim (sign_response toy c credential) [
  | err e ↦ err e
  | ok r ↦ ok (record { response = r; received_at = pos 12 })
]

abbrev around : Surroundings
around = record { kernel = kernel; exchange = λ endpoint c. answer c; draw = λ id. some 7 }

abbrev reconciled_db : Db
reconciled_db = (reconcile_instance handshakes toy around registered (pos 10) start_db).1

reconciled :
    reconcile_instance handshakes toy around registered (pos 10) start_db
    ≡ (ok (verified (a_handshake 308)), reconciled_db)
unfolding reconcile_instance find_fresh last_verified issue is_eligible_at ends_within checked_add
    ◌+ℤ◌ min_ℤ sign challenge_record digest_of message_of challenge_message response_message
    encode_fields be_bytes i64_bytes insert_challenge insert_challenge_body check_challenge
    no_target no_key any_row find_row update_rows audited exchange_and_complete handshake_of answer
    sign_response verify_response verify restore_handshake complete complete_body check_handshake
reconciled = refl

reconcile_instance-proved_example :
    (c : SignedHandshakeChallenge) × (x : HandshakeExchange) × (u : Db) × (issue toy
        (some 7)
        kernel
        registered
        (pos 10)
      ≡ ok c)
    × (is_eligible_at registered (pos 10) ≡ true)
    × (answer c ≡ ok x)
    × Proves toy c x registered (a_handshake 308)
    × (complete (a_handshake 308) u ≡ (ok tt, reconciled_db))
reconcile_instance-proved_example =
    reconcile_instance-proved handshakes toy around registered (pos 10) start_db reconciled_db
      (a_handshake 308) reconciled
