-- ===== src/Postgres/Handshakes.antt =====
-- src/infrastructure/postgres_handshake_repository.rs with the keys and checks of
-- migrations/0005_instance_handshakes.sql, and postgres_subscribed_instance_discovery.rs.
pub mod Once
pub mod Fresh
pub mod Proved
use infernal_law.Base.{
  ℕ, ℤ, pos, ltb_ℤ, leb_ℤ, leb, ◌==◌, Bool, true, false, not, ◌&&◌, ◌||◌, Option, none, some, List,
  [], ◌∷◌, Result, ok, err, map_err, reject, Action, transaction, ◌>>=◌, ◌>>◌, if◌then◌else◌,
  find_row, any_row, where_rows, update_rows, order_by, is_some,
}
use infernal_law.Kernel.Faults.{
  DbError, database, unique_violation, foreign_key_violation, check_violation, challenges_pkey,
  challenges_target_fkey, challenges_key_fkey, challenges_times_check, handshakes_pkey,
  handshakes_target_fkey, handshakes_key_fkey, handshakes_times_check,
}
use infernal_law.Kernel.InstanceKeys.{Crypto}
use infernal_law.Kernel.Instances.{RegisteredInstance}
use infernal_law.Kernel.Subscriptions.{is_active}
use infernal_law.Kernel.Handshakes.{
  HandshakeError, challenge_already_used, invalid_stored_record, invalid_timestamp, repository,
  ChallengeRecord, InstanceHandshake, restore_handshake, HandshakeRepository,
}
use infernal_law.Postgres.Db.{
  Db, InstanceRow, KeyRow, HandshakeChallengeRow, HandshakeRow, HandshakeAction, issued, verified,
}
use infernal_law.Postgres.Instances.{instance_from_row}

abbrev pub database_error : DbError → HandshakeError
database_error e = repository (database e)

-- `append_audit`.
unfoldable pub audited : ℕ → ℕ → ℕ → HandshakeAction → ℤ → Db → Db
audited digest kernel target action at db = record db {
  handshake_audit =
      record {
        challenge_digest = digest;
        kernel_instance_id = kernel;
        target_instance_id = target;
        action = action;
        recorded_at = at;
      }
      ∷ db.handshake_audit;
}

-- The foreign keys on the target, which both tables have.
unfoldable pub no_target : ℕ → Db → Bool
no_target target db = not (any_row (λ i. i.instance_id == target) db.instances)

unfoldable pub no_key : ℕ → Db → Bool
no_key key db = not (any_row (λ k. k.key_id == key) db.keys)

abbrev pub challenge_row : ChallengeRecord → HandshakeChallengeRow
challenge_row c = record {
  challenge_digest = c.digest;
  kernel_instance_id = c.kernel_instance_id;
  target_instance_id = c.target_instance_id;
  target_key_id = c.target_key_id;
  issued_at = c.issued_at;
  expires_at = c.expires_at;
  consumed_at = none;
}

-- The constraints of the challenges.
unfoldable pub check_challenge : ChallengeRecord → Db → Result Unit HandshakeError
check_challenge c db =
    reject (ltb_ℤ c.issued_at (pos 0) || leb_ℤ c.expires_at c.issued_at)
      (database_error (check_violation challenges_times_check))
    >> reject (any_row (λ x. x.challenge_digest == c.digest) db.handshake_challenges)
        (database_error (unique_violation challenges_pkey))
    >> reject (no_target c.target_instance_id db)
        (database_error (foreign_key_violation challenges_target_fkey))
    >> reject (no_key c.target_key_id db)
        (database_error (foreign_key_violation challenges_key_fkey))

unfoldable pub insert_challenge_body :
    ChallengeRecord → Db → Result (Result Unit HandshakeError × Db) HandshakeError
insert_challenge_body c db =
    check_challenge c db
    >> ok (
      ok tt,
      audited c.digest c.kernel_instance_id c.target_instance_id issued c.issued_at
          (record db { handshake_challenges = challenge_row c ∷ db.handshake_challenges }),
    )

unfoldable pub insert_challenge : ChallengeRecord → Action Db Unit HandshakeError
insert_challenge c = transaction (insert_challenge_body c)

-- The WHERE of the UPDATE in `complete`.
abbrev pub to_consume : InstanceHandshake → HandshakeChallengeRow → Bool
to_consume h c =
    c.challenge_digest == h.challenge_digest
    && c.kernel_instance_id == h.kernel_instance_id
    && c.target_instance_id == h.target_instance_id
    && not (is_some c.consumed_at)
    && ltb_ℤ h.verified_at c.expires_at

abbrev pub consume_row : ℤ → HandshakeChallengeRow → HandshakeChallengeRow
consume_row at c = record c { consumed_at = some at }

abbrev pub handshake_row : InstanceHandshake → HandshakeRow
handshake_row h = record {
  challenge_digest = h.challenge_digest;
  kernel_instance_id = h.kernel_instance_id;
  target_instance_id = h.target_instance_id;
  target_key_id = h.target_key_id;
  verified_at = h.verified_at;
  expires_at = h.expires_at;
}

-- The two tables after the UPDATE and the INSERT.
abbrev pub with_handshake : InstanceHandshake → Db → Db
with_handshake h db = record db {
  handshake_challenges =
      update_rows (to_consume h) (consume_row h.verified_at) db.handshake_challenges;
  handshakes = handshake_row h ∷ db.handshakes;
}

-- The CHECK of the challenge `c` that the UPDATE changes, then the constraints of the handshakes.
unfoldable pub check_handshake :
    InstanceHandshake → HandshakeChallengeRow → Db → Result Unit HandshakeError
check_handshake h c db =
    reject (ltb_ℤ h.verified_at c.issued_at)
      (database_error (check_violation challenges_times_check))
    >> reject (ltb_ℤ h.verified_at (pos 0) || leb_ℤ h.expires_at h.verified_at)
        (database_error (check_violation handshakes_times_check))
    >> reject (any_row (λ x. x.challenge_digest == h.challenge_digest) db.handshakes)
        (database_error (unique_violation handshakes_pkey))
    >> reject (no_target h.target_instance_id db)
        (database_error (foreign_key_violation handshakes_target_fkey))
    >> reject (no_key h.target_key_id db)
        (database_error (foreign_key_violation handshakes_key_fkey))

unfoldable pub complete_body :
    InstanceHandshake → Db → Result (Result Unit HandshakeError × Db) HandshakeError
complete_body h db = elim (find_row (to_consume h) db.handshake_challenges) [
  | none ↦ err challenge_already_used
  | some c ↦
      check_handshake h c db
      >> ok (
        ok tt,
        audited h.challenge_digest h.kernel_instance_id h.target_instance_id verified h.verified_at
            (with_handshake h db),
      )
]

-- `complete`, whose UPDATE changes one row at most, since the digest is the primary key.
unfoldable pub complete : InstanceHandshake → Action Db Unit HandshakeError
complete h = transaction (complete_body h)

-- The WHERE of the SELECT in `find_fresh`.
abbrev pub fresh_row : ℕ → ℕ → ℤ → HandshakeRow → Bool
fresh_row kernel target now h =
    h.kernel_instance_id == kernel
    && h.target_instance_id == target
    && leb_ℤ h.verified_at now
    && ltb_ℤ now h.expires_at

-- ORDER BY verified_at DESC LIMIT 1, of the rows that `p` keeps.
unfoldable pub last_verified : (HandshakeRow → Bool) → List HandshakeRow → Option HandshakeRow
last_verified p [] = none
last_verified p (h ∷ hs) =
    let rest = last_verified p hs in
    if p h
    then elim rest [
      | none ↦ some h
      | some g ↦ if ltb_ℤ h.verified_at g.verified_at then some g else some h
    ]
    else rest

-- `handshake_from_row`.
unfoldable pub handshake_from_row : HandshakeRow → Result InstanceHandshake HandshakeError
handshake_from_row h = restore_handshake (record {
  challenge_digest = h.challenge_digest;
  kernel_instance_id = h.kernel_instance_id;
  target_instance_id = h.target_instance_id;
  target_key_id = h.target_key_id;
  verified_at = h.verified_at;
  expires_at = h.expires_at;
})

unfoldable pub find_fresh : ℕ → ℕ → ℤ → Db → Result (Option InstanceHandshake) HandshakeError
find_fresh kernel target now db =
    if ltb_ℤ now (pos 0)
    then err invalid_timestamp
    else elim (last_verified (fresh_row kernel target now) db.handshakes) [
      | none ↦ ok none
      | some row ↦ handshake_from_row row >>= λ h. ok (some h)
    ]

abbrev pub handshakes : HandshakeRepository Db
handshakes = record {
  insert_challenge = insert_challenge;
  complete = complete;
  find_fresh = find_fresh;
}

-- The WHERE of the discovery's query on an instance, with its join to `subscriptions`.
abbrev pub discovered : Db → ℤ → InstanceRow → Bool
discovered db now i =
    any_row (λ s. s.service_id == i.service_id && is_active s) db.subscriptions
    && not (is_some i.revoked_at)
    && leb_ℤ i.registered_at now
    && ltb_ℤ now i.lease_expires_at

-- ORDER BY instance_id.
abbrev pub by_instance_id : InstanceRow → InstanceRow → Bool
by_instance_id a b = leb a.instance_id b.instance_id

module _ (crypto : Crypto) where
  -- `instance_from_row` of postgres_subscribed_instance_discovery.rs.
  unfoldable pub discovered_from_row :
      InstanceRow → KeyRow → Result RegisteredInstance HandshakeError
  discovered_from_row i k = map_err (λ _. invalid_stored_record) (instance_from_row crypto i k)

  -- The join to the keys, of which an instance has one at most.
  unfoldable pub discovered_from_rows :
      List KeyRow → List InstanceRow → Result (List RegisteredInstance) HandshakeError
  discovered_from_rows keys [] = ok []
  discovered_from_rows keys (i ∷ rows) =
      elim (find_row (λ k. k.instance_id == i.instance_id && not (is_some k.revoked_at)) keys) [
        | none ↦ discovered_from_rows keys rows
        | some k ↦ do
          r ← discovered_from_row i k
          rest ← discovered_from_rows keys rows
          ok (r ∷ rest)
      ]

  unfoldable pub eligible_subscribed_instances :
      ℤ → Db → Result (List RegisteredInstance) HandshakeError
  eligible_subscribed_instances now db =
      if ltb_ℤ now (pos 0)
      then err invalid_timestamp
      else discovered_from_rows db.keys
          (order_by by_instance_id (where_rows (discovered db now) db.instances))
