-- ===== src/Postgres/Replay/Once.antt =====
-- No nonce is reserved twice, and no request id is bound to a second fingerprint.
use infernal_law.Base.{
  ℕ, ◌≡◌, ◌≢◌, ◌∙◌, inl, inr, Bool, true, false, some, List, [], ◌∷◌, arith, Result, ok, err,
  Bool-cases, find_row, any_row,
}
use infernal_law.Kernel.Replay.{
  ReplayReservation, ReplayDisposition, ReplayProtectionError, replay_detected, request_id_conflict,
  repository,
}
use infernal_law.Kernel.Replay
use infernal_law.Postgres.Db.{Db, replay_rejected}
use infernal_law.Postgres.Replay.{
  nonce_used, check_times, bound_fingerprint, audited, reserve_request_id, reserve_body, reserve,
}

-- The table after any sequence of reservations.
unfoldable pub reserve_all : Db → List ReplayReservation → Db
reserve_all db [] = db
reserve_all db (r ∷ rs) = reserve_all (reserve r db).1 rs

-- What a reservation leaves of the two tables.
nonce_stays :
    (db : Db) (r q : ReplayReservation)
    → nonce_used db q ≡ true
    → nonce_used (reserve r db).1 q ≡ true
unfolding reserve reserve_body reserve_request_id nonce_used any_row
nonce_stays db r q h = ground arith

bound_stays :
    (db : Db) (r q : ReplayReservation) (f : ℕ)
    → bound_fingerprint db q ≡ some f
    → bound_fingerprint (reserve r db).1 q ≡ some f
unfolding reserve reserve_body reserve_request_id bound_fingerprint find_row
bound_stays db r q f h = ground arith

pub reserve_all-nonce :
    (db : Db) (rs : List ReplayReservation) (q : ReplayReservation)
    → nonce_used db q ≡ true
    → nonce_used (reserve_all db rs) q ≡ true
unfolding reserve_all
reserve_all-nonce db [] q h = h
reserve_all-nonce db (r ∷ rs) q h = reserve_all-nonce (reserve r db).1 rs q (nonce_stays db r q h)

pub reserve_all-bound :
    (db : Db) (rs : List ReplayReservation) (q : ReplayReservation) (f : ℕ)
    → bound_fingerprint db q ≡ some f
    → bound_fingerprint (reserve_all db rs) q ≡ some f
unfolding reserve_all
reserve_all-bound db [] q f h = h
reserve_all-bound db (r ∷ rs) q f h =
    reserve_all-bound (reserve r db).1 rs q f (bound_stays db r q f h)

-- The database answered the reservation; it did not fail.
abbrev pub answered : Result ReplayDisposition ReplayProtectionError → Bool
answered (err (repository c)) = false
answered _ = true

nonce_used-congr :
    (db : Db) (r q : ReplayReservation)
    → q.key_id ≡ r.key_id
    → q.nonce_digest ≡ r.nonce_digest
    → nonce_used db q ≡ nonce_used db r
unfolding nonce_used
nonce_used-congr db r q k n = rw (k, n)

new_nonce_used :
    (db : Db) (r q : ReplayReservation)
    → answered (reserve r db).0 ≡ true
    → nonce_used db r ≡ false
    → q.key_id ≡ r.key_id
    → q.nonce_digest ≡ r.nonce_digest
    → nonce_used (reserve r db).1 q ≡ true
unfolding reserve reserve_body reserve_request_id nonce_used any_row
new_nonce_used db r q real new k n = ground arith

-- An answered reservation has used its nonce.
pub reserve_uses :
    (db : Db) (r q : ReplayReservation)
    → answered (reserve r db).0 ≡ true
    → q.key_id ≡ r.key_id
    → q.nonce_digest ≡ r.nonce_digest
    → nonce_used (reserve r db).1 q ≡ true
reserve_uses db r q real k n = elim (Bool-cases (nonce_used db r)) [
  | inl old ↦ let same = nonce_used-congr db r q k n in nonce_stays db r q (same ∙ old)
  | inr new ↦ new_nonce_used db r q real new k n
]

-- No reservation whose nonce was used is accepted.
pub used-not-reserved :
    (db t : Db) (q : ReplayReservation) (d : ReplayDisposition)
    → nonce_used db q ≡ true
    → reserve q db ≢ (ok d, t)
unfolding reserve reserve_body
used-not-reserved db t q d used e = ground (arith, used, e)

-- Once a reservation was answered, its nonce is spent for good: whatever reservations follow,
-- another one with the same key and nonce (and times that the table accepts) is refused as a
-- replay and leaves nothing but an audit row that says so.
pub reserve_once :
    (db : Db) (r : ReplayReservation) (later : List ReplayReservation) (q : ReplayReservation)
    → answered (reserve r db).0 ≡ true
    → q.key_id ≡ r.key_id
    → q.nonce_digest ≡ r.nonce_digest
    → check_times q ≡ ok tt
    → let u = reserve_all (reserve r db).1 later in
      reserve q u ≡ (err replay_detected, audited u q replay_rejected)
unfolding reserve reserve_body
reserve_once db r later q real k n times =
    let spent = reserve_all-nonce (reserve r db).1 later q (reserve_uses db r q real k n) in
    ground (arith, spent)

bound_fingerprint-congr :
    (db : Db) (r q : ReplayReservation)
    → q.service_id ≡ r.service_id
    → q.request_id ≡ r.request_id
    → bound_fingerprint db q ≡ bound_fingerprint db r
unfolding bound_fingerprint
bound_fingerprint-congr db r q s i = rw (s, i)

accepted_binds :
    (db : Db) (r : ReplayReservation) (d : ReplayDisposition)
    → (reserve r db).0 ≡ ok d
    → bound_fingerprint (reserve r db).1 r ≡ some r.request_fingerprint
unfolding reserve reserve_body reserve_request_id bound_fingerprint find_row
accepted_binds db r d e = ground arith

-- Of a request id that is bound, an accepted reservation is a safe retry with its fingerprint.
accepted_retry :
    (db : Db) (q : ReplayReservation) (d : ReplayDisposition) (f : ℕ)
    → bound_fingerprint db q ≡ some f
    → (reserve q db).0 ≡ ok d
    → (d ≡ Replay.safe_retry) × (q.request_fingerprint ≡ f)
unfolding reserve reserve_body reserve_request_id bound_fingerprint
accepted_retry db q d f bound e = ground arith

-- An accepted request id is bound to its fingerprint for good, and is fresh once: whatever
-- reservations follow, one under the same service and request id that is accepted has the same
-- fingerprint and is told to be a safe retry.
pub reserve_binds :
    (db : Db) (r : ReplayReservation) (later : List ReplayReservation) (q : ReplayReservation)
    (d d' : ReplayDisposition)
    → (reserve r db).0 ≡ ok d
    → q.service_id ≡ r.service_id
    → q.request_id ≡ r.request_id
    → (reserve q (reserve_all (reserve r db).1 later)).0 ≡ ok d'
    → (d' ≡ Replay.safe_retry) × (q.request_fingerprint ≡ r.request_fingerprint)
reserve_binds db r later q d d' e s i e' =
    let t = (reserve r db).1 in
    let bound = bound_fingerprint-congr t r q s i ∙ accepted_binds db r d e in
    accepted_retry (reserve_all t later) q d' r.request_fingerprint
      (reserve_all-bound t later q r.request_fingerprint bound) e'
