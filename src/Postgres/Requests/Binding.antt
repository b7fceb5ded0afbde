-- ===== src/Postgres/Requests/Binding.antt =====
-- An accepted request is bound to its source and id for good.
use infernal_law.Base.{
  ℕ, ℤ, ◌==◌, ◌≡◌, sym, subst, ◌⊎◌, ◌>>◌, inl, inr, ◌&&◌, none, some, List, [], ◌∷◌, arith, ok, err,
  if◌then◌else◌, Option-cases, Result-cases, find_row, seq-ok,
}
use infernal_law.Kernel.Requests.{
  Request, AcceptedRequest, RequestAcceptance, accepted, safe_retry, request_id_conflict,
  request_eq, restore_accepted,
}
use infernal_law.Postgres.Db.{Db}
use infernal_law.Postgres.Requests.{
  accepted_from_row, find_request, check_references, accept_new, accept_again, accept_body, accept,
}

pub record Submission : Type 0 where
  pub request : Request
  pub fingerprint : ℕ
  pub clock : ℤ

-- The tables after any sequence of submissions.
unfoldable pub accept_all : Db → List Submission → Db
accept_all db [] = db
accept_all db (s ∷ ss) = accept_all (accept s.clock s.request s.fingerprint db).1 ss

abbrev stored_row : Submission → AcceptedRequest
stored_row s = record { request = s.request; fingerprint = s.fingerprint; accepted_at = s.clock }

-- A submission leaves the table as it was or, where its key is new, adds its row.
accept-rows :
    (db : Db) (s : Submission)
    → ((accept s.clock s.request s.fingerprint db).1.accepted_requests ≡ db.accepted_requests)
      ⊎ ((find_request s.request.source_service s.request.id db.accepted_requests ≡ none)
          × ((accept s.clock s.request s.fingerprint db).1.accepted_requests
              ≡ stored_row s ∷ db.accepted_requests))
unfolding accept accept_body accept_new accept_again
accept-rows db s =
    let r = s.request in
    let row = stored_row s in
    elim (Option-cases (find_request r.source_service r.id db.accepted_requests)) [
      | inl new ↦ elim (Result-cases (check_references db r >> accepted_from_row row)) [
        | inl (stored, passed) ↦ inr (new, ground (arith, new, passed))
        | inr (x, failed) ↦ inl (ground (arith, new, failed))
      ]
      | inr (a, old) ↦ elim (Result-cases (accepted_from_row a)) [
        | inl (stored, passed) ↦ inl (ground (arith, old, passed))
        | inr (x, failed) ↦ inl (ground (arith, old, failed))
      ]
    ]

row_stays :
    (db : Db) (s : Submission) (source id : ℕ) (a : AcceptedRequest)
    → find_request source id db.accepted_requests ≡ some a
    → find_request source id (accept s.clock s.request s.fingerprint db).1.accepted_requests
      ≡ some a
unfolding find_request find_row
row_stays db s source id a h = elim (accept-rows db s) [
  | inl same ↦ subst (λ rows. find_request source id rows ≡ some a) (sym same) h
  | inr (new, added) ↦
      subst (λ rows. find_request source id rows ≡ some a) (sym added) (ground (arith, new, h))
]

-- What a submission returns, whether it was new or not.
abbrev pub record_of : RequestAcceptance → AcceptedRequest
record_of (accepted a) = a
record_of (safe_retry a) = a

accept_all-keeps :
    (db : Db) (ss : List Submission) (source id : ℕ) (a : AcceptedRequest)
    → find_request source id db.accepted_requests ≡ some a
    → find_request source id (accept_all db ss).accepted_requests ≡ some a
unfolding accept_all
accept_all-keeps db [] source id a h = h
accept_all-keeps db (s ∷ ss) source id a h =
    accept_all-keeps (accept s.clock s.request s.fingerprint db).1 ss source id a
      (row_stays db s source id a h)

from_row-same : (a b : AcceptedRequest) → accepted_from_row a ≡ ok b → b ≡ a
unfolding accepted_from_row restore_accepted
from_row-same a b h = ground (arith, h)

-- A submission that succeeds returns the row that is stored under its key, and the row restores.
accept-stored :
    (db : Db) (s : Submission) (x : RequestAcceptance)
    → (accept s.clock s.request s.fingerprint db).0 ≡ ok x
    → (find_request s.request.source_service s.request.id
          (accept s.clock s.request s.fingerprint db).1.accepted_requests
        ≡ some (record_of x))
      × (accepted_from_row (record_of x) ≡ ok (record_of x))
unfolding accept accept_body accept_new accept_again find_request find_row
accept-stored db s x h =
    let r = s.request in
    let row = stored_row s in
    elim (Option-cases (find_request r.source_service r.id db.accepted_requests)) [
      | inl new ↦ elim (Result-cases (check_references db r >> accepted_from_row row)) [
        | inl (stored, passed) ↦
            let (_, _, restored) = seq-ok (check_references db r) (accepted_from_row row) passed in
            let same = from_row-same row stored restored in
            let back =
              subst (λ y. accepted_from_row y ≡ ok y) same
                (subst (λ y. accepted_from_row y ≡ ok stored) (sym same) restored) in
            (ground (arith, new, passed, h, same), ground (arith, new, passed, h, same, back))
        | inr (e, failed) ↦ absurd (ground (arith, new, failed, h))
      ]
      | inr (a, old) ↦ elim (Result-cases (accepted_from_row a)) [
        | inl (stored, passed) ↦
            let same = from_row-same a stored passed in
            let back = subst (λ y. accepted_from_row y ≡ ok stored) (sym same) passed in
            (ground (arith, old, passed, h, same), ground (arith, old, passed, h, same, back))
        | inr (e, failed) ↦ absurd (ground (arith, old, failed, h))
      ]
    ]

-- An accepted request id is bound for good: once a submission was accepted, or told to be a safe
-- retry, the stored request answers for its source and id. After any submissions that follow, one
-- under the same source and id is a safe retry of it if its fields and its fingerprint are the
-- same and a conflict otherwise, and neither changes the table of accepted requests.
pub accept_binds :
    (db : Db) (s : Submission) (x : RequestAcceptance) (later : List Submission) (q : Submission)
    → (accept s.clock s.request s.fingerprint db).0 ≡ ok x
    → q.request.source_service ≡ s.request.source_service
    → q.request.id ≡ s.request.id
    → let a = record_of x in
      let u = accept_all (accept s.clock s.request s.fingerprint db).1 later in
      ((accept q.clock q.request q.fingerprint u).0 ≡ (
        if request_eq a.request q.request && a.fingerprint == q.fingerprint
        then ok (safe_retry a)
        else err (request_id_conflict q.request.id)))
      × ((accept q.clock q.request q.fingerprint u).1.accepted_requests ≡ u.accepted_requests)
unfolding accept accept_body accept_again
accept_binds db s x later q h source id =
    let a = record_of x in
    let t = (accept s.clock s.request s.fingerprint db).1 in
    let u = accept_all t later in
    let (stored, restored) = accept-stored db s x h in
    let kept = accept_all-keeps t later s.request.source_service s.request.id a stored in
    let found =
      subst (λ i. find_request q.request.source_service i u.accepted_requests ≡ some a) (sym id)
        (subst (λ o. find_request o s.request.id u.accepted_requests ≡ some a) (sym source) kept) in
    (ground (arith, found, restored), ground (arith, found, restored))
