-- ===== src/Postgres/Gate.antt =====
-- The gate of src/kernel/request_gate.rs over the Postgres repositories: what an admitted request
-- has passed, and what an admitted or a refused one has spent.
use infernal_law.Base.{
  ℤ, ◌≡◌, ◌≢◌, refl, sym, ap, ◌∙◌, subst, ◌⊎◌, true, some, List, [], ◌∷◌, arith, ok, err, Result,
  find_row, ◌==◌, Option-cases, Result-cases, inl, inr,
}
use infernal_law.Kernel.Replay.{
  VerifiedServiceRequest, ReplayReservation, ReplayDisposition, replay_detected, reservation,
  from_verified, protect,
}
use infernal_law.Kernel.Admission.{
  CommunicationAdmission, AdmissionError, require_enabled, restore_admission,
}
use infernal_law.Kernel.Gate.{
  AdmittedServiceRequest, Boundary, admission, replay, admit, service_gate,
}
use infernal_law.Postgres.Db.{Db}
use infernal_law.Postgres.Admission.{find, restore_found, admissions}
use infernal_law.Postgres.Replay.{reserve, replays, check_times, nonce_used}
use infernal_law.Postgres.Replay.Once.{
  reserve_all, answered, reserve_once, reserve_all-nonce, reserve_uses, used-not-reserved,
}

-- A request is admitted only if its signature was verified, its replay reservation succeeded, and
-- the admission check passed on the store that the reservation left, for the verified service; the
-- result carries what the three steps returned.
admit-ok :
    {S Signed E : Type 0} (gate : Boundary S Signed E) (request : Signed) (now : ℤ) (s t : S)
    (a : AdmittedServiceRequest)
    → admit gate request now s ≡ (ok a, t)
    → (gate.verify_signature request now s ≡ ok a.verified)
      × (gate.reserve_replay a.verified now s ≡ (ok a.replay_disposition, t))
      × (gate.require_communication a.verified.service_id t ≡ ok a.admission_revision)
unfolding admit
admit-ok gate request now s t a e = (ground arith, ground arith, ground arith)

module _ {Signed E : Type 0} (verify : Signed → ℤ → Db → Result VerifiedServiceRequest E) where
  abbrev pub gate : Boundary Db Signed E
  gate = service_gate verify replays admissions

  -- With the Postgres repositories an admitted request's service has an admission row that is
  -- enabled, at the revision returned; without one no request is admitted.
  pub admit_enabled :
      (request : Signed) (now : ℤ) (db t : Db) (a : AdmittedServiceRequest)
      → admit gate request now db ≡ (ok a, t)
      → (row : CommunicationAdmission) × (find_row
            (λ x. x.service_id == a.verified.service_id)
            t.admissions
          ≡ some row)
        × (row.enabled ≡ true)
        × (row.revision ≡ a.admission_revision)
  unfolding require_enabled find restore_found restore_admission
  admit_enabled request now db t a e =
      let (_, _, passed) = admit-ok gate request now db t a e in
      elim (Option-cases (find_row (λ x. x.service_id == a.verified.service_id) t.admissions)) [
        | inl nothing ↦ absurd (ground (arith, passed, nothing))
        | inr (row, found) ↦
            (row, found, ground (arith, passed, found), ground (arith, passed, found))
      ]

  protect-ok :
      (v : VerifiedServiceRequest) (now : ℤ) (db t : Db) (d : ReplayDisposition)
      → protect replays v now db ≡ (ok d, t)
      → reserve (reservation v now) db ≡ (ok d, t)
  unfolding protect from_verified
  protect-ok v now db t d e = ground (arith, e)

  -- The tables after any sequence of requests at the gate.
  unfoldable pub admit_all : Db → List (Signed × ℤ) → Db
  admit_all db [] = db
  admit_all db ((request, now) ∷ rs) = admit_all (admit gate request now db).1 rs

  -- All that a request changes at the gate is its reservation.
  admit-reserve :
      (request : Signed) (now : ℤ) (db : Db)
      → ((admit gate request now db).1 ≡ db)
        ⊎ ((r : ReplayReservation) × ((admit gate request now db).1 ≡ (reserve r db).1))
  unfolding admit protect
  admit-reserve request now db = elim (Result-cases (verify request now db)) [
    | inr (e, failed) ↦ inl (ground (arith, failed))
    | inl (v, seen) ↦ elim (Result-cases (from_verified v now)) [
      | inr (e, late) ↦ inl (ground (arith, seen, late))
      | inl (r, timely) ↦ inr (r, ground (arith, seen, timely))
    ]
  ]

  admit_all-reserve_all :
      (rs : List (Signed × ℤ)) (db : Db)
      → (qs : List ReplayReservation) × (admit_all db rs ≡ reserve_all db qs)
  unfolding admit_all reserve_all
  admit_all-reserve_all [] db = ([], refl)
  admit_all-reserve_all ((request, now) ∷ rs) db =
      let (qs, rest) = admit_all-reserve_all rs (admit gate request now db).1 in
      elim (admit-reserve request now db) [
        | inl same ↦ (qs, rest ∙ ap (λ t. reserve_all t qs) same)
        | inr (r, spent) ↦ (r ∷ qs, rest ∙ ap (λ t. reserve_all t qs) spent)
      ]

  -- No nonce of a key admits two requests: once a request was admitted, then after any further
  -- requests at the gate, whether they were admitted or not, a request that is verified under the
  -- same key and nonce digest is not admitted, whatever else it says and whatever the time.
  pub admit_once :
      (request again : Signed) (now later : ℤ) (db t u : Db) (a b : AdmittedServiceRequest)
      (between : List (Signed × ℤ))
      → admit gate request now db ≡ (ok a, t)
      → b.verified.key_id ≡ a.verified.key_id
      → b.verified.nonce_digest ≡ a.verified.nonce_digest
      → admit gate again later (admit_all t between) ≢ (ok b, u)
  admit_once request again now later db t u a b between e k n repeated =
      let (_, taken, _) = admit-ok gate request now db t a e in
      let (_, retaken, _) = admit-ok gate again later (admit_all t between) u b repeated in
      let r = reservation a.verified now in
      let q = reservation b.verified later in
      let first = protect-ok a.verified now db t a.replay_disposition taken in
      let second =
        protect-ok b.verified later (admit_all t between) u b.replay_disposition retaken in
      let spent : nonce_used t q ≡ true =
        subst (λ s. nonce_used s q ≡ true) (ap (λ p. p.1) first)
          (reserve_uses db r q (ground (arith, first)) k n) in
      let (qs, same) = admit_all-reserve_all between t in
      used-not-reserved (admit_all t between) u q b.replay_disposition
        (subst (λ s. nonce_used s q ≡ true) (sym same) (reserve_all-nonce t qs q spent)) second

  refused_reserved :
      (request : Signed) (now : ℤ) (db t : Db) (x : AdmissionError) (v : VerifiedServiceRequest)
      → admit gate request now db ≡ (err (admission x), t)
      → verify request now db ≡ ok v
      → (answered (reserve (reservation v now) db).0 ≡ true)
        × (t ≡ (reserve (reservation v now) db).1)
  unfolding admit protect from_verified
  refused_reserved request now db t x v e seen = (ground (arith, seen), ground (arith, seen))

  -- A request that was verified and reserved but whose service is not admitted has spent its
  -- nonce: verified again under the same key and nonce, at a time and with times that a
  -- reservation accepts, it is refused as a replay, whatever reservations came between and
  -- whatever the service's admission is by then.
  pub refused_spends :
      (request again : Signed) (now later_now : ℤ) (db t : Db) (x : AdmissionError)
      (v w : VerifiedServiceRequest) (between : List ReplayReservation)
      → admit gate request now db ≡ (err (admission x), t)
      → verify request now db ≡ ok v
      → verify again later_now (reserve_all t between) ≡ ok w
      → w.key_id ≡ v.key_id
      → w.nonce_digest ≡ v.nonce_digest
      → from_verified w later_now ≡ ok (reservation w later_now)
      → check_times (reservation w later_now) ≡ ok tt
      → (admit gate again later_now (reserve_all t between)).0 ≡ err (replay replay_detected)
  unfolding admit protect
  refused_spends request again now later_now db t x v w between e seen seen' k n timely times =
      let (real, same) = refused_reserved request now db t x v e seen in
      let r = reservation v now in
      let spent = reserve_once db r between (reservation w later_now) real k n times in
      ground (arith, seen', timely, same, spent)
