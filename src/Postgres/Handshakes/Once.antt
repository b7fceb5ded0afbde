-- ===== src/Postgres/Handshakes/Once.antt =====
-- A handshake challenge completes one handshake.
use infernal_law.Base.{
  ℕ, ◌≡◌, refl, sym, subst, inl, inr, ◌⊎◌, arith, Bool, Option-cases, Result-cases, is_some, true,
  false, List, [], ◌∷◌, ok, err, any_row, find_row,
}
use infernal_law.Base.Spent.{
  HasKey, Spent, Spent-none, cons-Spent, update-Spent, spend-Spent, has_key, is_open,
}
use infernal_law.Kernel.Handshakes.{
  ChallengeRecord, InstanceHandshake, restore_handshake, challenge_already_used,
}
use infernal_law.Postgres.Db.{Db, HandshakeChallengeRow}
use infernal_law.Postgres.Handshakes.{
  insert_challenge_body, insert_challenge, challenge_row, to_consume, consume_row, with_handshake,
  complete_body, complete, audited, check_challenge, check_handshake,
}

abbrev digest_key : HandshakeChallengeRow → ℕ
digest_key c = c.challenge_digest

abbrev is_consumed : HandshakeChallengeRow → Bool
is_consumed c = is_some c.consumed_at

-- The digest is the primary key of the challenges.
abbrev pub HasDigestKey : Db → Type 0
HasDigestKey db = HasKey digest_key is_consumed db.handshake_challenges

-- The challenge was consumed.
abbrev pub Consumed : ℕ → Db → Type 0
Consumed digest db = Spent digest_key is_consumed digest db.handshake_challenges

consumes :
    (h : InstanceHandshake) (c : HandshakeChallengeRow)
    → to_consume h c ≡ true
    → is_open digest_key is_consumed h.challenge_digest c ≡ true
consumes h c e = ground (arith, e)

any_of_found :
    (p : HandshakeChallengeRow → Bool) (rows : List HandshakeChallengeRow)
    → any_row p rows ≡ is_some (find_row p rows)
unfolding any_row find_row
any_of_found p [] = refl
any_of_found p (c ∷ rows) = ground (arith, any_of_found p rows)

-- What an `insert_challenge` that commits met, and what it leaves.
insert-table :
    (c : ChallengeRecord) (db : Db)
    → ((insert_challenge c db).1.handshake_challenges ≡ db.handshake_challenges)
      ⊎ ((any_row (has_key digest_key is_consumed c.digest) db.handshake_challenges ≡ false)
          × ((insert_challenge c db).1.handshake_challenges
              ≡ challenge_row c ∷ db.handshake_challenges))
unfolding insert_challenge insert_challenge_body check_challenge audited
insert-table c db = elim (Result-cases (check_challenge c db)) [
  | inr (e, bad) ↦ inl (ground (arith, bad))
  | inl (u, good) ↦ inr (ground (arith, good), ground (arith, good))
]

-- What a `complete` that commits met, and what it leaves.
pub complete-ok :
    (h : InstanceHandshake) (db t : Db)
    → complete h db ≡ (ok tt, t)
    → (any_row (to_consume h) db.handshake_challenges ≡ true)
      × (t.handshake_challenges ≡ (with_handshake h db).handshake_challenges)
      × (t.handshakes ≡ (with_handshake h db).handshakes)
      × (restore_handshake h ≡ ok h)
unfolding complete complete_body check_handshake audited restore_handshake
complete-ok h db t done = elim (Option-cases (find_row (to_consume h) db.handshake_challenges)) [
  | inl nothing ↦ absurd (ground (arith, done, nothing))
  | inr (c, found) ↦ elim (Result-cases (check_handshake h c db)) [
    | inr (e, bad) ↦ absurd (ground (arith, done, found, bad))
    | inl (u, good) ↦ (
      ground (arith, found, any_of_found (to_consume h) db.handshake_challenges),
      ground (arith, done, found, good),
      ground (arith, done, found, good),
      ground (arith, good),
    )
  ]
]

complete-table :
    (h : InstanceHandshake) (db : Db)
    → ((complete h db).1.handshake_challenges ≡ db.handshake_challenges)
      ⊎ ((complete h db).1.handshake_challenges ≡ (with_handshake h db).handshake_challenges)
unfolding complete complete_body audited
complete-table h db = elim (Option-cases (find_row (to_consume h) db.handshake_challenges)) [
  | inl nothing ↦ inl (ground (arith, nothing))
  | inr (c, found) ↦ elim (Result-cases (check_handshake h c db)) [
    | inr (e, bad) ↦ inl (ground (arith, found, bad))
    | inl (u, good) ↦ inr (ground (arith, found, good))
  ]
]

-- The challenges that a digest was consumed in, and those that an operation leaves.
abbrev ConsumedIn : ℕ → List HandshakeChallengeRow → Type 0
ConsumedIn = Spent digest_key is_consumed

insert-Consumed :
    (digest : ℕ) (c : ChallengeRecord) (db : Db)
    → Consumed digest db
    → Consumed digest (insert_challenge c db).1
insert-Consumed digest c db gone = elim (insert-table c db) [
  | inl same ↦ subst (ConsumedIn digest) (sym same) gone
  | inr (fresh, added) ↦ subst (ConsumedIn digest) (sym added) (
      cons-Spent digest_key is_consumed digest (challenge_row c) db.handshake_challenges gone fresh)
]

complete-Consumed :
    (digest : ℕ) (h : InstanceHandshake) (db : Db)
    → Consumed digest db
    → Consumed digest (complete h db).1
complete-Consumed digest h db gone = elim (complete-table h db) [
  | inl same ↦ subst (ConsumedIn digest) (sym same) gone
  | inr changed ↦ subst (ConsumedIn digest) (sym changed) (
      update-Spent digest_key is_consumed (to_consume h) (consume_row h.verified_at) (λ c. refl)
        (λ c. refl) digest db.handshake_challenges gone)
]

completed-Consumed :
    (h : InstanceHandshake) (db t : Db)
    → HasDigestKey db
    → complete h db ≡ (ok tt, t)
    → Consumed h.challenge_digest t
completed-Consumed h db t keyed done =
    let (found, table, _, _) = complete-ok h db t done in
    subst (ConsumedIn h.challenge_digest) (sym table) (
      spend-Spent digest_key is_consumed (to_consume h) (consume_row h.verified_at) (λ c. refl)
        (λ c. refl) h.challenge_digest (consumes h) db.handshake_challenges keyed found)

pub data HandshakeCall : Type 0 where
  challenge : ChallengeRecord → HandshakeCall
  completion : InstanceHandshake → HandshakeCall

unfoldable pub after_calls : List HandshakeCall → Db → Db
after_calls [] db = db
after_calls (challenge c ∷ cs) db = after_calls cs (insert_challenge c db).1
after_calls (completion h ∷ cs) db = after_calls cs (complete h db).1

calls-Consumed :
    (digest : ℕ) (cs : List HandshakeCall) (db : Db)
    → Consumed digest db
    → Consumed digest (after_calls cs db)
unfolding after_calls
calls-Consumed digest [] db gone = gone
calls-Consumed digest (challenge c ∷ cs) db gone =
    calls-Consumed digest cs (insert_challenge c db).1 (insert-Consumed digest c db gone)
calls-Consumed digest (completion h ∷ cs) db gone =
    calls-Consumed digest cs (complete h db).1 (complete-Consumed digest h db gone)

-- In a table of challenges that has the digest as its key: once a challenge completed a handshake,
-- after any further challenges and completions, completing another with it is refused as already
-- used, and changes nothing.
pub complete_once :
    (h : InstanceHandshake) (db t : Db)
    → HasDigestKey db
    → complete h db ≡ (ok tt, t)
    → (cs : List HandshakeCall) (again : InstanceHandshake)
    → again.challenge_digest ≡ h.challenge_digest
    → complete again (after_calls cs t) ≡ (err challenge_already_used, after_calls cs t)
unfolding complete complete_body
complete_once h db t keyed done cs again same =
    let gone = calls-Consumed h.challenge_digest cs t (completed-Consumed h db t keyed done) in
    let (nothing, _) =
      Spent-none digest_key is_consumed (to_consume again) again.challenge_digest (consumes again)
        (after_calls cs t).handshake_challenges
        (subst (λ d. Consumed d (after_calls cs t)) (sym same) gone) in
    ground (arith, nothing)
