-- ===== src/Postgres/Handshakes/Proved.antt =====
-- What an attempt of the reconciler that reports a verified handshake rests on.
use infernal_law.Base.{
  ℕ, ℤ, pos, ◌+ℤ◌, ◌≤ℤ◌, ◌<ℤ◌, ◌≡◌, sym, subst, ap, ◌∙◌, inl, inr, arith, Bool-cases, Option-cases,
  Result-cases, none, some, true, List, ok, checked_add, min_ℤ, checked_add-ok,
}
use infernal_law.Kernel.InstanceKeys.{Crypto, verify}
use infernal_law.Kernel.Instances.{RegisteredInstance, is_eligible_at}
use infernal_law.Kernel.Handshakes.{
  InstanceHandshake, restore_handshake, SignedHandshakeChallenge, issue, ends_within, digest_of,
  response_message, verify_response, HandshakeRepository, handshake_lifetime_seconds,
  challenge_record,
}
use infernal_law.Kernel.Handshakes.Reconciler.{
  HandshakeExchange, Surroundings, handshake_of, exchange_and_complete, reconcile_instance,
  verified,
}

-- The kernel's challenge `c` and an exchange `x` prove the handshake `h` of the instance `i`, of
-- which it has the id and the key's id: the instance's key signed a response to the challenge, it
-- came within the challenge's life, and the handshake ends 30 seconds later at most, with the lease
-- at the latest.
abbrev pub Proves :
    Crypto
    → SignedHandshakeChallenge
    → HandshakeExchange
    → RegisteredInstance
    → InstanceHandshake
    → Type 0
Proves crypto c x i h =
    (crypto.verifies i.public_key.public_key
        (response_message c.kernel_key.instance_id i.public_key.instance_id i.public_key.key_id
          (digest_of crypto c))
        x.response.signature
      ≡ true)
    × (h.challenge_digest ≡ digest_of crypto c)
    × (h.target_instance_id ≡ i.public_key.instance_id)
    × (h.target_key_id ≡ i.public_key.key_id)
    × (h.verified_at ≡ x.received_at)
    × (c.issued_at ≤ℤ x.received_at)
    × (x.received_at <ℤ c.expires_at)
    × (h.expires_at ≤ℤ h.verified_at +ℤ pos 30)
    × (h.expires_at ≤ℤ i.lease_expires_at)

module _ (crypto : Crypto) where
  response-proved :
      (c : SignedHandshakeChallenge) (x : HandshakeExchange) (i : RegisteredInstance)
      → verify_response crypto x.response c i.public_key x.received_at ≡ ok tt
      → (crypto.verifies i.public_key.public_key
            (response_message c.kernel_key.instance_id i.public_key.instance_id i.public_key.key_id
              (digest_of crypto c))
            x.response.signature
          ≡ true)
        × (c.issued_at ≤ℤ x.received_at)
        × (x.received_at <ℤ c.expires_at)
  unfolding verify_response verify
  response-proved c x i h =
      let kernel : x.response.kernel_instance_id ≡ c.kernel_key.instance_id = ground (arith, h) in
      let target : x.response.target_instance_id ≡ i.public_key.instance_id = ground (arith, h) in
      let key : x.response.target_key_id ≡ i.public_key.key_id = ground (arith, h) in
      let digest : x.response.challenge_digest ≡ digest_of crypto c = ground (arith, h) in
      let r = x.response in
      let message : response_message r.kernel_instance_id r.target_instance_id r.target_key_id
            r.challenge_digest
          ≡ response_message c.kernel_key.instance_id i.public_key.instance_id i.public_key.key_id
              (digest_of crypto c) =
        λ n. response_message (kernel n) (target n) (key n) (digest n) in
      let signed =
        λ (m : List ℕ). crypto.verifies i.public_key.public_key m x.response.signature ≡ true in
      (subst signed message (ground (arith, h)), ground (arith, h), ground (arith, h))

ends-bounded :
    (now seconds lease_end expires : ℤ)
    → ends_within now seconds lease_end ≡ ok expires
    → (expires ≤ℤ now +ℤ seconds) × (expires ≤ℤ lease_end)
unfolding ends_within min_ℤ
ends-bounded now seconds lease_end expires h = elim (Option-cases (checked_add now seconds)) [
  | inl over ↦ absurd (ground (arith, h, over))
  | inr (sum, fits) ↦
      let (same, _) = checked_add-ok now seconds fits in
      let least : min_ℤ sum lease_end ≡ expires = ground (arith, h, fits) in
      (subst (λ n. expires ≤ℤ n) same (ground (arith, least)), ground (arith, least))
]

module _ {S : Type 0} (store : HandshakeRepository S) (crypto : Crypto)
    (around : Surroundings) where
  handshake-proved :
      (c : SignedHandshakeChallenge) (i : RegisteredInstance) (x : HandshakeExchange)
      (h : InstanceHandshake)
      → handshake_of store crypto around c i x ≡ ok h
      → Proves crypto c x i h
  unfolding handshake_of restore_handshake
  handshake-proved c i x h e =
      elim (Result-cases (verify_response crypto x.response c i.public_key x.received_at)) [
        | inr (b, bad) ↦ absurd (ground (arith, e, bad))
        | inl (u, good) ↦
            elim (Result-cases
              (ends_within x.received_at handshake_lifetime_seconds i.lease_expires_at)) [
                | inr (b, bad) ↦ absurd (ground (arith, e, good, bad))
                | inl (expires, ends) ↦
                    let (signed, after, before) = response-proved crypto c x i good in
                    let (bounded, leased) =
                      ends-bounded x.received_at handshake_lifetime_seconds i.lease_expires_at
                        expires ends in
                    let end : expires ≡ h.expires_at = ground (arith, e, good, ends) in
                    let from : x.received_at ≡ h.verified_at = ground (arith, e, good, ends) in
                    (
                      signed,
                      ground (arith, e, good, ends),
                      ground (arith, e, good, ends),
                      ground (arith, e, good, ends),
                      sym from,
                      after,
                      before,
                      subst (λ n. n ≤ℤ h.verified_at +ℤ pos 30) end
                          (subst (λ n. expires ≤ℤ n +ℤ pos 30) from bounded),
                      subst (λ n. n ≤ℤ i.lease_expires_at) end leased,
                    )
              ]
      ]

  issue-eligible :
      (i : RegisteredInstance) (now : ℤ) (c : SignedHandshakeChallenge)
      → issue crypto (around.draw i.public_key.instance_id) around.kernel i now ≡ ok c
      → is_eligible_at i now ≡ true
  unfolding issue
  issue-eligible i now c e = elim (Bool-cases (is_eligible_at i now)) [
    | inl eligible ↦ eligible
    | inr away ↦ absurd (ground (arith, e, away))
  ]

  exchange-proved :
      (c : SignedHandshakeChallenge) (i : RegisteredInstance) (s t : S) (h : InstanceHandshake)
      → exchange_and_complete store crypto around c i s ≡ (ok (verified h), t)
      → (x : HandshakeExchange) × (around.exchange i.endpoint c ≡ ok x)
        × Proves crypto c x i h
        × (store.complete h s ≡ (ok tt, t))
  unfolding exchange_and_complete
  exchange-proved c i s t h e = elim (Result-cases (around.exchange i.endpoint c)) [
    | inr (b, bad) ↦ absurd (ground (arith, e, bad))
    | inl (x, got) ↦ elim (Result-cases (handshake_of store crypto around c i x)) [
      | inr (b, bad) ↦ absurd (ground (arith, e, got, bad))
      | inl (g, good) ↦ elim (Result-cases (store.complete g s).0) [
        | inr (b, bad) ↦ absurd (ground (arith, e, got, good, bad))
        | inl (u, done) ↦
            let same : g ≡ h = ground (arith, e, got, good, done) in
            (
              x,
              got,
              handshake-proved c i x h (good ∙ ap ok same),
              subst (λ g. store.complete g s ≡ (ok tt, t)) same
                  (ground (arith, e, got, good, done)),
            )
      ]
    ]
  ]

  -- An attempt on an instance that reports a verified handshake: the instance was eligible, the
  -- kernel issued a challenge to it, the exchange with its endpoint returned a response that its
  -- registered key signed for that challenge while the challenge was alive, and the handshake,
  -- which the repository completed, lasts 30 seconds at most and ends with the lease at the latest.
  pub reconcile_instance-proved :
      (i : RegisteredInstance) (now : ℤ) (s t : S) (h : InstanceHandshake)
      → reconcile_instance store crypto around i now s ≡ (ok (verified h), t)
      → (c : SignedHandshakeChallenge) × (x : HandshakeExchange) × (u : S) × (issue crypto
            (around.draw i.public_key.instance_id)
            around.kernel
            i
            now
          ≡ ok c)
        × (is_eligible_at i now ≡ true)
        × (around.exchange i.endpoint c ≡ ok x)
        × Proves crypto c x i h
        × (store.complete h u ≡ (ok tt, t))
  unfolding reconcile_instance
  reconcile_instance-proved i now s t h e =
      let kernel_id = around.kernel.public.instance_id in
      let target_id = i.public_key.instance_id in
      elim (Result-cases (store.find_fresh kernel_id target_id now s)) [
        | inr (b, bad) ↦ absurd (ground (arith, e, bad))
        | inl (some g, found) ↦ absurd (ground (arith, e, found))
        | inl (none, nothing) ↦
            elim (Result-cases (issue crypto (around.draw target_id) around.kernel i now)) [
              | inr (b, bad) ↦ absurd (ground (arith, e, nothing, bad))
              | inl (c, made) ↦
                  let u = store.insert_challenge (challenge_record crypto c) s in
                  elim (Result-cases u.0) [
                    | inr (b, bad) ↦ absurd (ground (arith, e, nothing, made, bad))
                    | inl (_, stored) ↦
                        let (x, got, proved, done) =
                          exchange-proved c i u.1 t h (ground (arith, e, nothing, made, stored)) in
                        (c, x, u.1, made, issue-eligible i now c made, got, proved, done)
                  ]
            ]
      ]
