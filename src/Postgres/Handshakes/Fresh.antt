-- ===== src/Postgres/Handshakes/Fresh.antt =====
-- A completed handshake makes its instance pass `require_fresh` until it ends.
use infernal_law.Base.{
  ℕ, ℤ, pos, ltb_ℤ, ◌≤ℤ◌, ◌<ℤ◌, ◌≡◌, sym, subst, ap, ◌∙◌, inl, inr, arith, Bool, Bool-cases,
  Option-cases, some, is_some, true, false, List, [], ◌∷◌, ok, All,
}
use infernal_law.Kernel.InstanceKeys.{Crypto}
use infernal_law.Kernel.Handshakes.{InstanceHandshake, restore_handshake, is_fresh_at}
use infernal_law.Kernel.Handshakes.Reconciler.{require_fresh, Surroundings}
use infernal_law.Postgres.Db.{Db, HandshakeRow}
use infernal_law.Postgres.Handshakes.{
  complete, handshake_row, fresh_row, last_verified, handshake_from_row, find_fresh, handshakes,
}
use infernal_law.Postgres.Handshakes.Once.{complete-ok}

-- The CHECK constraints of the handshakes.
abbrev pub IsChecked : HandshakeRow → Type 0
IsChecked h = (pos 0 ≤ℤ h.verified_at) × (h.verified_at <ℤ h.expires_at)

last-kept :
    (p : HandshakeRow → Bool) (rows : List HandshakeRow) (h : HandshakeRow)
    → last_verified p rows ≡ some h
    → All IsChecked rows
    → (p h ≡ true) × IsChecked h
unfolding last_verified
last-kept p [] h found checked = absurd (ground (arith, found))
last-kept p (x ∷ rows) h found (here, there) = elim (Option-cases (last_verified p rows)) [
  | inl nothing ↦ elim (Bool-cases (p x)) [
    | inl kept ↦
        let same : x ≡ h = ground (arith, found, nothing, kept) in
        subst (λ y. (p y ≡ true) × IsChecked y) same (kept, here)
    | inr dropped ↦ absurd (ground (arith, found, nothing, dropped))
  ]
  | inr (g, later) ↦
      let ih = last-kept p rows g later there in
      elim (Bool-cases (p x)) [
        | inr dropped ↦
            let same : g ≡ h = ground (arith, found, later, dropped) in
            subst (λ y. (p y ≡ true) × IsChecked y) same ih
        | inl kept ↦ elim (Bool-cases (ltb_ℤ x.verified_at g.verified_at)) [
          | inl before ↦
              let same : g ≡ h = ground (arith, found, later, kept, before) in
              subst (λ y. (p y ≡ true) × IsChecked y) same ih
          | inr after ↦
              let same : x ≡ h = ground (arith, found, later, kept, after) in
              subst (λ y. (p y ≡ true) × IsChecked y) same (kept, here)
        ]
      ]
]

last-found :
    (p : HandshakeRow → Bool) (h : HandshakeRow) (rows : List HandshakeRow)
    → p h ≡ true
    → is_some (last_verified p (h ∷ rows)) ≡ true
unfolding last_verified
last-found p h rows kept = elim (Option-cases (last_verified p rows)) [
  | inl nothing ↦ ground (arith, kept, nothing)
  | inr (g, later) ↦ ground (arith, kept, later)
]

row-restored :
    (kernel target : ℕ) (now : ℤ) (h : HandshakeRow)
    → fresh_row kernel target now h ≡ true
    → IsChecked h
    → (x : InstanceHandshake) × (handshake_from_row h ≡ ok x)
      × (is_fresh_at x now ≡ true)
      × (x.kernel_instance_id ≡ kernel)
      × (x.target_instance_id ≡ target)
unfolding handshake_from_row restore_handshake is_fresh_at
row-restored kernel target now h fresh checked = (
  record {
    challenge_digest = h.challenge_digest;
    kernel_instance_id = h.kernel_instance_id;
    target_instance_id = h.target_instance_id;
    target_key_id = h.target_key_id;
    verified_at = h.verified_at;
    expires_at = h.expires_at;
  },
  ground (arith, checked),
  ground (arith, fresh),
  ground (arith, fresh),
  ground (arith, fresh),
)

fresh_since :
    (h : InstanceHandshake) (now : ℤ)
    → h.verified_at ≤ℤ now
    → now <ℤ h.expires_at
    → fresh_row h.kernel_instance_id h.target_instance_id now (handshake_row h) ≡ true
fresh_since h now from to = ground (arith, from, to)

-- In a table of handshakes that keeps its CHECK constraints: once a handshake of the kernel's
-- instance with a target was completed, `require_fresh` on the target returns, at any time from
-- its verification to its end, a handshake of the kernel's instance with the target that is fresh
-- at that time.
pub complete-fresh :
    (crypto : Crypto) (around : Surroundings) (h : InstanceHandshake) (db t : Db)
    → All IsChecked db.handshakes
    → h.kernel_instance_id ≡ around.kernel.public.instance_id
    → complete h db ≡ (ok tt, t)
    → (now : ℤ) → h.verified_at ≤ℤ now
    → now <ℤ h.expires_at
    → (x : InstanceHandshake) × (require_fresh handshakes crypto around h.target_instance_id now t
        ≡ ok x)
      × (is_fresh_at x now ≡ true)
      × (x.kernel_instance_id ≡ h.kernel_instance_id)
      × (x.target_instance_id ≡ h.target_instance_id)
unfolding require_fresh find_fresh restore_handshake
complete-fresh crypto around h db t checked own done now from to =
    let (_, _, table, valid) = complete-ok h db t done in
    let kept = fresh_since h now from to in
    let p = fresh_row h.kernel_instance_id h.target_instance_id now in
    let all_checked : All IsChecked (handshake_row h ∷ db.handshakes) =
      ((ground (arith, valid), ground (arith, valid)), checked) in
    elim (Option-cases (last_verified p (handshake_row h ∷ db.handshakes))) [
      | inl nothing ↦
          absurd (ground (arith, nothing, last-found p (handshake_row h) db.handshakes kept))
      | inr (row, found) ↦
          let (fresh, check) =
            last-kept p (handshake_row h ∷ db.handshakes) row found all_checked in
          let (x, read, is_fresh, kernel, target) =
            row-restored h.kernel_instance_id h.target_instance_id now row fresh check in
          let rows = handshake_row h ∷ db.handshakes in
          let there =
            ap (last_verified (fresh_row around.kernel.public.instance_id h.target_instance_id now))
              table
            ∙ ap (λ k. last_verified (fresh_row k h.target_instance_id now) rows) (sym own)
            ∙ found in
          let late : ltb_ℤ now (pos 0) ≡ false = ground (arith, valid, from) in
          (x, ground (arith, there, read, late), is_fresh, kernel, target)
    ]
