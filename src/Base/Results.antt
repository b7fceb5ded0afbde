-- ===== src/Base/Results.antt =====
-- `Result`, and the two ways in which the code works on a shared store: an action, which returns
-- the store that it leaves, and a transaction, whose writes are dropped unless it commits.
use mathlib.Core.Path.{◌≡◌, refl, ap}
use native.Mathlib.Omega.{arith}
use mathlib.Core.Logic.{◌⊎◌, inl, inr}
use mathlib.Core.Bool.{Bool, true, false}
use mathlib.Core.Option.{Option, none, some}

pub data Result {ℓ} (A E : Type ℓ) : Type ℓ where
  ok : A → Result A E
  err : E → Result A E

pub Result-cases {ℓ} :
    {A E : Type ℓ} (r : Result A E) → ((a : A) × (r ≡ ok a)) ⊎ ((e : E) × (r ≡ err e))
Result-cases (ok a) = inl (a, refl)
Result-cases (err e) = inr (e, refl)

-- `result.map_err(f)`.
abbrev pub map_err {ℓ} : {A E F : Type ℓ} → (E → F) → Result A E → Result A F
map_err f (ok a) = ok a
map_err f (err e) = err (f e)

-- `option.ok_or(e)`.
abbrev pub ok_or {ℓ} : {A E : Type ℓ} → Option A → E → Result A E
ok_or none e = err e
ok_or (some a) e = ok a

-- `if condition { return Err(e) }`.
abbrev pub reject {ℓ} : {E : Type ℓ} → Bool → E → Result Unit E
reject true e = err e
reject false e = ok tt

infixl 5 ◌>>=◌
infixr 5 ◌>>◌
abbrev pub ◌>>=◌ {ℓ} : {A B E : Type ℓ} → Result A E → (A → Result B E) → Result B E
ok a >>= f = f a
err e >>= f = err e

abbrev pub ◌>>◌ {ℓ} : {A B E : Type ℓ} → Result A E → Result B E → Result B E
ok a >> k = k
err e >> k = err e

-- An operation on a store `S`.
abbrev pub Action {ℓ} : Type ℓ → Type ℓ → Type ℓ → Type ℓ
Action S A E = S → Result A E × S

-- A body that fails was dropped uncommitted, so the store is as before; one that returns has
-- committed its store, with whatever result it then reports.
abbrev pub settle {ℓ} : {S A E : Type ℓ} → S → Result (Result A E × S) E → Result A E × S
settle s (ok (r, t)) = (r, t)
settle s (err e) = (err e, s)

abbrev pub transaction {ℓ} : {S A E : Type ℓ} → (S → Result (Result A E × S) E) → Action S A E
transaction body s = settle s (body s)

-- Inversion of a bind that succeeds.
pub bind-ok {ℓ} :
    {A B E : Type ℓ} (m : Result A E) (f : A → Result B E) {b : B}
    → (m >>= f) ≡ ok b
    → (a : A) × (m ≡ ok a) × (f a ≡ ok b)
bind-ok (ok a) f h = (a, refl, h)
bind-ok (err e) f h = absurd (cc)

pub seq-ok {ℓ} :
    {A B E : Type ℓ} (m : Result A E) (k : Result B E) {b : B}
    → (m >> k) ≡ ok b
    → (a : A) × (m ≡ ok a) × (k ≡ ok b)
seq-ok (ok a) k h = (a, refl, h)
seq-ok (err e) k h = absurd (cc)

pub map_err-ok {ℓ} :
    {A E F : Type ℓ} (f : E → F) (m : Result A E) {a : A} → map_err f m ≡ ok a → m ≡ ok a
map_err-ok f (ok a) h = cc
map_err-ok f (err e) h = absurd (cc)

pub reject-ok {ℓ} : {E : Type ℓ} (b : Bool) (e : E) {u : Unit} → reject b e ≡ ok u → b ≡ false
reject-ok true e h = absurd (cc)
reject-ok false e h = refl

pub settle-ok {ℓ} :
    {S A E : Type ℓ} (s : S) (m : Result (Result A E × S) E) {a : A} {t : S}
    → settle s m ≡ (ok a, t)
    → m ≡ ok (ok a, t)
settle-ok s (ok (r, u)) h = λ i. ok (h i)
settle-ok s (err e) h = absurd (ground (arith, ap (λ p. p.0) h))
