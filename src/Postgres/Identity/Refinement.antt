-- ===== src/Postgres/Identity/Refinement.antt =====
-- The identity service on the table of identities, against a directory: a function from ids to
-- identities.
use infernal_law.Base.{
  ℕ, ◌≡◌, refl, sym, ap, subst, ◌∙◌, Bool-cases, Option-cases, Result-cases, inl, inr, arith, none,
  some, List, [], ◌∷◌, Result, ok, err, ok_or, if◌then◌else◌, Text, is_some,
}
use infernal_law.Kernel.Identity.{
  ActorKind, active, disabled, Identity, IdentityError, already_exists, is_disabled, not_found,
  validate_display_name, restore_identity, is_active, create_identity, find_required,
  resolve_active, rename_identity, disable_identity,
}
use infernal_law.Postgres.Db.{Db}
use infernal_law.Postgres.Identity.{insert, save, identities}
use infernal_law.Postgres.Identity.Stored.{
  Directory, Represents, put, validated_again, restore-IsNamed, find-some, insert-fresh,
  insert-taken, saved,
}

pub data Command : Type 0 where
  create : ℕ → ActorKind → Text → Command
  rename : ℕ → Text → Command
  disable resolve : ℕ → Command

abbrev pub Outcome : Type 0
Outcome = Result Identity IdentityError

-- What a command does to a directory.
abbrev pub create_in : Directory → ℕ → Identity → Outcome × Directory
create_in m fresh x = if is_some (m fresh) then (err (already_exists fresh), m) else (ok x, put m x)

unfoldable pub expected : Command → Directory → Outcome × Directory
expected (create fresh kind name) m = elim (restore_identity fresh kind name active) [
  | err e ↦ (err e, m)
  | ok x ↦ create_in m fresh x
]
expected (rename id name) m = elim (m id) [
  | none ↦ (err (not_found id), m)
  | some x ↦ elim (validate_display_name name) [
    | err e ↦ (err e, m)
    | ok n ↦ let y = record x { display_name = n } in (ok y, put m y)
  ]
]
expected (disable id) m = elim (m id) [
  | none ↦ (err (not_found id), m)
  | some x ↦ let y = record x { status = disabled } in (ok y, put m y)
]
expected (resolve id) m = elim (m id) [
  | none ↦ (err (not_found id), m)
  | some x ↦ if is_active x then (ok x, m) else (err (is_disabled id), m)
]

-- What the service does to the tables.
unfoldable pub perform : Command → Db → Outcome × Db
perform (create fresh kind name) db = create_identity identities fresh kind name db
perform (rename id name) db = rename_identity identities id name db
perform (disable id) db = disable_identity identities id db
perform (resolve id) db = (resolve_active identities id db, db)

unfoldable pub expected_all : List Command → Directory → List Outcome × Directory
expected_all [] m = ([], m)
expected_all (c ∷ cs) m =
    let first = expected c m in let rest = expected_all cs first.1 in (first.0 ∷ rest.0, rest.1)

unfoldable pub perform_all : List Command → Db → List Outcome × Db
perform_all [] db = ([], db)
perform_all (c ∷ cs) db =
    let first = perform c db in let rest = perform_all cs first.1 in (first.0 ∷ rest.0, rest.1)

required :
    (id : ℕ) (db : Db) (m : Directory)
    → Represents db m
    → find_required identities id db ≡ ok_or (m id) (not_found id)
unfolding find_required
required id db m rep = let here = rep id in ground (arith, here)

-- The service answers as the directory does, and leaves tables that represent the directory's.
abbrev Agree : Outcome × Db → Outcome × Directory → Type 0
Agree p q = (p.0 ≡ q.0) × Represents p.1 q.1

agree :
    {p : Outcome × Db} {q : Outcome × Directory} (r : Outcome) (t : Db) (n : Directory)
    → p ≡ (r, t)
    → q ≡ (r, n)
    → Represents t n
    → Agree p q
agree {q} r t n e f rep =
    subst (λ p. Agree p q) (sym e) (subst (λ q. Agree (r, t) q) (sym f) (refl, rep))

create-agrees :
    (fresh : ℕ) (kind : ActorKind) (name : Text) (db : Db) (m : Directory)
    → Represents db m
    → Agree (perform (create fresh kind name) db) (expected (create fresh kind name) m)
unfolding perform expected create_identity
create-agrees fresh kind name db m rep =
    elim (Result-cases (restore_identity fresh kind name active)) [
      | inr (e, bad) ↦ agree (err e) db m (ground (arith, bad)) (ground (arith, bad)) rep
      | inl (x, good) ↦
          let (named, own) = restore-IsNamed fresh kind name active x good in
          elim (Option-cases (m fresh)) [
            | inl vacant ↦
                let (done, after) = insert-fresh x db m rep named (ap m own ∙ vacant) in
                agree (ok x) (insert x db).1 (put m x) (ground (arith, good, done))
                  (ground (arith, good, vacant)) after
            | inr (y, taken) ↦
                let same = insert-taken x y db m rep (ap m own ∙ taken) in
                agree (err (already_exists fresh)) db m (ground (arith, good, same, own))
                  (ground (arith, good, taken)) rep
          ]
    ]

rename-agrees :
    (id : ℕ) (name : Text) (db : Db) (m : Directory)
    → Represents db m
    → Agree (perform (rename id name) db) (expected (rename id name) m)
unfolding perform expected rename_identity
rename-agrees id name db m rep =
    let found = required id db m rep in
    elim (Option-cases (m id)) [
      | inl nothing ↦
          agree (err (not_found id)) db m (ground (arith, found, nothing)) (ground (arith, nothing))
            rep
      | inr (x, there) ↦
          let (_, _, own) = find-some id db x (rep id ∙ ap ok there) in
          elim (Result-cases (validate_display_name name)) [
            | inr (e, bad) ↦
                agree (err e) db m (ground (arith, found, there, bad)) (ground (arith, there, bad))
                  rep
            | inl (n, good) ↦
                let y : Identity = record x { display_name = n } in
                let (done, after) =
                  saved y x db m rep (validated_again name n good) (ap m own ∙ there) in
                agree (ok y) (save y db).1 (put m y) (ground (arith, found, there, good, done))
                  (ground (arith, there, good)) after
          ]
    ]

disable-agrees :
    (id : ℕ) (db : Db) (m : Directory)
    → Represents db m
    → Agree (perform (disable id) db) (expected (disable id) m)
unfolding perform expected disable_identity
disable-agrees id db m rep =
    let found = required id db m rep in
    elim (Option-cases (m id)) [
      | inl nothing ↦
          agree (err (not_found id)) db m (ground (arith, found, nothing)) (ground (arith, nothing))
            rep
      | inr (x, there) ↦
          let (_, named, own) = find-some id db x (rep id ∙ ap ok there) in
          let y : Identity = record x { status = disabled } in
          let (done, after) = saved y x db m rep named (ap m own ∙ there) in
          agree (ok y) (save y db).1 (put m y) (ground (arith, found, there, done))
            (ground (arith, there)) after
    ]

resolve-agrees :
    (id : ℕ) (db : Db) (m : Directory)
    → Represents db m
    → Agree (perform (resolve id) db) (expected (resolve id) m)
unfolding perform expected resolve_active
resolve-agrees id db m rep =
    let found = required id db m rep in
    elim (Option-cases (m id)) [
      | inl nothing ↦
          agree (err (not_found id)) db m (ground (arith, found, nothing)) (ground (arith, nothing))
            rep
      | inr (x, there) ↦ elim (Bool-cases (is_active x)) [
        | inl yes_active ↦
            agree (ok x) db m (ground (arith, found, there, yes_active))
              (ground (arith, there, yes_active)) rep
        | inr off ↦
            agree (err (is_disabled id)) db m (ground (arith, found, there, off))
              (ground (arith, there, off)) rep
      ]
    ]

perform-agrees :
    (c : Command) (db : Db) (m : Directory) → Represents db m → Agree (perform c db) (expected c m)
perform-agrees (create fresh kind name) = create-agrees fresh kind name
perform-agrees (rename id name) = rename-agrees id name
perform-agrees (disable id) = disable-agrees id
perform-agrees (resolve id) = resolve-agrees id

-- On tables that represent a directory, any sequence of the identity service's operations
-- (create, rename, disable and resolve_active) gives the results that it gives on the directory,
-- in which an id has one identity at most, and leaves tables that represent the directory's.
pub perform_all-refines :
    (cs : List Command) (db : Db) (m : Directory)
    → Represents db m
    → ((perform_all cs db).0 ≡ (expected_all cs m).0)
      × Represents (perform_all cs db).1 (expected_all cs m).1
unfolding perform_all expected_all
perform_all-refines [] db m rep = (refl, rep)
perform_all-refines (c ∷ cs) db m rep =
    let (same, next) = perform-agrees c db m rep in
    let (rest, last) = perform_all-refines cs (perform c db).1 (expected c m).1 next in
    (λ i. same i ∷ rest i, last)
