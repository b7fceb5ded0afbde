-- ===== src/Postgres/Identity/Stored.antt =====
-- The table of identities read as a directory: a function from ids to identities. What is written
-- is read back, and an insert or an update changes the directory at its id only.
use infernal_law.Base.{
  ℕ, ◌==◌, ◌≡◌, refl, sym, ap, subst, ◌∙◌, Bool-cases, Option-cases, Result-cases, inl, inr, arith,
  Option, none, some, List, [], ◌∷◌, ok, err, if◌then◌else◌, find_row, any_row, update_rows, Text,
  text_eq, trim_idem, is_some, true, false,
}
use infernal_law.Kernel.Identity.{
  ActorKind, service, worker, IdentityStatus, active, disabled, Identity, already_exists,
  kind_as_str, kind_from_str, status_as_str, status_from_str, validate_display_name,
  restore_identity,
}
use infernal_law.Postgres.Db.{Db, IdentityRow}
use infernal_law.Postgres.Identity.{
  identity_from_row, row_of_identity, insert_body, insert, find, save,
}

abbrev pub Directory : Type 0
Directory = ℕ → Option Identity

-- The directory that the table holds, as `find` reports it.
abbrev pub Represents : Db → Directory → Type 0
Represents db m = (id : ℕ) → find id db ≡ ok (m id)

abbrev pub put : Directory → Identity → Directory
put m x id = if x.id == id then some x else m id

-- Reading back what was written.
kind-round : (k : ActorKind) → kind_from_str (kind_as_str k) ≡ ok k
unfolding kind_from_str kind_as_str text_eq
kind-round service = refl
kind-round worker = refl

status-round : (s : IdentityStatus) → status_from_str (status_as_str s) ≡ ok s
unfolding status_from_str status_as_str text_eq
status-round active = refl
status-round disabled = refl

-- A name that was validated is validated as it is.
pub validated_again :
    (value name : Text)
    → validate_display_name value ≡ ok name
    → validate_display_name name ≡ ok name
unfolding validate_display_name
validated_again value name h = ground (arith, h, trim_idem value)

abbrev pub IsNamed : Identity → Type 0
IsNamed x = validate_display_name x.display_name ≡ ok x.display_name

restored : (x : Identity) → IsNamed x → identity_from_row (row_of_identity x) ≡ ok x
unfolding identity_from_row row_of_identity restore_identity
restored x named = ground (arith, named, kind-round x.kind, status-round x.status)

pub restore-IsNamed :
    (id : ℕ) (kind : ActorKind) (name : Text) (status : IdentityStatus) (x : Identity)
    → restore_identity id kind name status ≡ ok x
    → IsNamed x × (x.id ≡ id)
unfolding restore_identity
restore-IsNamed id kind name status x h = elim (Result-cases (validate_display_name name)) [
  | inl (n, e) ↦ (ground (arith, h, e, validated_again name n e), ground (arith, h, e))
  | inr (e, bad) ↦ absurd (ground (arith, h, bad))
]

any-find :
    (id : ℕ) (rows : List IdentityRow)
    → any_row (λ r. r.id == id) rows ≡ is_some (find_row (λ r. r.id == id) rows)
unfolding any_row find_row
any-find id [] = refl
any-find id (r ∷ rows) = ground (arith, any-find id rows)

-- The row that `save` writes in the place of another.
abbrev replace : Identity → IdentityRow → IdentityRow
replace x r = row_of_identity (record x { id = r.id })

find-update_other :
    (x : Identity) (id : ℕ) (rows : List IdentityRow)
    → (x.id == id) ≡ false
    → find_row (λ r. r.id == id) (update_rows (λ r. r.id == x.id) (replace x) rows)
      ≡ find_row (λ r. r.id == id) rows
unfolding find_row update_rows row_of_identity
find-update_other x id [] h = refl
find-update_other x id (r ∷ rows) h =
    let ih = find-update_other x id rows h in ground (arith, ih, h)

find-update_same :
    (x : Identity) (rows : List IdentityRow)
    → any_row (λ r. r.id == x.id) rows ≡ true
    → find_row (λ r. r.id == x.id) (update_rows (λ r. r.id == x.id) (replace x) rows)
      ≡ some (row_of_identity x)
unfolding find_row update_rows row_of_identity any_row
find-update_same x [] h = absurd (ground (arith, h))
find-update_same x (r ∷ rows) h = elim (Bool-cases (r.id == x.id)) [
  | inl here ↦ ground (arith, here)
  | inr other ↦
      let ih = find-update_same x rows (ground (arith, h, other)) in ground (arith, ih, other)
]

find-none :
    (id : ℕ) (db : Db) → find id db ≡ ok none → any_row (λ r. r.id == id) db.identities ≡ false
unfolding find
find-none id db h = elim (Option-cases (find_row (λ r. r.id == id) db.identities)) [
  | inl nothing ↦ ground (arith, nothing, any-find id db.identities)
  | inr (r, found) ↦ elim (Result-cases (identity_from_row r)) [
    | inl (i, e) ↦ absurd (ground (arith, h, found, e))
    | inr (e, bad) ↦ absurd (ground (arith, h, found, bad))
  ]
]

row-id :
    (id : ℕ) (rows : List IdentityRow) (r : IdentityRow)
    → find_row (λ r. r.id == id) rows ≡ some r
    → r.id ≡ id
unfolding find_row
row-id id [] r h = absurd (ground (arith, h))
row-id id (s ∷ rows) r h = elim (Bool-cases (s.id == id)) [
  | inl here ↦ ground (arith, here, h)
  | inr other ↦ row-id id rows r (ground (arith, other, h))
]

read-IsNamed :
    (r : IdentityRow) (x : Identity) → identity_from_row r ≡ ok x → IsNamed x × (x.id ≡ r.id)
unfolding identity_from_row
read-IsNamed r x h = elim (Result-cases (kind_from_str r.kind)) [
  | inr (e, bad) ↦ absurd (ground (arith, h, bad))
  | inl (k, ek) ↦ elim (Result-cases (status_from_str r.status)) [
    | inr (e, bad) ↦ absurd (ground (arith, h, ek, bad))
    | inl (s, es) ↦ restore-IsNamed r.id k r.display_name s x (ground (arith, h, ek, es))
  ]
]

pub find-some :
    (id : ℕ) (db : Db) (x : Identity)
    → find id db ≡ ok (some x)
    → (any_row (λ r. r.id == id) db.identities ≡ true) × IsNamed x × (x.id ≡ id)
unfolding find
find-some id db x h = elim (Option-cases (find_row (λ r. r.id == id) db.identities)) [
  | inl nothing ↦ absurd (ground (arith, h, nothing))
  | inr (r, found) ↦ elim (Result-cases (identity_from_row r)) [
    | inr (e, bad) ↦ absurd (ground (arith, h, found, bad))
    | inl (i, e) ↦
        let same : i ≡ x = ground (arith, h, found, e) in
        let (named, id_kept) = read-IsNamed r x (ground (arith, e, same)) in
        (
          ground (arith, found, any-find id db.identities),
          named,
          id_kept ∙ row-id id db.identities r found,
        )
  ]
]

row-id_kept : (x : Identity) → (row_of_identity x).id ≡ x.id
unfolding row_of_identity
row-id_kept x = refl

find_inserted :
    (x : Identity) (db : Db) (m : Directory)
    → Represents db m
    → IsNamed x
    → Represents (record db { identities = row_of_identity x ∷ db.identities }) (put m x)
unfolding find find_row
find_inserted x db m rep named id =
    let read = restored x named in
    let before = rep id in let kept = row-id_kept x in ground (arith, read, before, kept)

-- `insert` and `save` on a table that represents a directory.
pub insert-fresh :
    (x : Identity) (db : Db) (m : Directory)
    → Represents db m
    → IsNamed x
    → m x.id ≡ none
    → ((insert x db).0 ≡ ok tt) × Represents (insert x db).1 (put m x)
unfolding insert insert_body
insert-fresh x db m rep named none_yet =
    let vacant = find-none x.id db (rep x.id ∙ ap ok none_yet) in
    let e : (insert x db).1 ≡ record db { identities = row_of_identity x ∷ db.identities } =
      ground (arith, vacant) in
    (
      ground (arith, vacant),
      subst (λ d. Represents d (put m x)) (sym e) (find_inserted x db m rep named),
    )

pub insert-taken :
    (x y : Identity) (db : Db) (m : Directory)
    → Represents db m
    → m x.id ≡ some y
    → insert x db ≡ (err (already_exists x.id), db)
unfolding insert insert_body
insert-taken x y db m rep taken =
    let (there, _, _) = find-some x.id db y (rep x.id ∙ ap ok taken) in ground (arith, there)

pub saved :
    (x y : Identity) (db : Db) (m : Directory)
    → Represents db m
    → IsNamed x
    → m x.id ≡ some y
    → ((save x db).0 ≡ ok tt) × Represents (save x db).1 (put m x)
unfolding save find
saved x y db m rep named taken =
    let (there, _, _) = find-some x.id db y (rep x.id ∙ ap ok taken) in
    let read = restored x named in
    (
      ground (arith, there),
      λ id. elim (Bool-cases (x.id == id)) [
        | inl here ↦
            let e : x.id ≡ id = ground (arith, here) in
            let row = find-update_same x db.identities there in
            let at_id : find x.id (save x db).1 ≡ ok (some x) = ground (arith, there, row, read) in
            subst (λ n. find n (save x db).1 ≡ ok (some x)) e at_id
            ∙ ap (λ b. ok (if b then some x else m id)) (sym here)
        | inr other ↦
            let before = rep id in
            let row = find-update_other x id db.identities other in
            ground (arith, there, other, before, row)
      ],
    )
