-- ===== src/Postgres/Authority/Matching.antt =====
-- MATCHING_GRANTS_SQL selects what `Grant::permits` of src/kernel/authority.rs permits.
use infernal_law.Base.{
  ℤ, ◌≡◌, ◌∙◌, Bool, not, ◌&&◌, List, [], ◌∷◌, arith, ok, ◌>>=◌, bind-ok, any_row, where_rows,
  any_row-where_rows, any_row-congr, is_some,
}
use infernal_law.Kernel.Authority.{PolicyFacts, Grant, permits, scope_matches, restore_grant}
use infernal_law.Postgres.Db.{Db, GrantRow}
use infernal_law.Postgres.Authority.{row_matches, grant_from_row, grants_from_rows, matching_grants}

-- The query's condition on a row is `permits` on its grant, for a grant that is not revoked.
pub row_matches-permits :
    (facts : PolicyFacts) (now : ℤ) (row : GrantRow)
    → row_matches facts now row ≡ (permits row.grant facts now && not (is_some row.revoked_at))
unfolding row_matches permits scope_matches
row_matches-permits facts now row = ground arith

from_row-same : (g x : Grant) → grant_from_row g ≡ ok x → x ≡ g
unfolding grant_from_row restore_grant
from_row-same g x h = ground (arith, h)

any_row-grants :
    (p : Grant → Bool) (rows : List GrantRow) (gs : List Grant)
    → grants_from_rows rows ≡ ok gs
    → any_row p gs ≡ any_row (λ row. p row.grant) rows
unfolding grants_from_rows any_row
any_row-grants p [] gs h = ground (arith, h)
any_row-grants p (row ∷ rows) gs h =
    let more = grants_from_rows rows in
    let (g, first, then_more) =
      bind-ok (grant_from_row row.grant) (λ g. more >>= λ rest. ok (g ∷ rest)) h in
    let (rest, remaining, cons) = bind-ok more (λ rest. ok (g ∷ rest)) then_more in
    let same = from_row-same row.grant g first in
    let ih = any_row-grants p rows rest remaining in ground (arith, cons, same, ih)

-- The grants that the query returns are the grants that permit the facts at that time and are not
-- revoked, no more and no fewer: every test finds one among the former exactly if it finds one
-- among the latter.
pub matching_grants-permit :
    (db : Db) (facts : PolicyFacts) (now : ℤ) (gs : List Grant) (p : Grant → Bool)
    → matching_grants facts now db ≡ ok gs
    → any_row p gs
      ≡ any_row
          (λ row. permits row.grant facts now && not (is_some row.revoked_at) && p row.grant)
          db.grants
unfolding matching_grants
matching_grants-permit db facts now gs p h =
    any_row-grants p (where_rows (row_matches facts now) db.grants) gs h
    ∙ any_row-where_rows (λ row. p row.grant) (row_matches facts now) db.grants
    ∙ any_row-congr (λ row. row_matches facts now row && p row.grant)
        (λ row. permits row.grant facts now && not (is_some row.revoked_at) && p row.grant)
        db.grants (λ row. let e = row_matches-permits facts now row in ground (arith, e))
