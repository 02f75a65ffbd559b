-- ===== src/Store/Monitors/Keyed.antt =====
-- Finding a row of `monitors` by its identifier after an update of other columns.
use pingcast.Prelude.{
  ℕ, ◌==◌, Bool, true, false, if◌then◌else◌, Option, none, some, List, [], ◌∷◌, find, any,
  update_where, ◌≡◌, refl, arith,
}
use pingcast.Store.World.{MonitorRow}
use pingcast.Store.Monitors.{is_live, is_owned}

abbrev pub hit : (MonitorRow → Bool) → (MonitorRow → MonitorRow) → MonitorRow → MonitorRow
hit q f row = if q row then f row else row

abbrev pub hit_option :
    (MonitorRow → Bool) → (MonitorRow → MonitorRow) → Option MonitorRow → Option MonitorRow
hit_option q f none = none
hit_option q f (some row) = some (hit q f row)

pub find-update_where :
    (id : ℕ) (q : MonitorRow → Bool) (f : MonitorRow → MonitorRow) (rows : List MonitorRow)
    → ((row : MonitorRow) → is_live id (f row) ≡ is_live id row)
    → find (is_live id) (update_where q f rows) ≡ hit_option q f (find (is_live id) rows)
find-update_where id q f [] h = refl
find-update_where id q f (row ∷ rows) h = ground (arith, h row, find-update_where id q f rows h)

-- The primary key: no two rows have the same identifier.
abbrev pub IsKeyed : List MonitorRow → Type 0
IsKeyed [] = Unit
IsKeyed (row ∷ rows) = (any (λ r. r.mon.id == row.mon.id) rows ≡ false) × IsKeyed rows

any-update_where :
    (id : ℕ) (q : MonitorRow → Bool) (f : MonitorRow → MonitorRow) (rows : List MonitorRow)
    → ((row : MonitorRow) → (f row).mon.id ≡ row.mon.id)
    → any (λ r. r.mon.id == id) (update_where q f rows) ≡ any (λ r. r.mon.id == id) rows
any-update_where id q f [] h = refl
any-update_where id q f (row ∷ rows) h = ground (arith, h row, any-update_where id q f rows h)

pub IsKeyed-update_where :
    (q : MonitorRow → Bool) (f : MonitorRow → MonitorRow) (rows : List MonitorRow)
    → ((row : MonitorRow) → (f row).mon.id ≡ row.mon.id)
    → IsKeyed rows
    → IsKeyed (update_where q f rows)
IsKeyed-update_where q f [] h k = tt
IsKeyed-update_where q f (row ∷ rows) h (fresh, k) = (
  ground (arith, h row, fresh, any-update_where row.mon.id q f rows h),
  IsKeyed-update_where q f rows h k,
)

pub find-absent :
    (id : ℕ) (rows : List MonitorRow)
    → any (λ r. r.mon.id == id) rows ≡ false
    → find (is_live id) rows ≡ none
find-absent id [] h = refl
find-absent id (row ∷ rows) h = ground (arith, find-absent id rows)

abbrev pub gone : MonitorRow → MonitorRow
gone row = record row { deleted = true }

-- A live row whose owner deletes it is the only one with its identifier.
pub find-deleted :
    (id user_id : ℕ) (row : MonitorRow) (rows : List MonitorRow)
    → IsKeyed rows
    → find (is_live id) rows ≡ some row
    → row.mon.user_id ≡ user_id
    → find (is_live id) (update_where (is_owned id user_id) gone rows) ≡ none
find-deleted id user_id row [] k e own = cc
find-deleted id user_id row (r ∷ rows) (fresh, k) e own = ground (
  arith,
  find-deleted id user_id row rows k,
  find-absent id (update_where (is_owned id user_id) gone rows),
  any-update_where id (is_owned id user_id) gone rows (λ r. refl),
)

pub find-not_deleted :
    (id mid user_id : ℕ) (rows : List MonitorRow)
    → (mid == id) ≡ false
    → find (is_live id) (update_where (is_owned mid user_id) gone rows) ≡ find (is_live id) rows
find-not_deleted id mid user_id [] h = refl
find-not_deleted id mid user_id (r ∷ rows) h =
    ground (arith, find-not_deleted id mid user_id rows h)

pub find-live :
    (id : ℕ) (rows : List MonitorRow) (row : MonitorRow)
    → find (is_live id) rows ≡ some row
    → (row.mon.id ≡ id) × (row.deleted ≡ false)
find-live id [] row e = cc
find-live id (r ∷ rows) row e = let ih = find-live id rows row in (ground arith, ground arith)

pub find-owned :
    (id user_id : ℕ) (row : MonitorRow) (rows : List MonitorRow)
    → find (is_live id) rows ≡ some row
    → row.mon.user_id ≡ user_id
    → find (is_owned id user_id) rows ≡ some row
find-owned id user_id row [] e own = cc
find-owned id user_id row (r ∷ rows) e own = ground (arith, e, own, find-owned id user_id row rows)
