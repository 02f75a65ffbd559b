-- ===== src/Scheduler/Mirror.antt =====
-- The scheduler that follows the stream of events has the monitors of the tables.
use pingcast.Prelude.{
  ℕ, ◌==◌, Bool, true, false, not, if◌then◌else◌, Option, none, some, List, [], ◌∷◌, find, keep,
  update_where, ◌≡◌, refl, ◌∙◌, ap, arith, subst,
}
use pingcast.Prelude.Int.{ℤ}
use pingcast.Domain.Monitor.{Monitor, MonitorAction, delete, pause}
use pingcast.Store.World.{MonitorRow, MonitorChangedEvent}
use pingcast.Store.Monitors.{is_live, is_owned}
use pingcast.Store.Monitors.Keyed.{
  IsKeyed, hit_option, gone, find-update_where, find-deleted, find-not_deleted, find-live,
}
use pingcast.Scheduler.{LeaderScheduler, ScheduledMonitor, is_for, add, remove}
use pingcast.Scheduler.Events.{event_monitor, handle_change}

-- How often the monitor is to be checked, if at all.
abbrev pub plan : Monitor → Option ℤ
plan m = if m.is_paused then none else some m.interval_seconds

abbrev pub of_entry : Option ScheduledMonitor → Option ℤ
of_entry none = none
of_entry (some sm) = plan sm.monitor

abbrev pub of_row : Option MonitorRow → Option ℤ
of_row none = none
of_row (some row) = plan row.mon

-- What the scheduler does for an identifier, and what the tables ask for.
abbrev pub scheduled : ℕ → LeaderScheduler → Option ℤ
scheduled id s = of_entry (find (is_for id) s.monitors)

abbrev pub wanted : ℕ → List MonitorRow → Option ℤ
wanted id rows = of_row (find (is_live id) rows)

abbrev pub stops : MonitorAction → Bool
stops delete = true
stops pause = true
stops _ = false

abbrev pub event_plan : MonitorChangedEvent → Option ℤ
event_plan ev = if stops ev.action then none else plan (event_monitor ev)

find-keep-same :
    (id : ℕ) (sms : List ScheduledMonitor)
    → find (is_for id) (keep (λ sm. not (is_for id sm)) sms) ≡ none
find-keep-same id [] = refl
find-keep-same id (sm ∷ sms) = ground (arith, find-keep-same id sms)

find-keep-other :
    (id mid : ℕ) (sms : List ScheduledMonitor)
    → (mid == id) ≡ false
    → find (is_for id) (keep (λ sm. not (is_for mid sm)) sms) ≡ find (is_for id) sms
find-keep-other id mid [] h = refl
find-keep-other id mid (sm ∷ sms) h = ground (arith, find-keep-other id mid sms h)

pub scheduled-add :
    (m : Monitor) (s : LeaderScheduler) (id : ℕ)
    → scheduled id (add m s) ≡ (if m.id == id then plan m else scheduled id s)
unfolding add
scheduled-add m s id = ground (arith, find-keep-other id m.id s.monitors)

pub scheduled-handle_change :
    (ev : MonitorChangedEvent) (s : LeaderScheduler) (id : ℕ)
    → scheduled id (handle_change ev s)
      ≡ (if ev.monitor_id == id then event_plan ev else scheduled id s)
unfolding handle_change add remove
scheduled-handle_change ev s id =
    ground (arith, find-keep-same id s.monitors, find-keep-other id ev.monitor_id s.monitors)

-- A change of the rows of one identifier that stay live.
pub wanted-update_where :
    (mid user_id : ℕ) (f : MonitorRow → MonitorRow) (row : MonitorRow) (rows : List MonitorRow)
    → ((id : ℕ) (r : MonitorRow) → is_live id (f r) ≡ is_live id r)
    → find (is_live mid) rows ≡ some row
    → row.mon.user_id ≡ user_id
    → (id : ℕ)
    → wanted id (update_where (is_owned mid user_id) f rows)
      ≡ (if mid == id then plan (f row).mon else wanted id rows)
wanted-update_where mid user_id f row rows h e own id =
    ap of_row (find-update_where id (is_owned mid user_id) f rows (h id))
    ∙ by_found (find (is_live id) rows) refl
  where
    same : mid ≡ id → find (is_live id) rows ≡ some row
    same q = subst (λ i. find (is_live i) rows ≡ some row) q e

    by_found :
        (o : Option MonitorRow)
        → find (is_live id) rows ≡ o
        → of_row (hit_option (is_owned mid user_id) f o)
          ≡ (if mid == id then plan (f row).mon else of_row o)
    by_found none q = ground (arith, q, same)
    by_found (some r) q = let (i, d) = find-live id rows r q in ground (arith, q, same, i, d, own)

pub wanted-deleted :
    (mid user_id : ℕ) (row : MonitorRow) (rows : List MonitorRow)
    → IsKeyed rows
    → find (is_live mid) rows ≡ some row
    → row.mon.user_id ≡ user_id
    → (id : ℕ)
    → wanted id (update_where (is_owned mid user_id) gone rows)
      ≡ (if mid == id then none else wanted id rows)
wanted-deleted mid user_id row rows k live own id =
    ground (arith, same, find-not_deleted id mid user_id rows)
  where
    same : mid ≡ id → find (is_live id) (update_where (is_owned mid user_id) gone rows) ≡ none
    same q =
        subst (λ i. find (is_live i) (update_where (is_owned mid user_id) gone rows) ≡ none) q
          (find-deleted mid user_id row rows k live own)
