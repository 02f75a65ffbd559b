-- ===== src/Scheduler/Follows/Start.antt =====
-- A scheduler that starts with the active monitors and follows the stream from there.
use pingcast.Prelude.{
  ℕ, ◌==◌, Bool, true, false, if◌then◌else◌, Option, none, some, List, [], ◌∷◌, any, keep, map, ◌≡◌,
  refl, ◌∙◌, ap, arith, subst,
}
use pingcast.Prelude.Int.{ℤ}
use pingcast.Error.{ok}
use pingcast.Domain.User.{User}
use pingcast.Domain.Monitor.{Monitor}
use pingcast.Store.World.{World, Env, MonitorRow, publish_event}
use pingcast.Store.Exec.{◌>>=◌}
use pingcast.Store.Monitors.{is_active, list_active}
use pingcast.Store.Monitors.Keyed.{IsKeyed, find-absent}
use pingcast.Scheduler.{LeaderScheduler, new_leader_scheduler, add}
use pingcast.Scheduler.Events.{load, handle_all}
use pingcast.Scheduler.Mirror.{scheduled, wanted, of_row, scheduled-add}
use pingcast.Scheduler.Follows.{InSync}
use pingcast.Scheduler.Follows.Calls.{Call, called, called-InSync}

abbrev active : List MonitorRow → List Monitor
active rows = map (λ row. row.mon) (keep is_active rows)

abbrev or_else : Option ℤ → Option ℤ → Option ℤ
or_else none p = p
or_else (some i) p = some i

scheduled-load :
    (rows : List MonitorRow) (s : LeaderScheduler) (id : ℕ)
    → IsKeyed rows
    → scheduled id (load (active rows) s) ≡ or_else (wanted id rows) (scheduled id s)
unfolding load
scheduled-load [] s id k = refl
scheduled-load (row ∷ rows) s id (fresh, k) =
    by_active (is_active row) refl (scheduled-load rows (add row.mon s) id k)
      (scheduled-load rows s id k)
  where
    absent : row.mon.id ≡ id → wanted id rows ≡ none
    absent q =
        ap of_row (find-absent id rows (subst (λ i. any (λ r. r.mon.id == i) rows ≡ false) q fresh))

    by_active :
        (b : Bool)
        → is_active row ≡ b
        → scheduled id (load (active rows) (add row.mon s))
          ≡ or_else (wanted id rows) (scheduled id (add row.mon s))
        → scheduled id (load (active rows) s) ≡ or_else (wanted id rows) (scheduled id s)
        → scheduled id (
            load
              (map (λ row. row.mon) (if b then row ∷ keep is_active rows else keep is_active rows))
              s)
          ≡ or_else (wanted id (row ∷ rows)) (scheduled id s)
    by_active true e with_row without =
        ground (arith, e, absent, with_row, scheduled-add row.mon s id)
    by_active false e with_row without = ground (arith, e, absent, without)

-- The environment of a call, who makes it, and the call.
abbrev pub Step : Type 0
Step = Env × User × Call

abbrev pub after : List Step → World → World
after [] w = w
after ((env, user, c) ∷ steps) w = after steps (called env user c w)

-- The publisher works, and the database draws an identifier that no monitor has.
abbrev pub Works : Env → World → Type 0
Works env w =
    (env.has_events ≡ true)
    × (env.fault publish_event ≡ none)
    × (any (λ r. r.mon.id == env.new_id) w.db.monitors ≡ false)

abbrev pub AllWork : List Step → World → Type 0
AllWork [] w = Unit
AllWork ((env, user, c) ∷ steps) w = Works env w × AllWork steps (called env user c w)

after-InSync :
    (s : LeaderScheduler) (steps : List Step) (w : World)
    → InSync s w
    → AllWork steps w
    → InSync s (after steps w)
after-InSync s [] w sync works = sync
after-InSync s ((env, user, c) ∷ steps) w sync ((on, up, fresh), works) =
    after-InSync s steps (called env user c w) (called-InSync env on up user s w c sync fresh) works

list_active-ok :
    (env : Env) (w : World) (ms : List Monitor)
    → (list_active env w).0 ≡ ok ms
    → ms ≡ active w.db.monitors
unfolding list_active ◌>>=◌
list_active-ok env w ms h = ground arith

-- The scheduler does what the tables ask for: where no two rows of the monitors have the same
-- identifier, a scheduler that loads the active monitors and then handles the events of the stream in
-- their order has, after any calls of users that create, change, delete and pause monitors, exactly
-- the monitors to check that are neither paused nor deleted, with the intervals of their rows. The
-- publications of these calls must succeed, and new identifiers be new; any other call may fail.
pub started-InSync :
    (env : Env) (w : World) (ms : List Monitor) (steps : List Step) (id : ℕ)
    → (list_active env w).0 ≡ ok ms
    → w.events ≡ []
    → IsKeyed w.db.monitors
    → AllWork steps w
    → let w' = after steps w in
      scheduled id (handle_all w'.events (load ms new_leader_scheduler)) ≡ wanted id w'.db.monitors
unfolding handle_all new_leader_scheduler
started-InSync env w ms steps id listed empty k works =
    (after-InSync (load ms new_leader_scheduler) steps w (start, k) works).0 id
  where
    unwrapped : (p : Option ℤ) → or_else p none ≡ p
    unwrapped none = refl
    unwrapped (some i) = refl

    start :
        (i : ℕ)
        → scheduled i (handle_all w.events (load ms new_leader_scheduler)) ≡ wanted i w.db.monitors
    start i =
        ap (λ evs. scheduled i (handle_all evs (load ms new_leader_scheduler))) empty
        ∙ ap (λ l. scheduled i (load l new_leader_scheduler)) (list_active-ok env w ms listed)
        ∙ scheduled-load w.db.monitors new_leader_scheduler i k
        ∙ unwrapped (wanted i w.db.monitors)
