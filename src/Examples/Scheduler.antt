-- ===== src/Examples/Scheduler.antt =====
-- The theorem about the spacing of checks, on a sample scheduler.
use pingcast.Prelude.{ℕ, none, true, false, List, [], ◌∷◌, ◌++◌, ◌≡◌, refl, arith}
use pingcast.Error.{ok}
use pingcast.Scheduler.{
  LeaderScheduler, ScheduledMonitor, Tick, add, remove, new_leader_scheduler, goes_out, tick,
}
use pingcast.Scheduler.Once.{Adds, tick-Adds}
use pingcast.Scheduler.Spacing.{ticks, times_of}
use pingcast.Scheduler
use pingcast.Examples.Data.{site}

abbrev at : ℕ → Tick
at now = record { now = now; lock = ok tt; extend = ok true; publish = λ id. none }

abbrev entry : ScheduledMonitor
entry = record { monitor = site; last_tick = none }

abbrev leading : LeaderScheduler
leading = record { monitors = entry ∷ []; is_leader = true; stopped = false; published = [] }

-- The interval is 300 seconds.
runs : (ticks (at 1000 ∷ at 1001 ∷ at 1300 ∷ []) leading).published ≡ (7, 1000) ∷ (7, 1300) ∷ []
unfolding tick Scheduler.dispatch_due_checks
runs = refl

tick-Adds_example :
    (new : List (ℕ × ℕ)) × ((tick (at 1000) leading).published ≡ [] ++ new)
    × Adds (at 1000) leading entry (times_of 7 new)
tick-Adds_example = tick-Adds 7 (at 1000) leading entry (ground arith) refl
