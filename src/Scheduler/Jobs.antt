-- ===== src/Scheduler/Jobs.antt =====
-- runLockedLoop of internal/bootstrap/scheduler.go: a job that runs at each tick at which this instance
-- gets the lock.
use pingcast.Prelude.{List, [], ◌∷◌}
use pingcast.Error.{Result, ok, err}
use pingcast.Store.World.{World, Env}
use pingcast.Store.Exec.{Exec}

-- A tick: its environment, and what the lock answers.
abbrev pub Attempt : Type 0
Attempt = Env × Result (Unit {0})

-- The ticks until the context is done. The lock is released after the work; an error of that is logged.
unfoldable pub run_locked_loop : (Env → Exec (Unit {0})) → List Attempt → World → World
run_locked_loop work [] w = w
run_locked_loop work ((env, ok locked) ∷ ts) w = run_locked_loop work ts ((work env w).1)
run_locked_loop work ((env, err e) ∷ ts) w = run_locked_loop work ts w
