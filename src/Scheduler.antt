-- ===== src/Scheduler.antt =====
-- internal/adapter/checker/leader_scheduler.go: the scheduler that publishes the checks which are due,
-- on the instance that holds the lock. The lock and the publisher are services: what they answer in a
-- tick is part of the tick. The map from identifiers to monitors is a list with one entry for each;
-- the entries do not depend on each other, so the order in which they are visited is that of the
-- list.
pub mod Due
pub mod Events
pub mod Mirror
pub mod Follows
pub mod Spacing
pub mod Once
pub mod SslScan
pub mod Jobs
use pingcast.Prelude.{
  ℕ, ◌+◌, ltb, ◌==◌, Bool, true, false, not, ◌&&◌, ◌||◌, if◌then◌else◌, Option, none, some, List,
  [], ◌∷◌, ◌++◌, keep, length,
}
use pingcast.Prelude.Int.{pos_part, neg_part}
use pingcast.Error.{Error, Result, ok, err}
use pingcast.Domain.Monitor.{Monitor}

-- A time that is zero is `none`: it is further away than any interval.
pub record ScheduledMonitor : Type 0 where
  pub monitor : Monitor
  pub last_tick : Option ℕ

-- The scheduler, and the checks that were published, the first one first, with their times.
pub record LeaderScheduler : Type 0 where
  pub monitors : List ScheduledMonitor
  pub is_leader : Bool
  pub stopped : Bool
  pub published : List (ℕ × ℕ)

-- One tick of the loop: the time, what `Lock` and `Extend` return, and which publications fail.
pub record Tick : Type 0 where
  pub now : ℕ
  pub lock : Result (Unit {0})
  pub extend : Result Bool
  pub publish : ℕ → Option Error

unfoldable pub new_leader_scheduler : LeaderScheduler
new_leader_scheduler = record { monitors = []; is_leader = false; stopped = false; published = [] }

abbrev pub is_for : ℕ → ScheduledMonitor → Bool
is_for id sm = sm.monitor.id == id

unfoldable pub remove : ℕ → LeaderScheduler → LeaderScheduler
remove id s = record s { monitors = keep (λ sm. not (is_for id sm)) s.monitors }

-- The entry of the monitor is replaced, and with it the time of its last check.
unfoldable pub add : Monitor → LeaderScheduler → LeaderScheduler
add m s = record s {
  monitors =
      record { monitor = m; last_tick = none } ∷ keep (λ sm. not (is_for m.id sm)) s.monitors;
}

abbrev before : ℕ → Monitor → Option ℕ → Bool
before now m none = false
before now m (some last) =
    ltb (now + neg_part m.interval_seconds) (last + pos_part m.interval_seconds)

-- The monitor is not skipped: it is not paused, and the interval has passed.
abbrev pub is_due : ℕ → ScheduledMonitor → Bool
is_due now sm = not sm.monitor.is_paused && not (before now sm.monitor sm.last_tick)

abbrev succeeded : Option Error → Bool
succeeded none = true
succeeded (some e) = false

-- The check of the monitor is published in the tick.
abbrev pub goes_out : Tick → ScheduledMonitor → Bool
goes_out t sm = is_due t.now sm && succeeded (t.publish sm.monitor.id)

abbrev pub ticked : Tick → ScheduledMonitor → ScheduledMonitor
ticked t sm = if goes_out t sm then record sm { last_tick = some t.now } else sm

-- The loop over the map: the entries after it, and the identifiers that were published.
unfoldable pub dispatch_due_checks : Tick → List ScheduledMonitor → List ScheduledMonitor × List ℕ
dispatch_due_checks t [] = ([], [])
dispatch_due_checks t (sm ∷ sms) =
    let (sms', ids) = dispatch_due_checks t sms in
    (ticked t sm ∷ sms', if goes_out t sm then sm.monitor.id ∷ ids else ids)

-- The publications of one loop with their time.
abbrev pub stamped : ℕ → List ℕ → List (ℕ × ℕ)
stamped now [] = []
stamped now (id ∷ ids) = (id, now) ∷ stamped now ids

abbrev dispatched : Tick → LeaderScheduler → LeaderScheduler
dispatched t s =
    let (sms, ids) = dispatch_due_checks t s.monitors in
    record s { monitors = sms; published = s.published ++ stamped t.now ids }

unfoldable pub try_acquire_leadership : Tick → LeaderScheduler → LeaderScheduler
try_acquire_leadership t s = elim t.lock [ ok u ↦ record s { is_leader = true } | err e ↦ s ]

abbrev pub is_extended : Result Bool → Bool
is_extended (ok b) = b
is_extended (err e) = false

-- The body of the loop of `Run`, which ends when the scheduler was stopped.
unfoldable pub tick : Tick → LeaderScheduler → LeaderScheduler
unfolding dispatch_due_checks try_acquire_leadership
tick t s =
    if s.stopped
    then s
    else if not s.is_leader
    then try_acquire_leadership t s
    else if not (is_extended t.extend)
    then record s { is_leader = false }
    else dispatched t s

-- `DispatchAll` stops at the first publication that fails: the identifiers that went out.
unfoldable pub dispatch_all :
    (ℕ → Option Error) → List ScheduledMonitor → Result (Unit {0}) × List ℕ
dispatch_all publish [] = (ok tt, [])
dispatch_all publish (sm ∷ sms) =
    let (r, ids) = dispatch_all publish sms in
    if sm.monitor.is_paused
    then (r, ids)
    else elim (publish sm.monitor.id) [ none ↦ (r, sm.monitor.id ∷ ids) | some e ↦ (err e, []) ]

unfoldable pub stop : LeaderScheduler → LeaderScheduler
stop s = record s { is_leader = false; stopped = true }
