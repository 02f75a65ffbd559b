-- ===== src/Scheduler/Once.antt =====
-- Whose check a tick publishes.
use pingcast.Prelude.{
  ℕ, ◌≤◌, Option, true, false, not, ◌&&◌, none, some, List, [], ◌∷◌, ◌++◌, count, find, ◌≡◌, refl,
  sym, ◌∙◌, arith, Bool-cases, ◌⊎◌, inl, inr,
}
use mathlib.Core.List.{append-nil}
use pingcast.Error.{ok}
use pingcast.Domain.Monitor.{Monitor}
use pingcast.Scheduler.{
  LeaderScheduler, ScheduledMonitor, Tick, tick, goes_out, is_extended, is_for, is_due,
  try_acquire_leadership,
}
use pingcast.Scheduler.Due.{dispatch_due_checks_lem}
use pingcast.Scheduler.Spacing.{times_of, Apart, goes_out-Apart, sent, sent-one}

-- The instance leads, and keeps the lock.
pub record Leads (t : Tick) (s : LeaderScheduler) : Type 0 where
  pub running : s.stopped ≡ false
  pub leading : s.is_leader ≡ true
  pub kept : t.extend ≡ ok true

-- The monitor is active, its interval has passed, and the stream takes the check.
pub record Runs (t : Tick) (sm : ScheduledMonitor) : Type 0 where
  pub active : sm.monitor.is_paused ≡ false
  pub apart : Apart sm.monitor sm.last_tick t.now
  pub taken : t.publish sm.monitor.id ≡ none

Apart-due :
    (now : ℕ) (m : Monitor) (last : Option ℕ)
    → m.is_paused ≡ false
    → Apart m last now
    → is_due now (record { monitor = m; last_tick = last }) ≡ true
Apart-due now m none p a = ground (arith, p)
Apart-due now m (some l) p a = ground (arith, p, a)

goes_out-Runs : (t : Tick) (sm : ScheduledMonitor) → goes_out t sm ≡ true → Runs t sm
goes_out-Runs t sm h = record {
  active = ground (arith, h);
  apart = goes_out-Apart t sm.monitor sm.last_tick h;
  taken = ground (arith, h);
}

Runs-goes_out : (t : Tick) (sm : ScheduledMonitor) → Runs t sm → goes_out t sm ≡ true
Runs-goes_out t sm r =
    ground (arith, r.taken, Apart-due t.now sm.monitor sm.last_tick r.active r.apart)

led :
    (t : Tick) (s : LeaderScheduler)
    → Leads t s
    → (tick t s).published ≡ s.published ++ sent t s.monitors
unfolding tick
led t s l = ground (arith, l.running, l.leading, l.kept, dispatch_due_checks_lem t s.monitors)

idle :
    (t : Tick) (s : LeaderScheduler)
    → (not s.stopped && s.is_leader && is_extended t.extend) ≡ false
    → (tick t s).published ≡ s.published
unfolding tick try_acquire_leadership
idle t s n = ground (arith, n)

leads :
    (t : Tick) (s : LeaderScheduler)
    → (not s.stopped && s.is_leader && is_extended t.extend) ≡ true
    → Leads t s
leads t s h = record {
  running = ground (arith, h);
  leading = ground (arith, h);
  kept = ground (arith, h);
}

-- What a tick adds to the checks of a monitor.
abbrev pub Adds : Tick → LeaderScheduler → ScheduledMonitor → List ℕ → Type 0
Adds t s sm times =
    ((times ≡ []) ⊎ ((times ≡ t.now ∷ []) × Leads t s × Runs t sm))
    × (Leads t s → Runs t sm → times ≡ t.now ∷ [])

-- A tick publishes the check of a monitor once if the instance is the leader, is not stopped and could
-- extend the lock, the monitor is not paused, its interval has passed since the last tick of its
-- entry, and the publication succeeds; in every other case it does not publish it. The entry is the
-- only one of the monitor.
pub tick-Adds :
    (id : ℕ) (t : Tick) (s : LeaderScheduler) (sm : ScheduledMonitor)
    → count (is_for id) s.monitors ≤ 1
    → find (is_for id) s.monitors ≡ some sm
    → (new : List (ℕ × ℕ)) × ((tick t s).published ≡ s.published ++ new)
      × Adds t s sm (times_of id new)
tick-Adds id t s sm u h = elim (Bool-cases (not s.stopped && s.is_leader && is_extended t.extend)) [
  | inl e ↦ (
    sent t s.monitors,
    led t s (leads t s e),
    elim (Bool-cases (goes_out t sm)) [
      | inl g ↦
          let once : times_of id (sent t s.monitors) ≡ t.now ∷ [] =
            sent-one id t s.monitors sm u h ∙ rw g refl in
          (inr (once, leads t s e, goes_out-Runs t sm g), λ l r. once)
      | inr g ↦ (
        inl (sent-one id t s.monitors sm u h ∙ rw g refl),
        λ l r. absurd (ground (arith, g, Runs-goes_out t sm r)),
      )
    ],
  )
  | inr e ↦ (
    [],
    idle t s e ∙ sym (append-nil s.published),
    (inl refl, λ l r. absurd (ground (arith, e, l.running, l.leading, l.kept))),
  )
]
