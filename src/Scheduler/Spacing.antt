-- ===== src/Scheduler/Spacing.antt =====
-- How far apart the checks of a monitor are.
use pingcast.Prelude.{
  ℕ, ◌+◌, ◌≤◌, ◌==◌, true, if◌then◌else◌, Option, none, some, List, [], ◌∷◌, keep, map, count, find,
  ◌≡◌, refl, arith, Bool-cases, inl, inr,
}
use pingcast.Prelude.Int.{pos_part, neg_part}
use pingcast.Domain.Monitor.{Monitor}
use pingcast.Scheduler.{LeaderScheduler, ScheduledMonitor, Tick, tick, goes_out, stamped, is_for}

-- The ticks of the loop, one after the other.
abbrev pub ticks : List Tick → LeaderScheduler → LeaderScheduler
ticks [] s = s
ticks (t ∷ ts) s = ticks ts (tick t s)

-- When the check of the monitor was published.
abbrev pub times_of : ℕ → List (ℕ × ℕ) → List ℕ
times_of id [] = []
times_of id (p ∷ ps) = let rest = times_of id ps in if p.0 == id then p.1 ∷ rest else rest

-- The interval of the monitor has passed since the last check.
abbrev pub Apart : Monitor → Option ℕ → ℕ → Type 0
Apart m none t = Unit
Apart m (some last) t = last + pos_part m.interval_seconds ≤ t + neg_part m.interval_seconds

-- Each time is the interval of the monitor away from the one before it.
abbrev pub Spaced : Monitor → Option ℕ → List ℕ → Type 0
Spaced m last [] = Unit
Spaced m last (t ∷ ts) = Apart m last t × Spaced m (some t) ts

pub goes_out-Apart :
    (t : Tick) (m : Monitor) (last : Option ℕ)
    → goes_out t (record { monitor = m; last_tick = last }) ≡ true
    → Apart m last t.now
goes_out-Apart t m none h = tt
goes_out-Apart t m (some l) h = ground arith

abbrev pub sent : Tick → List ScheduledMonitor → List (ℕ × ℕ)
sent t sms = stamped t.now (map (λ sm. sm.monitor.id) (keep (goes_out t) sms))

module _ (id : ℕ) (t : Tick) where
  sent-none :
      (sms : List ScheduledMonitor) → count (is_for id) sms ≡ 0 → times_of id (sent t sms) ≡ []
  sent-none [] h = refl
  sent-none (sm ∷ sms) h = ground (arith, sent-none sms)

  pub sent-one :
      (sms : List ScheduledMonitor) (sm : ScheduledMonitor)
      → count (is_for id) sms ≤ 1
      → find (is_for id) sms ≡ some sm
      → times_of id (sent t sms) ≡ (if goes_out t sm then t.now ∷ [] else [])
  sent-one [] sm u h = cc
  sent-one (x ∷ sms) sm u h = elim (Bool-cases (is_for id x)) [
    | inl e ↦ ground (arith, sent-none sms)
    | inr e ↦ ground (arith, sent-one sms sm)
  ]
