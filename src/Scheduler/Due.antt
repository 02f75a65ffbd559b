-- ===== src/Scheduler/Due.antt =====
-- The loop over the entries.
use pingcast.Prelude.{List, [], ◌∷◌, keep, map, ◌≡◌, refl, arith}
use pingcast.Scheduler.{ScheduledMonitor, Tick, dispatch_due_checks, goes_out, ticked}

-- The loop as a filter.
pub dispatch_due_checks_lem :
    (t : Tick) (sms : List ScheduledMonitor)
    → dispatch_due_checks t sms
      ≡ (map (ticked t) sms, map (λ sm. sm.monitor.id) (keep (goes_out t) sms))
unfolding dispatch_due_checks
dispatch_due_checks_lem t [] = refl
dispatch_due_checks_lem t (sm ∷ sms) = ground (arith, dispatch_due_checks_lem t sms)
