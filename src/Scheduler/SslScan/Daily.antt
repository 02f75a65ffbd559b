-- ===== src/Scheduler/SslScan/Daily.antt =====
-- How many alerts about its certificate a site gets when the scan runs each day.
use pingcast.Prelude.{
  ℕ, zero, suc, ◌+◌, ◌-◌, ◌*◌, ◌/◌, ◌≤◌, ◌<◌, ltb, ◌==◌, ==_refl, Bool, true, false, ◌&&◌,
  if◌then◌else◌, none, some, List, [], ◌∷◌, map, keep, count, Text, ◌≡◌, refl, sym, ◌∙◌, ap, arith,
  Bool-cases, inl, inr,
}
use pingcast.Prelude.Int.{pos}
use pingcast.Error.{ok}
use pingcast.Domain.Monitor.{AlertEventType, alert_down, alert_up, alert_ssl_expiring}
use pingcast.Store.World.{World, Env, list_ssl_monitors, publish_alert}
use pingcast.Store.Exec.{◌>>=◌}
use pingcast.Store.Monitors.Ssl.{ProHttpMonitor, is_scanned, scanned, list_pro_http}
use pingcast.Scheduler.Jobs.{Attempt, run_locked_loop}
use pingcast.Scheduler.SslScan.{
  Probes, days_until_expiry, extract_http_url, publish_expiring, skipped, probed, scan_one,
  scan_each, run_ssl_scan,
}

abbrev is_ssl : AlertEventType → Bool
is_ssl alert_down = false
is_ssl alert_up = false
is_ssl alert_ssl_expiring = true

-- The alerts about the certificate of a monitor.
abbrev pub alerts_for : ℕ → World → ℕ
alerts_for id w = count (λ a. a.monitor_id == id && is_ssl a.event) w.alerts

abbrev pub scanned_rows : World → List ProHttpMonitor
scanned_rows w = map scanned (keep (is_scanned w.db.users) w.db.monitors)

-- The ticks of so many days, at each of which the instance gets the lock.
abbrev each_day : Env → ℕ → List Attempt
each_day env zero = []
each_day env (suc n) = (env, ok tt) ∷ each_day (record env { now = env.now + 86400 }) n

-- The job of the scan over these ticks.
unfoldable pub daily : Env → Probes → ℕ → World → World
unfolding run_locked_loop
daily env p n w = run_locked_loop (λ e. run_ssl_scan e p) (each_day env n) w

-- How many of the thresholds 1, 7 and 14 are at most the number.
abbrev pub thresholds : ℕ → ℕ
thresholds n = (if ltb 0 n then 1 else 0) + (if ltb 6 n then 1 else 0) + (if ltb 13 n then 1 else 0)

scan_one-db :
    (env : Env) (p : Probes) (m : ProHttpMonitor) (w : World) → (scan_one env p m w).1.db ≡ w.db
unfolding scan_one extract_http_url publish_expiring days_until_expiry ◌>>=◌
scan_one-db env p m w = ground arith

scan_one-other :
    (env : Env) (p : Probes) (id : ℕ) (m : ProHttpMonitor) (w : World)
    → (m.id == id) ≡ false
    → alerts_for id (scan_one env p m w).1 ≡ alerts_for id w
unfolding scan_one extract_http_url publish_expiring days_until_expiry ◌>>=◌
scan_one-other env p id m w ne = ground (arith, ne)

not_earlier : (t now n : ℕ) → now + suc n * 86400 ≤ t → ltb t now ≡ false
not_earlier t now n lo = ground arith

quotient :
    (t now n : ℕ)
    → now + suc n * 86400 ≤ t
    → t < now + suc (suc n) * 86400
    → (t - now) / 86400 ≡ suc n
quotient t now n lo hi = omega arith

days_left :
    (t now n : ℕ)
    → now + suc n * 86400 ≤ t
    → t < now + suc (suc n) * 86400
    → days_until_expiry t now ≡ pos (suc n)
unfolding days_until_expiry
days_left t now n lo hi = rw (not_earlier t now n lo) (ap pos (quotient t now n lo hi))

abbrev due : ℕ → ℕ
due n = if skipped (pos n) then 0 else 1

thresholds-step : (n : ℕ) → thresholds n + due (suc n) ≡ thresholds (suc n)
thresholds-step n = ground arith

scan_one-due :
    (env : Env) (p : Probes) (m : ProHttpMonitor) (url : Text) (t n : ℕ) (w : World)
    → env.fault publish_alert ≡ none
    → extract_http_url p m.check_config ≡ some url
    → p.check_ssl_expiry url ≡ ok t
    → days_until_expiry t env.now ≡ pos n
    → alerts_for m.id (scan_one env p m w).1 ≡ due n + alerts_for m.id w
unfolding scan_one extract_http_url publish_expiring probed ◌>>=◌
scan_one-due env p m url t n w f u c d = rw (u, c, d, f) (ground (arith, ==_refl m.id))

abbrev pub is_of : ℕ → ProHttpMonitor → Bool
is_of id m = m.id == id

scan_each-db :
    (env : Env) (p : Probes) (ms : List ProHttpMonitor) (w : World)
    → (scan_each env p ms w).1.db ≡ w.db
unfolding scan_each ◌>>=◌
scan_each-db env p [] w = refl
scan_each-db env p (m ∷ ms) w =
    ground (arith, scan_one-db env p m w, scan_each-db env p ms ((scan_one env p m w).1))

scan_one-ok :
    (env : Env) (p : Probes) (m : ProHttpMonitor) (w : World) → (scan_one env p m w).0 ≡ ok tt
unfolding scan_one extract_http_url publish_expiring days_until_expiry ◌>>=◌
scan_one-ok env p m w = ground arith

scan_each-cons :
    (env : Env) (p : Probes) (m : ProHttpMonitor) (ms : List ProHttpMonitor) (w : World)
    → (scan_each env p (m ∷ ms) w).1 ≡ (scan_each env p ms ((scan_one env p m w).1)).1
unfolding scan_each ◌>>=◌
scan_each-cons env p m ms w = rw (scan_one-ok env p m w) refl

scan_each-absent :
    (env : Env) (p : Probes) (id : ℕ) (ms : List ProHttpMonitor) (w : World)
    → keep (is_of id) ms ≡ []
    → alerts_for id (scan_each env p ms w).1 ≡ alerts_for id w
unfolding scan_each ◌>>=◌
scan_each-absent env p id [] w h = refl
scan_each-absent env p id (m ∷ ms) w h = elim (Bool-cases (m.id == id)) [
  | inl e ↦ ground (arith, h, e)
  | inr e ↦
      ap (alerts_for id) (scan_each-cons env p m ms w)
      ∙ scan_each-absent env p id ms ((scan_one env p m w).1) (ground (arith, h, e))
      ∙ scan_one-other env p id m w e
]

module _ (env : Env) (p : Probes) (m : ProHttpMonitor) (url : Text) (t n : ℕ)
    (f : env.fault publish_alert ≡ none) (u : extract_http_url p m.check_config ≡ some url)
    (c : p.check_ssl_expiry url ≡ ok t) (d : days_until_expiry t env.now ≡ pos n) where
  scan_each-due :
      (ms : List ProHttpMonitor) (w : World)
      → keep (is_of m.id) ms ≡ m ∷ []
      → alerts_for m.id (scan_each env p ms w).1 ≡ due n + alerts_for m.id w
  unfolding scan_each ◌>>=◌
  scan_each-due [] w h = cc
  scan_each-due (x ∷ ms) w h = elim (Bool-cases (x.id == m.id)) [
    | inl e ↦
        ap (alerts_for m.id) (scan_each-cons env p x ms w)
        ∙ scan_each-absent env p m.id ms ((scan_one env p x w).1) (ground (arith, h, e))
        ∙ ap (λ y. alerts_for m.id (scan_one env p y w).1) (ground (arith, h, e))
        ∙ scan_one-due env p m url t n w f u c d
    | inr e ↦
        ap (alerts_for m.id) (scan_each-cons env p x ms w)
        ∙ scan_each-due ms ((scan_one env p x w).1) (ground (arith, h, e))
        ∙ ap (λ k. due n + k) (scan_one-other env p m.id x w e)
  ]

run_ssl_scan-each :
    (env : Env) (p : Probes) (w : World)
    → env.fault list_ssl_monitors ≡ none
    → (run_ssl_scan env p w).1 ≡ (scan_each env p (scanned_rows w) w).1
unfolding run_ssl_scan list_pro_http ◌>>=◌
run_ssl_scan-each env p w l = rw l refl

run_ssl_scan-due :
    (n : ℕ) (env : Env) (p : Probes) (m : ProHttpMonitor) (url : Text) (t : ℕ) (w : World)
    → env.fault list_ssl_monitors ≡ none
    → env.fault publish_alert ≡ none
    → keep (is_of m.id) (scanned_rows w) ≡ m ∷ []
    → extract_http_url p m.check_config ≡ some url
    → p.check_ssl_expiry url ≡ ok t
    → days_until_expiry t env.now ≡ pos n
    → alerts_for m.id (run_ssl_scan env p w).1 ≡ due n + alerts_for m.id w
run_ssl_scan-due n env p m url t w l f sole u c d =
    ap (alerts_for m.id) (run_ssl_scan-each env p w l)
    ∙ scan_each-due env p m url t n f u c d (scanned_rows w) w sole

run_ssl_scan-rows :
    (env : Env) (p : Probes) (w : World)
    → env.fault list_ssl_monitors ≡ none
    → scanned_rows (run_ssl_scan env p w).1 ≡ scanned_rows w
run_ssl_scan-rows env p w l =
    ap scanned_rows (run_ssl_scan-each env p w l)
    ∙ ap (λ db. map scanned (keep (is_scanned db.users) db.monitors))
        (scan_each-db env p (scanned_rows w) w)

zero_add : (k : ℕ) → 0 + k ≡ k
zero_add k = omega arith

regroup : (a b k c : ℕ) → a + b ≡ c → a + (b + k) ≡ c + k
regroup a b k c h = omega arith

-- The scan that runs each day, the first time when the certificate of a monitor has a number of whole
-- days left, and then that many times in all: when the monitor is listed once, its address has the
-- scheme `https`, each probe gives the same time of expiry, and the list is read and the alerts are
-- published without a failure, exactly one alert about the monitor is published for each of the
-- thresholds of 14, 7 and 1 days that are not more than the first number of days.
pub daily-thresholds :
    (n : ℕ) (env : Env) (p : Probes) (m : ProHttpMonitor) (url : Text) (t : ℕ) (w : World)
    → env.fault list_ssl_monitors ≡ none
    → env.fault publish_alert ≡ none
    → keep (is_of m.id) (scanned_rows w) ≡ m ∷ []
    → extract_http_url p m.check_config ≡ some url
    → p.check_ssl_expiry url ≡ ok t
    → env.now + n * 86400 ≤ t
    → t < env.now + suc n * 86400
    → alerts_for m.id (daily env p n w) ≡ thresholds n + alerts_for m.id w
unfolding daily run_locked_loop
daily-thresholds zero env p m url t w l f sole u c lo hi = sym (zero_add (alerts_for m.id w))
daily-thresholds (suc n) env p m url t w l f sole u c lo hi =
    let w' = (run_ssl_scan env p w).1 in
    daily-thresholds n (record env { now = env.now + 86400 }) p m url t w' l f
      (ap (keep (is_of m.id)) (run_ssl_scan-rows env p w l) ∙ sole) u c (omega arith) (omega arith)
    ∙ ap (λ k. thresholds n + k)
        (run_ssl_scan-due (suc n) env p m url t w l f sole u c (days_left t env.now n lo hi))
    ∙ regroup (thresholds n) (due (suc n)) (alerts_for m.id w) (thresholds (suc n))
        (thresholds-step n)

-- Two instances of the scheduler that scan one after the other, each with the lock while it scans: on
-- a day on which an alert is due, two are published.
pub instances-duplicate :
    (n : ℕ) (env env' : Env) (p : Probes) (m : ProHttpMonitor) (url : Text) (t : ℕ) (w : World)
    → env.fault list_ssl_monitors ≡ none
    → env.fault publish_alert ≡ none
    → env'.fault list_ssl_monitors ≡ none
    → env'.fault publish_alert ≡ none
    → keep (is_of m.id) (scanned_rows w) ≡ m ∷ []
    → extract_http_url p m.check_config ≡ some url
    → p.check_ssl_expiry url ≡ ok t
    → days_until_expiry t env.now ≡ pos n
    → days_until_expiry t env'.now ≡ pos n
    → skipped (pos n) ≡ false
    → alerts_for m.id (run_ssl_scan env' p (run_ssl_scan env p w).1).1 ≡ 2 + alerts_for m.id w
instances-duplicate n env env' p m url t w l f l' f' sole u c d d' is_due = ground (
  arith,
  is_due,
  run_ssl_scan-due n env p m url t w l f sole u c d,
  run_ssl_scan-due n env' p m url t ((run_ssl_scan env p w).1) l' f'
      (ap (keep (is_of m.id)) (run_ssl_scan-rows env p w l) ∙ sole) u c d',
)
