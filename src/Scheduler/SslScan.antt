-- ===== src/Scheduler/SslScan.antt =====
-- runSSLScan of internal/bootstrap/scheduler.go, with DaysUntilExpiry of
-- internal/adapter/checker/ssl_probe.go: the daily look at the certificates of monitored sites.
pub mod Daily
use pingcast.Prelude.{
  ℕ, ◌-◌, ◌/◌, ltb, zero, suc, Bool, not, ◌&&◌, if◌then◌else◌, Option, none, some, List, [], ◌∷◌,
  Text, codes, is_empty,
}
use pingcast.Prelude.Strings.{has_prefix}
use pingcast.Prelude.Int.{ℤ, pos, negsuc, eqb_ℤ}
use pingcast.Error.{Result, ok, err}
use pingcast.Domain.Monitor.{AlertEvent, alert_ssl_expiring}
use pingcast.Store.World.{World, Env}
use pingcast.Store.World
use pingcast.Store.Exec.{Exec, ◌>>=◌, ◌>>◌, pure, attempt, call}
use pingcast.Store.Monitors.Ssl.{ProHttpMonitor, list_pro_http}

-- The JSON library on a configuration (`none` for a syntax error, then the string under `url` if there
-- is one), the handshake of `CheckSSLExpiry`, which gives the time of expiry, and the text of the
-- cause.
pub record Probes : Type 0 where
  pub unmarshal_url : Text → Option (Option Text)
  pub check_ssl_expiry : Text → Result ℕ
  pub cause : Text → ℤ → ℕ → Text

abbrev negated : ℕ → ℤ
negated zero = pos 0
negated (suc n) = negsuc n

-- The conversion to `int` of a quotient, which is rounded towards zero.
unfoldable pub days_until_expiry : ℕ → ℕ → ℤ
days_until_expiry not_after now =
    if ltb not_after now
    then negated ((now - not_after) / 86400)
    else pos ((not_after - now) / 86400)

abbrev https_url : Option (Option Text) → Option Text
https_url none = none
https_url (some none) = none
https_url (some (some url)) =
    if is_empty url
    then none
    else if not (has_prefix url (codes "https://"))
    then none
    else some url

unfoldable pub extract_http_url : Probes → Text → Option Text
extract_http_url p config = https_url (p.unmarshal_url config)

unfoldable pub publish_expiring : Env → Probes → ProHttpMonitor → Text → ℤ → ℕ → Exec (Unit {0})
publish_expiring env p m url days not_after = call env World.Op.publish_alert λ w. (
  ok tt,
  record w {
    alerts =
        record {
          monitor_id = m.id;
          user_id = m.user_id;
          incident_id = 0;
          monitor_name = m.name;
          monitor_target = url;
          event = alert_ssl_expiring;
          cause = p.cause url days not_after;
        }
        ∷ w.alerts;
  },
)

abbrev pub skipped : ℤ → Bool
skipped days = not (eqb_ℤ days (pos 14)) && not (eqb_ℤ days (pos 7)) && not (eqb_ℤ days (pos 1))

abbrev pub probed : Env → Probes → ProHttpMonitor → Text → Result ℕ → Exec (Unit {0})
unfolding publish_expiring days_until_expiry
probed env p m url (err e) = pure tt
probed env p m url (ok not_after) =
    let days = days_until_expiry not_after env.now in
    if skipped days
    then pure tt
    else (attempt (publish_expiring env p m url days not_after) >> pure tt)

abbrev extracted : Env → Probes → ProHttpMonitor → Option Text → Exec (Unit {0})
extracted env p m none = pure tt
extracted env p m (some url) = probed env p m url (p.check_ssl_expiry url)

-- The body of the loop, every `continue` of which ends it.
unfoldable pub scan_one : Env → Probes → ProHttpMonitor → Exec (Unit {0})
unfolding extract_http_url
scan_one env p m = extracted env p m (extract_http_url p m.check_config)

unfoldable pub scan_each : Env → Probes → List ProHttpMonitor → Exec (Unit {0})
unfolding scan_one
scan_each env p [] = pure tt
scan_each env p (m ∷ ms) = scan_one env p m >> scan_each env p ms

abbrev scan_listed : Env → Probes → Result (List ProHttpMonitor) → Exec (Unit {0})
unfolding scan_each
scan_listed env p (err e) = pure tt
scan_listed env p (ok ms) = scan_each env p ms

unfoldable pub run_ssl_scan : Env → Probes → Exec (Unit {0})
unfolding scan_each
run_ssl_scan env p = attempt (list_pro_http env) >>= scan_listed env p
