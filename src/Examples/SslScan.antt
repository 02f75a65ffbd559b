-- ===== src/Examples/SslScan.antt =====
-- The theorem about the daily scan of certificates, on a sample table.
use pingcast.Prelude.{none, some, false, [], ◌∷◌, codes, ◌≡◌, refl, arith}
use pingcast.Error.{ok}
use pingcast.Domain.User.{pro}
use pingcast.Store.World.{World, UserRow}
use pingcast.Store.Monitors.Ssl.{scanned}
use pingcast.Scheduler.SslScan.{Probes, extract_http_url}
use pingcast.Scheduler.SslScan.Daily.{alerts_for, daily, daily-thresholds}
use pingcast.Examples.Data.{env, ann, row, failing}

abbrev owner : UserRow
owner = record {
  user = record ann { plan = pro };
  password_hash = [];
  customer_id = none;
  subscription_id = none;
  variant = none;
  branding = record { logo_url = none; accent_color = none; custom_footer_text = none };
  deleted = false;
}

abbrev watched : World
watched = record failing { db = record failing.db { users = owner ∷ [] } }

-- Every certificate expires after fifteen days and some seconds.
abbrev probes : Probes
probes = record {
  unmarshal_url = λ config. some (some (codes "https://example.org"));
  check_ssl_expiry = λ url. ok 1303300;
  cause = λ url days not_after. codes "TLS certificate expires";
}

daily-thresholds_example : alerts_for 7 (daily env probes 15 watched) ≡ 3
unfolding extract_http_url
daily-thresholds_example =
    daily-thresholds 15 env probes (scanned row) (codes "https://example.org") 1303300 watched refl
      refl refl refl refl (ground arith) (ground arith)
