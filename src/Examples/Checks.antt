-- ===== src/Examples/Checks.antt =====
-- The theorems about check results, on the sample tables.
use pingcast.Prelude.{[], ◌∷◌, arith, true, any, ◌≡◌, refl}
use pingcast.Error.{ok, err, foreign}
use pingcast.Domain.Monitor.{up, down}
use pingcast.Store.Checks.{count_failures, insert_desc}
use pingcast.Store.Incidents.{is_open_for}
use pingcast.Domain.Monitor.{active_at}
use pingcast.Monitoring.Checks.{process_check_result}
use pingcast.Monitoring.Checks.Decision.{process-expected, quiet, expected}
use pingcast.Monitoring.Checks.Silence.{process_silent, alert_lost, mute}
use pingcast.Monitoring.Checks.Outage.{Noticed, process_all, process_all-Noticed}
use pingcast.Store.World.{World}
use pingcast.Examples.Data.{env, site, row, result, failing, broken}

abbrev healthy : World
healthy = record failing { db = record failing.db { check_results = result up 7000 ∷ [] } }

process-expected_example :
    process_check_result (quiet env) site (result down 7100) failing
    ≡ (ok tt, expected env site (result down 7100) up failing)
process-expected_example = process-expected env site (result down 7100) failing row refl

process_silent_example :
    ((process_check_result env site (result down 7100) broken).1.db.incidents ≡ broken.db.incidents)
    × ((process_check_result env site (result down 7100) broken).1.alerts ≡ broken.alerts)
process_silent_example = process_silent env site (result down 7100) broken refl refl

alert_lost_example :
    let (outcome, w) =
      process_check_result (mute env "no connection") site (result down 7100) failing in
    (outcome ≡ err (foreign "no connection"))
    × (any (is_open_for site.id) w.db.incidents ≡ true)
    × ((process_check_result env site (result down 7200) w).1.alerts ≡ failing.alerts)
unfolding count_failures insert_desc active_at
alert_lost_example =
    alert_lost env site (result down 7100) failing row "no connection" env (result down 7200) refl
      refl refl refl

process_all-Noticed_example :
    Noticed site (process_all site ((env, result down 7100) ∷ (env, result down 7200) ∷ []) healthy)
unfolding active_at
process_all-Noticed_example =
    process_all-Noticed site healthy row 7000 (env, result down 7100) ((env, result down 7200) ∷ [])
      refl (ground arith, tt) (λ o. absurd (ground (arith, o)))
      (refl, refl, ground arith, refl, refl, (refl, refl, ground arith, refl, refl, tt))
      (ground arith)
