-- ===== src/Examples/Traces.antt =====
-- The theorems about sequences of calls and about the count of failures, on the sample tables.
use pingcast.Prelude.{List, [], ◌∷◌, ◌≡◌, refl, arith, codes}
use pingcast.Domain.Monitor.{up, down}
use pingcast.Domain.Incident.{valid, identified}
use pingcast.Store.Checks.{count_failures}
use pingcast.Store.Checks.Failures.{count_failures_lem, downs_first}
use pingcast.Store.Incidents.Consistency.{Consistent}
use pingcast.Monitoring.Traces.{Call, after_all, after_all-Consistent, process, change_state, pause}
use pingcast.Store.World.{Env}
use pingcast.Examples.Data.{env, ann, site, result, broken}

broken-Consistent : Consistent broken
unfolding valid
broken-Consistent = record {
  one_open = λ m. ground arith;
  unique = λ k. ground arith;
  handed_out = (omega arith, tt);
  agree = ((refl, refl), tt);
}

abbrev calls : List (Env × Call)
calls =
    (env, process site (result down 7100))
    ∷ (
      env,
      change_state (record {
        incident_id = 3;
        user_id = 1;
        new_state = identified;
        update_body = codes "found it";
      }),
    )
    ∷ (env, pause ann 7)
    ∷ []

after_all-Consistent_example : Consistent (after_all calls broken)
after_all-Consistent_example = after_all-Consistent calls broken broken-Consistent

count_failures_lem_example :
    count_failures 7 (result down 30 ∷ result down 20 ∷ result up 10 ∷ [])
    ≡ downs_first 7 (result down 30 ∷ result down 20 ∷ result up 10 ∷ [])
count_failures_lem_example =
    count_failures_lem 7 (result down 30 ∷ result down 20 ∷ result up 10 ∷ [])
