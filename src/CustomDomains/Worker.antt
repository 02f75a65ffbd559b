-- ===== src/CustomDomains/Worker.antt =====
-- internal/app/custom_domain.go: `RunValidationOnce`. The probe of a hostname and the issue of its
-- certificate are outside calls, and arguments.
use pingcast.Prelude.{
  ℕ, ◌==◌, String, Bool, true, false, not, ◌||◌, if◌then◌else◌, Option, none, some, List, [], ◌∷◌,
  Text, text_eq, trim_space,
}
use pingcast.Error.{Error, Result, ok, err}
use pingcast.Domain.CustomDomain.{
  CustomDomain, CustomDomainStatus, pending, validated, active, failed,
}
use pingcast.Store.World.{Env}
use pingcast.Store.Exec.{Exec, ◌>>=◌, ◌>>◌, pure, attempt}
use pingcast.Store.Domains

-- What a probe ends in: an error on the way, or the code and at most 1024 bytes of the body.
pub data Answer : Type 0 where
  no_answer : String → Answer
  answer : ℕ → Text → Answer

pub record Network : Type 0 where
  pub probe : Text → Text → Answer
  pub provision : Text → Option Error

-- An error of the query is logged.
abbrev cached : Result (List (Text × ℕ)) → Exec (Unit {0})
cached (ok hosts) w = (ok tt, record w { hostname_cache = hosts })
cached (err e) w = (ok tt, w)

unfoldable pub refresh_hostname_cache : Env → Exec (Unit {0})
refresh_hostname_cache env = do hosts ← attempt (Domains.list_active_hostnames env); cached hosts

unfoldable pub mark_failed : Env → ℕ → String → Exec (Unit {0})
mark_failed env id reason = do
  attempt (Domains.update_status env id failed (some reason) none none)
  pure tt

abbrev pub judged : Env → CustomDomain → Answer → Exec (Unit {0})
judged env d (no_answer reason) = mark_failed env d.id reason
judged env d (answer status body) =
    if not (status == 200)
    then mark_failed env d.id "probe %s: HTTP %d (want 200)"
    else if not (text_eq (trim_space body) d.validation_token)
    then mark_failed env d.id "probe body did not match validation token"
    else (do attempt (Domains.update_status env d.id validated none (some env.now) none); pure tt)

unfoldable pub validate_dns : Env → Network → CustomDomain → Exec (Unit {0})
validate_dns env net d = judged env d (net.probe d.hostname d.validation_token)

abbrev is_ok : Result (Unit {0}) → Bool
is_ok (ok u) = true
is_ok (err e) = false

abbrev pub issued : Env → CustomDomain → Option Error → Exec Bool
issued env d (some e) = do mark_failed env d.id "acme: %v"; pure false
issued env d none = do
  r ← attempt (Domains.update_status env d.id active none none (some env.now))
  pure (is_ok r)

unfoldable pub provision_cert : Env → Network → CustomDomain → Exec Bool
provision_cert env net d = issued env d (net.provision d.hostname)

-- One row of the batch: whether it became active.
abbrev pub advanced : Env → Network → CustomDomain → CustomDomainStatus → Exec Bool
advanced env net d pending = do validate_dns env net d; pure false
advanced env net d failed = do validate_dns env net d; pure false
advanced env net d validated = provision_cert env net d
advanced env net d active = pure false

unfoldable pub advance_all : Env → Network → List CustomDomain → Exec Bool
advance_all env net [] = pure false
advance_all env net (d ∷ ds) = do
  a ← advanced env net d d.status
  b ← advance_all env net ds
  pure (a || b)

abbrev pub batch : Env → Network → Result (List CustomDomain) → Exec (Unit {0})
batch env net (err e) = pure tt
batch env net (ok ds) = do
  activated ← advance_all env net ds
  if activated then refresh_hostname_cache env else pure tt

unfoldable pub run_validation_once : Env → Network → Exec (Unit {0})
run_validation_once env net = do rows ← attempt (Domains.list_not_active env); batch env net rows
