-- ===== src/CustomDomains.antt =====
-- internal/app/custom_domain.go: a hostname from the request to its certificate.
pub mod Worker
pub mod Progress
pub mod Guards
pub mod Renewal
use pingcast.Prelude.{
  ℕ, Bool, Option, none, some, if◌then◌else◌, List, ◌∷◌, find, Text, text_eq, trim_space,
}
use pingcast.Error.{Error, Result, ok, err}
use pingcast.Domain.CustomDomain.{CustomDomain}
use pingcast.Store.World.{World, Env}
use pingcast.Store.Exec.{Exec, ◌>>=◌, ◌>>◌, pure, check}
use pingcast.Store.Domains
use pingcast.CustomDomains.Worker.{refresh_hostname_cache}

-- The random token, `strings.ToLower` and the checks of the hostname, which rest on a parser of IP
-- addresses and a regular expression, are arguments.
unfoldable pub request_domain :
    Env → (Text → Text) → (Text → Option Error) → Result Text → ℕ → Text → Exec CustomDomain
request_domain env to_lower validate_hostname token user_id raw =
    let hostname = to_lower (trim_space raw) in
    do
      check (validate_hostname hostname)
      t ← (λ w. (token, w))
      Domains.create env user_id hostname t

unfoldable pub list_domains : Env → ℕ → Exec (List CustomDomain)
list_domains env user_id = Domains.list_by_user_id env user_id

unfoldable pub delete_domain : Env → ℕ → ℕ → Exec (Unit {0})
delete_domain env id user_id = do Domains.delete env id user_id; refresh_hostname_cache env

-- The hostname comes in lower case.
unfoldable pub lookup_hostname : Text → World → Option ℕ
lookup_hostname hostname w = elim (find (λ p. text_eq p.0 hostname) w.hostname_cache) [
  | none ↦ none
  | some p ↦ some p.1
]
