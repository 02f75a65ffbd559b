-- ===== src/CustomDomains/Renewal.antt =====
-- internal/adapter/acme/lego_provisioner.go and RunRenewalsOnce of internal/app/custom_domain.go: certificates
-- that are issued, stored, and issued again before they expire.
pub mod Fresh
use pingcast.Prelude.{ℕ, ◌+◌, Option, none, some, List, [], ◌∷◌, Text}
use pingcast.Error.{Error, Result, errorf, ok, err}
use pingcast.Domain.CustomDomain.{CustomDomain}
use pingcast.Store.World.{World, Env}
use pingcast.Store.Exec.{Exec, ◌>>=◌, ◌>>◌, pure, attempt, wrapping}
use pingcast.Store.Domains
use pingcast.Store.Certs
use pingcast.Accounts.Auth.{given}

-- What the certificate authority sends, in the PEM format.
pub record Resource : Type 0 where
  pub certificate : Text
  pub private_key : Text
  pub issuer_certificate : Text

-- The client of the ACME library, and the decoder and the parser of certificates.
pub record Authority : Type 0 where
  pub obtain : Text → Result Resource
  pub decode : Text → Option Text
  pub parse_certificate : Text → Result ℕ

abbrev parsed : Authority → Option Text → Result ℕ
parsed ca none = err (errorf "no PEM block found in certificate")
parsed ca (some block) = ca.parse_certificate block

-- The time after which the certificate is not valid.
unfoldable pub parse_cert_expiry : Authority → Text → Result ℕ
parse_cert_expiry ca pem = parsed ca (ca.decode pem)

unfoldable pub provision : Env → Authority → Text → Exec (Unit {0})
provision env ca hostname = do
  domain ← wrapping "lookup domain %q: %w" (Domains.get_by_hostname env hostname)
  res ← wrapping "obtain cert for %q: %w" (given (ca.obtain hostname))
  expires ← wrapping "parse cert expiry: %w" (given (parse_cert_expiry ca res.certificate))
  wrapping "store cert for %q: %w" (
      Certs.upsert env (record {
        custom_domain_id = domain.id;
        cert_pem = res.certificate;
        key_pem = res.private_key;
        chain_pem = res.issuer_certificate;
        expires_at = expires;
      }))

-- Thirty days.
abbrev pub renewal_window : ℕ
renewal_window = 2592000

-- The loop: an error of one hostname is logged.
unfoldable pub renew_each : Env → Authority → List Text → Exec (Unit {0})
unfolding provision
renew_each env ca [] = pure tt
renew_each env ca (h ∷ hs) = attempt (provision env ca h) >> renew_each env ca hs

abbrev renew_listed : Env → Authority → Result (List Text) → Exec (Unit {0})
unfolding renew_each
renew_listed env ca (err e) = pure tt
renew_listed env ca (ok hs) = renew_each env ca hs

-- The table of certificates is wired, as in the processes.
unfoldable pub run_renewals_once : Env → Authority → Exec (Unit {0})
unfolding renew_each
run_renewals_once env ca =
    attempt (Certs.list_expiring_hostnames env (env.now + renewal_window)) >>= renew_listed env ca
