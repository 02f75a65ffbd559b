-- ===== src/Store/Certs.antt =====
-- internal/adapter/postgres/custom_domain_cert_repo.go, with the queries of custom_domain_certs.sql.
use pingcast.Prelude.{
  ℕ, ◌==◌, ltb, Bool, ◌&&◌, if◌then◌else◌, List, [], ◌∷◌, ◌++◌, map, keep, any, update_where, Text,
}
use pingcast.Error.{ok}
use pingcast.Domain.CustomDomain.{CustomDomain, is_active}
use pingcast.Store.World.{World, Env, CustomDomainCert}
use pingcast.Store.World
use pingcast.Store.Exec.{Exec, call}

abbrev pub is_for : ℕ → CustomDomainCert → Bool
is_for id c = c.custom_domain_id == id

-- `ON CONFLICT (custom_domain_id) DO UPDATE`.
abbrev pub upserted : CustomDomainCert → List CustomDomainCert → List CustomDomainCert
upserted c cs =
    if any (is_for c.custom_domain_id) cs
    then update_where (is_for c.custom_domain_id) (λ _. c) cs
    else c ∷ cs

unfoldable pub upsert : Env → CustomDomainCert → Exec (Unit {0})
upsert env c =
    call env World.Op.upsert_cert
      λ w. (ok tt, record w { db = record w.db { certs = upserted c w.db.certs } })

-- The hostnames of the active domains of a certificate.
abbrev pub hostnames_of : List CustomDomain → CustomDomainCert → List Text
hostnames_of ds c = map (λ d. d.hostname) (keep (λ d. d.id == c.custom_domain_id && is_active d) ds)

abbrev pub expiring : ℕ → List CustomDomain → List CustomDomainCert → List Text
expiring before ds [] = []
expiring before ds (c ∷ cs) =
    let rest = expiring before ds cs in
    if ltb c.expires_at before then hostnames_of ds c ++ rest else rest

unfoldable pub list_expiring_hostnames : Env → ℕ → Exec (List Text)
list_expiring_hostnames env before =
    call env World.Op.list_expiring λ w. (ok (expiring before w.db.domains w.db.certs), w)
