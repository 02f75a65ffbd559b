-- ===== src/Store/Domains.antt =====
-- internal/adapter/postgres/custom_domain_repo.go, with the queries of custom_domains.sql. The
-- column `hostname` is unique.
use pingcast.Prelude.{
  ℕ, suc, zero, ◌==◌, Bool, not, ◌&&◌, if◌then◌else◌, Option, none, some, String, List, [], ◌∷◌,
  ◌++◌, map, keep, any, find, update_where, Text, text_eq,
}
use pingcast.Error.{Result, foreign, ok, err}
use pingcast.Domain.CustomDomain.{CustomDomain, CustomDomainStatus, pending, is_active}
use pingcast.Store.World
use pingcast.Store.World.{
  World, CustomDomainCert, Env, create_domain, list_pending, list_active, delete_domain,
  update_domain,
}
use pingcast.Store.Exec.{Exec, call}

abbrev pub new_domain : ℕ → ℕ → ℕ → Text → Text → CustomDomain
new_domain id now user_id hostname token = record {
  id = id;
  user_id = user_id;
  hostname = hostname;
  validation_token = token;
  status = pending;
  last_error = none;
  dns_validated_at = none;
  cert_issued_at = none;
  created_at = now;
}

unfoldable pub create : Env → ℕ → Text → Text → Exec CustomDomain
create env user_id hostname token = call env create_domain λ w.
    if any (λ d. text_eq d.hostname hostname) w.db.domains
    then (err (foreign "duplicate key value violates unique constraint"), w)
    else (let d = new_domain w.db.next_domain env.now user_id hostname token in
        (
          ok d,
          record w {
            db = record w.db { domains = d ∷ w.db.domains; next_domain = suc w.db.next_domain };
          },
        ))

abbrev pub oldest_first : List CustomDomain → List CustomDomain
oldest_first [] = []
oldest_first (d ∷ ds) = oldest_first ds ++ (d ∷ [])

-- `LIMIT n`.
abbrev pub limit : ℕ → List CustomDomain → List CustomDomain
limit zero ds = []
limit (suc n) [] = []
limit (suc n) (d ∷ ds) = d ∷ limit n ds

-- Everything that is not active, the oldest first.
unfoldable pub list_not_active : Env → Exec (List CustomDomain)
list_not_active env =
    call env list_pending
      λ w. (ok (limit 100 (oldest_first (keep (λ d. not (is_active d)) w.db.domains))), w)

abbrev pub coalesce : Option ℕ → Option ℕ → Option ℕ
coalesce none old = old
coalesce (some t) old = some t

abbrev pub has_id : ℕ → CustomDomain → Bool
has_id id d = d.id == id

unfoldable pub update_status :
    Env → ℕ → CustomDomainStatus → Option String → Option ℕ → Option ℕ → Exec (Unit {0})
update_status env id status last_error validated_at issued_at = call env (update_domain id) λ w. (
  ok tt,
  record w {
    db = record w.db {
      domains =
          update_where (has_id id)
            (λ d. record d {
              status = status;
              last_error = last_error;
              dns_validated_at = coalesce validated_at d.dns_validated_at;
              cert_issued_at = coalesce issued_at d.cert_issued_at;
            })
            w.db.domains;
    };
  },
)

-- `ON DELETE CASCADE`: the certificates of the deleted row go with it.
abbrev pub is_removed : ℕ → ℕ → List CustomDomain → CustomDomainCert → Bool
is_removed id user_id ds c =
    any (λ d. d.id == id && d.user_id == user_id && d.id == c.custom_domain_id) ds

unfoldable pub delete : Env → ℕ → ℕ → Exec (Unit {0})
delete env id user_id = call env delete_domain λ w. (
  ok tt,
  record w {
    db = record w.db {
      domains = keep (λ d. not (d.id == id && d.user_id == user_id)) w.db.domains;
      certs = keep (λ c. not (is_removed id user_id w.db.domains c)) w.db.certs;
    };
  },
)

-- The latest first.
unfoldable pub list_by_user_id : Env → ℕ → Exec (List CustomDomain)
list_by_user_id env user_id =
    call env World.Op.list_domains λ w. (ok (keep (λ d. d.user_id == user_id) w.db.domains), w)

unfoldable pub list_active_hostnames : Env → Exec (List (Text × ℕ))
list_active_hostnames env =
    call env list_active
      λ w. (ok (map (λ d. (d.hostname, d.user_id)) (keep is_active w.db.domains)), w)

abbrev pub has_hostname : Text → CustomDomain → Bool
has_hostname hostname d = text_eq d.hostname hostname

abbrev found : Option CustomDomain → World → Result CustomDomain × World
found none w = (err (foreign "no rows in result set"), w)
found (some d) w = (ok d, w)

unfoldable pub get_by_hostname : Env → Text → Exec CustomDomain
get_by_hostname env hostname =
    call env World.Op.get_domain λ w. found (find (has_hostname hostname) w.db.domains) w
