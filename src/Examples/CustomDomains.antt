-- ===== src/Examples/CustomDomains.antt =====
-- The theorems about custom domains, on sample tables.
use pingcast.Prelude.{◌+◌, true, false, any, none, some, [], ◌∷◌, codes, ◌≡◌, refl, arith}
use pingcast.Prelude.Strings.{trim_space, text_eq_iff}
use pingcast.Error.{ok, foreign}
use pingcast.Domain.CustomDomain.{CustomDomain, pending, active}
use pingcast.Store.World.{World}
use pingcast.CustomDomains.Worker.{Network, answer, run_validation_once}
use pingcast.CustomDomains.Renewal.{
  Resource, Authority, renewal_window, parse_cert_expiry, run_renewals_once,
}
use pingcast.CustomDomains.Renewal.Fresh.{is_fresh, IsOnly, run_renewals_once-fresh}
use pingcast.CustomDomains.Guards.{validated_with, run_validation_once-validated}
use pingcast.Examples.Data.{env, failing}

abbrev claimed : CustomDomain
claimed = record {
  id = 5;
  user_id = 1;
  hostname = codes "status.example.org";
  validation_token = codes "abc";
  status = pending;
  last_error = none;
  dns_validated_at = none;
  cert_issued_at = none;
  created_at = 60;
}

abbrev asked : World
asked = record failing { db = record failing.db { domains = claimed ∷ [] } }

-- Every probe is answered with the given text, and no certificate is issued.
abbrev network : Network
network = record {
  probe = λ hostname token. answer 200 (codes "abd");
  provision = λ hostname. some (foreign "rate limited");
}

run_validation_once-validated_example :
    any (validated_with 5) (run_validation_once env network asked).1.db.domains ≡ false
unfolding trim_space
run_validation_once-validated_example = run_validation_once-validated env network 5 asked refl refl

abbrev served : CustomDomain
served = record claimed { status = active }

-- The certificate of the hostname expires within the hour.
abbrev expiring : World
expiring = record failing {
  db = record failing.db {
    domains = served ∷ [];
    certs =
        record {
          custom_domain_id = 5;
          cert_pem = codes "old";
          key_pem = codes "k";
          chain_pem = [];
          expires_at = 9000;
        }
        ∷ [];
  };
}

abbrev renewed : Resource
renewed = record { certificate = codes "new"; private_key = codes "k2"; issuer_certificate = [] }

abbrev authority : Authority
authority = record {
  obtain = λ hostname. ok renewed;
  decode = λ pem. some pem;
  parse_certificate = λ block. ok 7776000;
}

served-IsOnly : IsOnly served (served ∷ [])
served-IsOnly hostname d found same = ground (arith, found, text_eq_iff served.hostname hostname)

run_renewals_once-fresh_example :
    is_fresh (7200 + renewal_window) 5 (run_renewals_once env authority expiring).1.db.certs ≡ true
unfolding parse_cert_expiry
run_renewals_once-fresh_example =
    run_renewals_once-fresh env authority expiring served refl refl refl refl refl served-IsOnly
      (renewed, 7776000, refl, refl, refl)
