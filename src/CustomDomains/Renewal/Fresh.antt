-- ===== src/CustomDomains/Renewal/Fresh.antt =====
-- After a run of renewals a certificate that the authority issues does not expire soon.
use pingcast.Prelude.{
  ℕ, ◌+◌, ◌==◌, ==_iff, ltb, Bool, true, false, not, ◌||◌, none, some, List, [], ◌∷◌, ◌++◌, any,
  all, find, update_where, Text, text_eq, text_eq_refl, text_eq_iff, ◌≡◌, refl, sym, ◌∙◌, ap, subst,
  arith, Bool-cases, ◌⊎◌, inl, inr, Option-cases,
}
use pingcast.Error.{Error, Result, ok, err}
use pingcast.Domain.CustomDomain.{CustomDomain, is_active}
use pingcast.Store.World.{World, Env, CustomDomainCert, get_domain, upsert_cert, list_expiring}
use pingcast.Store.Exec.{◌>>=◌}
use pingcast.Store.Domains
use pingcast.Store.Domains.{has_hostname}
use pingcast.Store.Certs
use pingcast.Store.Certs.{is_for, upserted, hostnames_of, expiring}
use pingcast.CustomDomains.Renewal.{
  Resource, Authority, parse_cert_expiry, provision, renewal_window, renew_each, run_renewals_once,
}

-- No certificate of the domain expires before the time.
abbrev pub is_fresh : ℕ → ℕ → List CustomDomainCert → Bool
is_fresh before id cs = all (λ c. not (is_for id c) || not (ltb c.expires_at before)) cs

fresh-update :
    (before id : ℕ) (c : CustomDomainCert) (cs : List CustomDomainCert)
    → is_fresh before id cs ≡ true
    → (c.custom_domain_id == id) ≡ false
    → is_fresh before id (update_where (is_for c.custom_domain_id) (λ _. c) cs) ≡ true
fresh-update before id c [] h e = refl
fresh-update before id c (x ∷ cs) h e = ground (arith, h, e, fresh-update before id c cs)

fresh-renewed :
    (before : ℕ) (c : CustomDomainCert) (cs : List CustomDomainCert)
    → ltb c.expires_at before ≡ false
    → is_fresh before c.custom_domain_id (update_where (is_for c.custom_domain_id) (λ _. c) cs)
      ≡ true
fresh-renewed before c [] e = refl
fresh-renewed before c (x ∷ cs) e = ground (arith, e, fresh-renewed before c cs e)

fresh-absent :
    (before id : ℕ) (cs : List CustomDomainCert)
    → any (is_for id) cs ≡ false
    → is_fresh before id cs ≡ true
fresh-absent before id [] e = refl
fresh-absent before id (x ∷ cs) e = ground (arith, e, fresh-absent before id cs)

fresh-upserted_same :
    (before : ℕ) (c : CustomDomainCert) (cs : List CustomDomainCert)
    → ltb c.expires_at before ≡ false
    → is_fresh before c.custom_domain_id (upserted c cs) ≡ true
fresh-upserted_same before c cs e =
    ground (arith, e, fresh-renewed before c cs e, fresh-absent before c.custom_domain_id cs)

fresh-upserted_other :
    (before id : ℕ) (c : CustomDomainCert) (cs : List CustomDomainCert)
    → is_fresh before id cs ≡ true
    → (c.custom_domain_id == id) ≡ false
    → is_fresh before id (upserted c cs) ≡ true
fresh-upserted_other before id c cs h e = ground (arith, h, e, fresh-update before id c cs)

-- A domain with a certificate that expires is listed.
any-append :
    (h : Text) (xs ys : List Text)
    → any (λ t. text_eq t h) (xs ++ ys) ≡ (any (λ t. text_eq t h) xs || any (λ t. text_eq t h) ys)
any-append h [] ys = refl
any-append h (x ∷ xs) ys = ground (arith, any-append h xs ys)

hostnames_of-any :
    (d : CustomDomain) (c : CustomDomainCert) (ds : List CustomDomain)
    → find (has_hostname d.hostname) ds ≡ some d
    → is_active d ≡ true
    → (c.custom_domain_id == d.id) ≡ true
    → any (λ t. text_eq t d.hostname) (hostnames_of ds c) ≡ true
hostnames_of-any d c [] f a e = cc
hostnames_of-any d c (x ∷ ds) f a e =
    ground (arith, f, a, e, hostnames_of-any d c ds, text_eq_refl d.hostname)

listed :
    (before : ℕ) (d : CustomDomain) (ds : List CustomDomain) (cs : List CustomDomainCert)
    → find (has_hostname d.hostname) ds ≡ some d
    → is_active d ≡ true
    → is_fresh before d.id cs ≡ false
    → any (λ t. text_eq t d.hostname) (expiring before ds cs) ≡ true
listed before d ds [] f a e = cc
listed before d ds (c ∷ cs) f a e = ground (
  arith,
  e,
  any-append d.hostname (hostnames_of ds c) (expiring before ds cs),
  hostnames_of-any d c ds f a,
  listed before d ds cs f a,
)

Result-cases {ℓ} :
    {A : Type ℓ} (r : Result A) → ((a : A) × (r ≡ ok a)) ⊎ ((e : Error) × (r ≡ err e))
Result-cases (ok a) = inl (a, refl)
Result-cases (err e) = inr (e, refl)

abbrev cert_of : CustomDomain → Resource → ℕ → CustomDomainCert
cert_of d res t = record {
  custom_domain_id = d.id;
  cert_pem = res.certificate;
  key_pem = res.private_key;
  chain_pem = res.issuer_certificate;
  expires_at = t;
}

-- The authority issues a certificate for the hostname that lasts to the time.
abbrev pub Issues : Authority → ℕ → CustomDomain → Type 0
Issues ca before d =
    (res : Resource) × (t : ℕ) × (ca.obtain d.hostname ≡ ok res)
    × (parse_cert_expiry ca res.certificate ≡ ok t)
    × (ltb t before ≡ false)

-- No row of another hostname has the identifier.
abbrev pub IsOnly : CustomDomain → List CustomDomain → Type 0
IsOnly d ds =
    (hostname : Text) (d' : CustomDomain)
    → find (has_hostname hostname) ds ≡ some d'
    → (d'.id == d.id) ≡ true
    → hostname ≡ d.hostname

module _ (env : Env) (ca : Authority) (before : ℕ) (d : CustomDomain) (ds : List CustomDomain) where
  provision-domains :
      (hostname : Text) (w : World) → (provision env ca hostname w).1.db.domains ≡ w.db.domains
  unfolding provision Domains.get_by_hostname Certs.upsert ◌>>=◌
  provision-domains hostname w = ground arith

  provision-fresh :
      (w : World)
      → env.fault get_domain ≡ none
      → env.fault upsert_cert ≡ none
      → find (has_hostname d.hostname) w.db.domains ≡ some d
      → Issues ca before d
      → is_fresh before d.id (provision env ca d.hostname w).1.db.certs ≡ true
  unfolding provision Domains.get_by_hostname Certs.upsert ◌>>=◌
  provision-fresh w f g found (res, t, o, p, late) =
      ground (
        arith,
        f,
        g,
        found,
        o,
        p,
        late,
        fresh-upserted_same before (cert_of d res t) w.db.certs late,
      )

  issued-same :
      (hostname : Text) (w : World) (d' : CustomDomain)
      → find (has_hostname hostname) w.db.domains ≡ some d'
      → (d'.id ≡ d.id)
      → hostname ≡ d.hostname
      → Issues ca before d
      → is_fresh before d.id w.db.certs ≡ true
      → is_fresh before d.id (provision env ca hostname w).1.db.certs ≡ true
  unfolding provision Domains.get_by_hostname Certs.upsert ◌>>=◌
  issued-same hostname w d' found i s (res, t, o, p, late) h = ground (
    arith,
    found,
    i,
    s,
    o,
    p,
    late,
    h,
    fresh-upserted_same before (cert_of d res t) w.db.certs late,
  )

  issued-other :
      (hostname : Text) (w : World) (d' : CustomDomain)
      → find (has_hostname hostname) w.db.domains ≡ some d'
      → (d'.id == d.id) ≡ false
      → is_fresh before d.id w.db.certs ≡ true
      → is_fresh before d.id (provision env ca hostname w).1.db.certs ≡ true
  unfolding provision Domains.get_by_hostname Certs.upsert ◌>>=◌
  issued-other hostname w d' found ne h = elim (Result-cases (ca.obtain hostname)) [
    | inr (e, o) ↦ ground (arith, found, o, h)
    | inl (res, o) ↦ elim (Result-cases (parse_cert_expiry ca res.certificate)) [
      | inr (e, p) ↦ ground (arith, found, o, p, h)
      | inl (t, p) ↦ ground (
        arith,
        found,
        o,
        p,
        h,
        fresh-upserted_other before d.id (cert_of d' res t) w.db.certs h ne,
      )
    ]
  ]

  issued-none :
      (hostname : Text) (w : World)
      → find (has_hostname hostname) w.db.domains ≡ none
      → is_fresh before d.id w.db.certs ≡ true
      → is_fresh before d.id (provision env ca hostname w).1.db.certs ≡ true
  unfolding provision Domains.get_by_hostname Certs.upsert ◌>>=◌
  issued-none hostname w absent h = ground (arith, absent, h)

  provision-keeps :
      (hostname : Text) (w : World)
      → w.db.domains ≡ ds
      → IsOnly d ds
      → Issues ca before d
      → is_fresh before d.id w.db.certs ≡ true
      → is_fresh before d.id (provision env ca hostname w).1.db.certs ≡ true
  provision-keeps hostname w same only issues h =
      elim (Option-cases (find (has_hostname hostname) w.db.domains)) [
        | inl absent ↦ issued-none hostname w absent h
        | inr (d', found) ↦ elim (Bool-cases (d'.id == d.id)) [
          | inl e ↦
              issued-same hostname w d' found ((==_iff d'.id d.id).0 e)
                (only hostname d' (ap (find (has_hostname hostname)) (sym same) ∙ found) e) issues h
          | inr e ↦ issued-other hostname w d' found e h
        ]
      ]

  renew_each-keeps :
      (hs : List Text) (w : World)
      → w.db.domains ≡ ds
      → IsOnly d ds
      → Issues ca before d
      → is_fresh before d.id w.db.certs ≡ true
      → is_fresh before d.id (renew_each env ca hs w).1.db.certs ≡ true
  unfolding renew_each ◌>>=◌
  renew_each-keeps [] w same only issues h = h
  renew_each-keeps (x ∷ hs) w same only issues h =
      renew_each-keeps hs ((provision env ca x w).1) (provision-domains x w ∙ same) only issues
        (provision-keeps x w same only issues h)

  renew_each-fresh :
      (hs : List Text) (w : World)
      → w.db.domains ≡ ds
      → env.fault get_domain ≡ none
      → env.fault upsert_cert ≡ none
      → find (has_hostname d.hostname) ds ≡ some d
      → IsOnly d ds
      → Issues ca before d
      → any (λ t. text_eq t d.hostname) hs ≡ true
      → is_fresh before d.id (renew_each env ca hs w).1.db.certs ≡ true
  unfolding renew_each ◌>>=◌
  renew_each-fresh [] w same f g found only issues named = cc
  renew_each-fresh (x ∷ hs) w same f g found only issues named =
      elim (Bool-cases (text_eq x d.hostname)) [
        | inl e ↦
            renew_each-keeps hs ((provision env ca x w).1) (provision-domains x w ∙ same) only
              issues
              (subst (λ t. is_fresh before d.id (provision env ca t w).1.db.certs ≡ true)
                (sym ((text_eq_iff x d.hostname).0 e))
                (provision-fresh w f g (ap (find (has_hostname d.hostname)) same ∙ found) issues))
        | inr e ↦
            renew_each-fresh hs ((provision env ca x w).1) (provision-domains x w ∙ same) f g found
              only issues (ground (arith, e, named))
      ]

-- A renewal that runs at an instant, for an active domain that is the first row of its hostname and
-- the only row found with its identifier, and for which the authority issues a certificate that lasts
-- for more than thirty days: when the domains and the certificates are read and stored without a
-- failure, no certificate of the domain expires within thirty days after the run, whatever was stored
-- before and whatever happens to the other hostnames.
pub run_renewals_once-fresh :
    (env : Env) (ca : Authority) (w : World) (d : CustomDomain)
    → env.fault list_expiring ≡ none
    → env.fault get_domain ≡ none
    → env.fault upsert_cert ≡ none
    → is_active d ≡ true
    → find (has_hostname d.hostname) w.db.domains ≡ some d
    → IsOnly d w.db.domains
    → Issues ca (env.now + renewal_window) d
    → is_fresh (env.now + renewal_window) d.id (run_renewals_once env ca w).1.db.certs ≡ true
unfolding run_renewals_once Certs.list_expiring_hostnames ◌>>=◌
run_renewals_once-fresh env ca w d l f g active found only issues =
    let before = env.now + renewal_window in
    elim (Bool-cases (is_fresh before d.id w.db.certs)) [
      | inl h ↦ rw l (
          renew_each-keeps env ca before d w.db.domains (expiring before w.db.domains w.db.certs) w
            refl only issues h)
      | inr h ↦ rw l (
          renew_each-fresh env ca before d w.db.domains (expiring before w.db.domains w.db.certs) w
            refl f g found only issues (listed before d w.db.domains w.db.certs found active h))
    ]
