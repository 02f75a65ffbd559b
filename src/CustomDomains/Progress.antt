-- ===== src/CustomDomains/Progress.antt =====
-- How a hostname advances: it is validated only by its token, and active only with a certificate.
use pingcast.Prelude.{
  ℕ, zero, suc, ◌==◌, String, Bool, true, false, not, Option, List, [], ◌∷◌, ◌++◌, any, keep,
  update_where, ◌≡◌, refl, arith,
}
use pingcast.Error.{ok}
use pingcast.Domain.CustomDomain.{CustomDomain, CustomDomainStatus, is_active}
use pingcast.Store.World.{World, Env}
use pingcast.Store.Exec.{◌>>=◌}
use pingcast.Store.Exec.Keeps.{Keeps, Keeps-call, Keeps-bind, Keeps-pure, Keeps-if}
use pingcast.Store.Domains
use pingcast.Store.Domains.{has_id, limit, oldest_first}
use pingcast.CustomDomains.Worker.{
  Network, advanced, advance_all, batch, run_validation_once, refresh_hostname_cache,
}

any-append :
    (q : CustomDomain → Bool) (xs ys : List CustomDomain)
    → any q xs ≡ false
    → any q ys ≡ false
    → any q (xs ++ ys) ≡ false
any-append q [] ys h h' = h'
any-append q (x ∷ xs) ys h h' = ground (arith, any-append q xs ys)

any-oldest_first :
    (q : CustomDomain → Bool) (xs : List CustomDomain)
    → any q xs ≡ false
    → any q (oldest_first xs) ≡ false
any-oldest_first q [] h = refl
any-oldest_first q (x ∷ xs) h =
    any-append q (oldest_first xs) (x ∷ []) (any-oldest_first q xs (ground arith)) (ground arith)

any-limit :
    (q : CustomDomain → Bool) (n : ℕ) (xs : List CustomDomain)
    → any q xs ≡ false
    → any q (limit n xs) ≡ false
any-limit q zero xs h = refl
any-limit q (suc n) [] h = refl
any-limit q (suc n) (x ∷ xs) h = ground (arith, any-limit q n xs)

any-keep :
    (q p : CustomDomain → Bool) (xs : List CustomDomain)
    → any q xs ≡ false
    → any q (keep p xs) ≡ false
any-keep q p [] h = refl
any-keep q p (x ∷ xs) h = ground (arith, any-keep q p xs)

any-update_where :
    (q p : CustomDomain → Bool) (f : CustomDomain → CustomDomain) (xs : List CustomDomain)
    → ((d : CustomDomain) → p d ≡ true → q (f d) ≡ false)
    → any q xs ≡ false
    → any q (update_where p f xs) ≡ false
any-update_where q p f [] k h = refl
any-update_where q p f (x ∷ xs) k h = ground (arith, k x, any-update_where q p f xs k)

-- No row passes the test.
abbrev pub Free : (CustomDomain → Bool) → World → Type 0
Free q w = any q w.db.domains ≡ false

pub update_status-Free :
    (q : CustomDomain → Bool) (env : Env) (id : ℕ) (s : CustomDomainStatus) (e : Option String)
    (v i : Option ℕ)
    → ((d : CustomDomain) → (d.id == id) ≡ true → d.status ≡ s → q d ≡ false)
    → Keeps (Free q) (Domains.update_status env id s e v i)
unfolding Domains.update_status
update_status-Free q env id s e v i k = Keeps-call env _ _ (record {
  at = λ w h. any-update_where q (has_id id) _ w.db.domains (λ d same. k _ same refl) h;
})

refresh-Free : (q : CustomDomain → Bool) (env : Env) → Keeps (Free q) (refresh_hostname_cache env)
unfolding refresh_hostname_cache Domains.list_active_hostnames ◌>>=◌
refresh-Free q env = record { at = λ w h. ground (arith, h) }

module _ (q : CustomDomain → Bool) (env : Env) (net : Network) (bad : CustomDomain → Bool)
    (step : (d : CustomDomain) → bad d ≡ false → Keeps (Free q) (advanced env net d d.status)) where
  advance_all-Free :
      (ds : List CustomDomain) → any bad ds ≡ false → Keeps (Free q) (advance_all env net ds)
  unfolding advance_all
  advance_all-Free [] h = Keeps-pure false
  advance_all-Free (d ∷ ds) h =
      Keeps-bind _ _ (step d (ground arith))
        λ a. Keeps-bind _ _ (advance_all-Free ds (ground arith)) λ b. Keeps-pure _

  batch-Free :
      (ds : List CustomDomain) → any bad ds ≡ false → Keeps (Free q) (batch env net (ok ds))
  batch-Free ds h =
      Keeps-bind _ _ (advance_all-Free ds h)
        λ a. Keeps-if a _ _ (refresh-Free q env) (Keeps-pure tt)

  -- If no row is bad, a run of the worker makes no row pass the test.
  pub run-Free :
      (w : World)
      → any bad w.db.domains ≡ false
      → Free q w
      → Free q (run_validation_once env net w).1
  unfolding run_validation_once Domains.list_not_active ◌>>=◌
  run-Free w b h =
      let ds = limit 100 (oldest_first (keep (λ d. not (is_active d)) w.db.domains)) in
      let good : any bad ds ≡ false =
        any-limit bad 100 _ (any-oldest_first bad _ (any-keep bad _ w.db.domains b)) in
      ground (arith, h, (batch-Free ds good).at w h)
