-- ===== src/Subscriptions/Silent.antt =====
-- What the form of a status page gives away.
use pingcast.Prelude.{
  ℕ, Text, any, ◌||◌, true, false, List, [], ◌∷◌, ◌≡◌, refl, arith, Bool, Option,
}
use pingcast.Error.{Result, ok, err}
use pingcast.Domain.Subscriber.{StatusSubscriber}
use pingcast.Store.World.{World, Env}
use pingcast.Store.Exec.{◌>>=◌, attempt}
use pingcast.Store.Subscribers
use pingcast.Store.Subscribers.{is_subscription, clashes, has_confirm, has_unsubscribe}
use pingcast.Subscriptions.{Addresses, subscribe, normalized, rand_token, welcomed, locale_ptr}
use pingcast.Accounts.Auth.{hex}

any-or :
    {A : Type 0} (p q : A → Bool) (xs : List A) → any p xs ≡ true → any (λ x. p x || q x) xs ≡ true
any-or p q [] h = h
any-or p q (x ∷ xs) h = ground (arith, any-or p q xs)

welcomed-ok :
    (env : Env) (email locale : Text) (r : Result StatusSubscriber) (w : World)
    → (welcomed env email locale r w).0 ≡ ok tt
unfolding welcomed ◌>>=◌
welcomed-ok env email locale (ok s) w = refl
welcomed-ok env email locale (err e) w = refl

abbrev Same : World → World → Type 0
Same w w' = (w'.mails ≡ w.mails) × (w'.db.subscribers ≡ w.db.subscribers)

-- An insertion that the unique index refuses.
taken-Same :
    (env : Env) (slug email a b locale : Text) (l : Option Text) (w : World)
    → any (is_subscription slug email) w.db.subscribers ≡ true
    → Same w ((attempt (Subscribers.create env slug email a b l) >>= welcomed env email locale) w).1
unfolding ◌>>=◌ welcomed Subscribers.create
taken-Same env slug email a b locale l w h = ground (
  arith,
  any-or (is_subscription slug email) (λ s. has_confirm a s || has_unsubscribe b s) w.db.subscribers
      h,
)

-- Two visitors who send the form of a status page with the same address and the same random bytes get
-- the same answer, whatever the tables hold, whichever pages they ask for and whichever calls to the
-- database and the mail server fail, so that the answer does not tell who is subscribed. If the
-- address is subscribed to the page, no mail is sent and no row is changed.
pub subscribe_silent :
    (env env' : Env) (c : Addresses) (slug slug' email locale : Text) (w w' : World)
    → ((subscribe env c slug email locale w).0 ≡ (subscribe env' c slug' email locale w').0)
      × (any (is_subscription slug (normalized c email)) w.db.subscribers ≡ true
          → ((subscribe env c slug email locale w).1.mails ≡ w.mails)
            × ((subscribe env c slug email locale w).1.db.subscribers ≡ w.db.subscribers))
unfolding subscribe rand_token ◌>>=◌ welcomed Subscribers.create
subscribe_silent env env' c slug slug' email locale w w' = (
  ground arith,
  by_reads (c.is_address (normalized c email)) (c.read_random 0) (c.read_random 1) refl refl refl,
)
  where
    by_reads :
        (v : Bool) (x y : Result (List ℕ))
        → c.is_address (normalized c email) ≡ v
        → c.read_random 0 ≡ x
        → c.read_random 1 ≡ y
        → any (is_subscription slug (normalized c email)) w.db.subscribers ≡ true
        → Same w (subscribe env c slug email locale w).1
    by_reads true (ok a) (ok b) v x y h =
        rw (v, x, y)
          (taken-Same env slug (normalized c email) (hex a) (hex b) locale (locale_ptr locale) w h)
    by_reads true (ok a) (err e) v x y h = rw (v, x, y) (refl, refl)
    by_reads true (err e) y' v x y h = rw (v, x) (refl, refl)
    by_reads false x' y' v x y h = rw v (refl, refl)
