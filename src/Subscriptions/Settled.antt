-- ===== src/Subscriptions/Settled.antt =====
-- What the rows of the table of subscribers have, whatever the visitors of a status page do.
use pingcast.Prelude.{
  ℕ, ltb, ◌==◌, Bool, true, false, not, ◌&&◌, ◌||◌, Option, none, some, List, [], ◌∷◌, all, find,
  keep, update_where, any, Text, text_eq, ◌≡◌, refl, sym, ◌∙◌, arith, Option-cases, Bool-cases, All,
  ◌⊎◌, inl, inr,
}
use pingcast.Error.{Error, Result, ok, err}
use pingcast.Domain.Subscriber.{StatusSubscriber}
use pingcast.Store.World.{World, Env}
use pingcast.Store.Exec.{throw, ◌>>=◌}
use pingcast.Store.Exec.Keeps.{Keeps, Keeps-call, Keeps-bind, Keeps-attempt, Keeps-pure}
use pingcast.Store.Exec.Reads.{Reads, bind_read}
use pingcast.Store.Subscribers
use pingcast.Store.Subscribers.{has_unsubscribe, clashes, is_pending, confirmed}
use pingcast.Accounts.Auth.{hex}
use pingcast.Subscriptions.{
  Addresses, subscribe, welcomed, send, rand_token, confirm, unsubscribe, normalized,
}
use pingcast.Subscriptions.Unique.{Request, subscribing, confirming, unsubscribing, serve, served}

abbrev was_confirmed_at : ℕ → Option ℕ → Bool
was_confirmed_at t none = false
was_confirmed_at t (some t') = t' == t

-- The row has an address that passes the check, and two tokens that differ; and if it is the row with the
-- given number, it was confirmed at the given time.
abbrev pub is_settled : (Text → Bool) → ℕ → ℕ → StatusSubscriber → Bool
is_settled is_address id t s =
    is_address s.email
    && not (text_eq s.confirm_token s.unsubscribe_token)
    && (not (s.id == id) || was_confirmed_at t s.confirmed_at)

all-keep : {A : Type 0} (p q : A → Bool) (xs : List A) → all p xs ≡ true → all p (keep q xs) ≡ true
all-keep p q [] h = refl
all-keep p q (x ∷ xs) h = ground (arith, h, all-keep p q xs)

all-update_where :
    {A : Type 0} (p q : A → Bool) (f : A → A) (xs : List A)
    → ((x : A) → p x ≡ true → q x ≡ true → p (f x) ≡ true)
    → all p xs ≡ true
    → all p (update_where q f xs) ≡ true
all-update_where p q f [] k h = refl
all-update_where p q f (x ∷ xs) k h = ground (arith, h, k x, all-update_where p q f xs k)

module _ (is_address : Text → Bool) (id t : ℕ) where
  -- The number is given to a row already, and every row is as above.
  abbrev pub Settled : World → Type 0
  Settled w =
      (ltb id w.db.next_subscriber ≡ true)
      × (all (is_settled is_address id t) w.db.subscribers ≡ true)

  confirmed-settled :
      (env : Env) (token : Text) (s : StatusSubscriber)
      → is_settled is_address id t s ≡ true
      → is_pending token s ≡ true
      → is_settled is_address id t (confirmed env s) ≡ true
  confirmed-settled env token s h p = by_time s.confirmed_at refl
    where
      by_time :
          (o : Option ℕ) → s.confirmed_at ≡ o → is_settled is_address id t (confirmed env s) ≡ true
      by_time none e = ground (arith, h, e)
      by_time (some x) e = absurd (ground (arith, p, e))

  confirm-Settled : (env : Env) (token : Text) → Keeps Settled (confirm env token)
  unfolding confirm Subscribers.confirm
  confirm-Settled env token = Keeps-call env _ _ (record {
    at = λ w h. elim (Option-cases (find (is_pending token) w.db.subscribers)) [
      | inl e ↦ rw e h
      | inr e ↦ rw e.1 (
        h.0,
        all-update_where (is_settled is_address id t) (is_pending token) (confirmed env)
            w.db.subscribers (confirmed-settled env token) h.1,
      )
    ];
  })

  unsubscribe-Settled : (env : Env) (token : Text) → Keeps Settled (unsubscribe env token)
  unfolding unsubscribe Subscribers.unsubscribe
  unsubscribe-Settled env token = Keeps-call env _ _ (record {
    at = λ w h. elim (Option-cases (find (has_unsubscribe token) w.db.subscribers)) [
      | inl e ↦ rw e h
      | inr e ↦ rw e.1 (
        h.0,
        all-keep (is_settled is_address id t) (λ s. not (has_unsubscribe token s)) w.db.subscribers
            h.1,
      )
    ];
  })

  create-Settled :
      (env : Env) (slug email a b : Text) (locale : Option Text)
      → is_address email ≡ true
      → text_eq a b ≡ false
      → Keeps Settled (Subscribers.create env slug email a b locale)
  unfolding Subscribers.create
  create-Settled env slug email a b locale v d = Keeps-call env _ _ (record {
    at = λ w h. elim (Bool-cases (any (clashes slug email a b) w.db.subscribers)) [
      | inl e ↦ rw e (ground (arith, h), h.1)
      | inr e ↦ rw e (ground (arith, h), ground (arith, h, v, d))
    ];
  })

  welcomed-Settled :
      (env : Env) (email locale : Text) (r : Result StatusSubscriber)
      → Keeps Settled (welcomed env email locale r)
  unfolding welcomed send
  welcomed-Settled env email locale (err e) = Keeps-pure tt
  welcomed-Settled env email locale (ok s) =
      Keeps-bind _ _ (Keeps-attempt _ (Keeps-call env _ _ (record { at = λ w h. h })))
        λ _. Keeps-pure tt

Result-cases : {A : Type 0} (r : Result A) → ((a : A) × (r ≡ ok a)) ⊎ ((e : Error) × (r ≡ err e))
Result-cases (ok a) = inl (a, refl)
Result-cases (err e) = inr (e, refl)

rand_token-Reads : (c : Addresses) (n : ℕ) → Reads (rand_token c n)
unfolding rand_token ◌>>=◌
rand_token-Reads c n = record { same = λ w. ground arith }

rand_token-hex :
    (c : Addresses) (n : ℕ) (w : World) (v : Text)
    → (rand_token c n w).0 ≡ ok v
    → (b : List ℕ) × (c.read_random n ≡ ok b) × (v ≡ hex b)
unfolding rand_token ◌>>=◌
rand_token-hex c n w v h = elim (Result-cases (c.read_random n)) [
  | inl (b, e) ↦ (b, e, ground (arith, h, e))
  | inr (x, e) ↦ absurd (ground (arith, h, e))
]

-- The checks of addresses are the same, and the two reads of one call differ in what they draw.
abbrev pub IsDrawn : (Text → Bool) → Request → Type 0
IsDrawn is_address (subscribing c slug email locale) =
    ((x : Text) → c.is_address x ≡ is_address x)
    × ((a b : List ℕ)
        → c.read_random 0 ≡ ok a
        → c.read_random 1 ≡ ok b
        → text_eq (hex a) (hex b) ≡ false)
IsDrawn is_address (confirming token) = Unit
IsDrawn is_address (unsubscribing token) = Unit

module _ (is_address : Text → Bool) (id t : ℕ) where
  subscribe-Settled :
      (env : Env) (c : Addresses) (slug email locale : Text) (w : World)
      → IsDrawn is_address (subscribing c slug email locale)
      → Settled is_address id t w
      → Settled is_address id t (subscribe env c slug email locale w).1
  unfolding subscribe throw
  subscribe-Settled env c slug email locale w (same, drawn) h =
      elim (Bool-cases (c.is_address (normalized c email))) [
        | inr e ↦ rw e h
        | inl e ↦ rw e (
            bind_read (Settled is_address id t) _ _ w (rand_token-Reads c 0) h λ a p.
              bind_read (Settled is_address id t) _ _ w (rand_token-Reads c 1) h λ b q.
                let (x, px, vx) = rand_token-hex c 0 w a p in
                let (y, py, vy) = rand_token-hex c 1 w b q in
                let differ : text_eq a b ≡ false = ground (arith, vx, vy, drawn x y px py) in
                (Keeps-bind _ _
                    (Keeps-attempt _ (
                      create-Settled is_address id t env slug (normalized c email) a b _
                        (sym (same (normalized c email)) ∙ e) differ))
                    λ r. welcomed-Settled is_address id t env (normalized c email) locale r).at
                  w h)
      ]

  serve-Settled :
      (env : Env) (r : Request) (w : World)
      → IsDrawn is_address r
      → Settled is_address id t w
      → Settled is_address id t (serve env r w)
  unfolding serve
  serve-Settled env (subscribing c slug email locale) w d h =
      subscribe-Settled env c slug email locale w d h
  serve-Settled env (confirming token) w d h = (confirm-Settled is_address id t env token).at w h
  serve-Settled env (unsubscribing token) w d h =
      (unsubscribe-Settled is_address id t env token).at w h

-- Whatever requests of visitors come, in whatever order and with whatever faults, and if the two random
-- draws of each subscription differ: when every row has an address that passes the check and two
-- tokens that differ, this stays so, and a reader who was confirmed at some time is either gone or
-- still confirmed at that time. The number of that reader was given out before.
pub served-Settled :
    (is_address : Text → Bool) (id t : ℕ) (requests : List (Env × Request)) (w : World)
    → All (λ r. IsDrawn is_address r.1) requests
    → Settled is_address id t w
    → Settled is_address id t (served requests w)
served-Settled is_address id t [] w d h = h
served-Settled is_address id t ((env, r) ∷ rs) w (d, ds) h =
    served-Settled is_address id t rs (serve env r w) ds (serve-Settled is_address id t env r w d h)
