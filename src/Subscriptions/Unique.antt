-- ===== src/Subscriptions/Unique.antt =====
-- The unique indexes of the table of subscribers, and what they make of the tokens.
use pingcast.Prelude.{
  ◌≤◌, Bool, true, false, not, ◌||◌, List, [], ◌∷◌, count, any, find, keep, update_where, Text, ◌≡◌,
  refl, arith, Option-cases, Bool-cases, inl, inr, text_eq_iff, subst, ℕ, Option,
}
use pingcast.Prelude.Lists.Where.{count-update_where-le}
use pingcast.Error.{Result, ok, err}
use pingcast.Domain.Subscriber.{StatusSubscriber}
use pingcast.Domain.Mail.{Mail}
use pingcast.Store.World.{World, Env}
use pingcast.Store.Exec.Keeps.{
  Keeps, Keeps-call, Keeps-bind, Keeps-attempt, Keeps-pure, Keeps-if, Keeps-throw,
}
use pingcast.Store.Subscribers
use pingcast.Store.Subscribers.{
  is_subscription, has_confirm, has_unsubscribe, clashes, is_pending, confirmed,
}
use pingcast.Subscriptions.{
  Addresses, subscribe, welcomed, send, rand_token, confirm, unsubscribe, normalized,
}

-- A page and an address, or a token, belong to one row at most.
pub record IsUnique (rows : List StatusSubscriber) : Type 0 where
  pub by_email : (slug email : Text) → count (is_subscription slug email) rows ≤ 1
  pub by_confirm : (token : Text) → count (has_confirm token) rows ≤ 1
  pub by_unsubscribe : (token : Text) → count (has_unsubscribe token) rows ≤ 1

abbrev pub UniqueIn : World → Type 0
UniqueIn w = IsUnique w.db.subscribers

cons-le :
    {A : Type 0} (p : A → Bool) (x : A) (xs : List A)
    → (p x ≡ true → count p xs ≡ 0)
    → count p xs ≤ 1
    → count p (x ∷ xs) ≤ 1
cons-le p x xs k h = elim (Bool-cases (p x)) [ inl e ↦ ground (arith, k e) | inr e ↦ ground arith ]

pub any-or_left :
    {A : Type 0} (p q r : A → Bool) (xs : List A)
    → any (λ x. p x || q x || r x) xs ≡ false
    → (count p xs ≡ 0) × (count q xs ≡ 0) × (count r xs ≡ 0)
any-or_left p q r [] h = (refl, refl, refl)
any-or_left p q r (x ∷ xs) h = ground (arith, any-or_left p q r xs)

count-keep-le : {A : Type 0} (p q : A → Bool) (xs : List A) → count p (keep q xs) ≤ count p xs
count-keep-le p q [] = omega arith
count-keep-le p q (x ∷ xs) = ground (arith, count-keep-le p q xs)

insert-IsUnique :
    (s : StatusSubscriber) (rows : List StatusSubscriber)
    → any (clashes s.slug s.email s.confirm_token s.unsubscribe_token) rows ≡ false
    → IsUnique rows
    → IsUnique (s ∷ rows)
insert-IsUnique s rows h u =
    let (a, b, c) =
      any-or_left (is_subscription s.slug s.email) (has_confirm s.confirm_token)
        (has_unsubscribe s.unsubscribe_token) rows h in
    record {
      by_email = λ slug email.
          cons-le (is_subscription slug email) s rows
            (λ e.
              subst (λ t. count (is_subscription t email) rows ≡ 0)
                ((text_eq_iff s.slug slug).0 (ground arith))
                (subst (λ t. count (is_subscription s.slug t) rows ≡ 0)
                  ((text_eq_iff s.email email).0 (ground arith)) a))
            (u.by_email slug email);
      by_confirm = λ token.
          cons-le (has_confirm token) s rows
            (λ e.
              subst (λ t. count (has_confirm t) rows ≡ 0) ((text_eq_iff s.confirm_token token).0 e)
                b)
            (u.by_confirm token);
      by_unsubscribe = λ token.
          cons-le (has_unsubscribe token) s rows
            (λ e.
              subst (λ t. count (has_unsubscribe t) rows ≡ 0)
                ((text_eq_iff s.unsubscribe_token token).0 e) c)
            (u.by_unsubscribe token);
    }

confirm-IsUnique :
    (env : Env) (token : Text) (rows : List StatusSubscriber)
    → IsUnique rows
    → IsUnique (update_where (is_pending token) (confirmed env) rows)
confirm-IsUnique env token rows u =
    let le =
      λ (p : StatusSubscriber → Bool)
          (k : (x : StatusSubscriber) → p (confirmed env x) ≡ true → p x ≡ true).
        count-update_where-le p (is_pending token) (confirmed env) rows k in
    record {
      by_email = λ slug email.
          omega (arith, u.by_email slug email, le (is_subscription slug email) (λ x h. h));
      by_confirm = λ t. omega (arith, u.by_confirm t, le (has_confirm t) (λ x h. h));
      by_unsubscribe = λ t. omega (arith, u.by_unsubscribe t, le (has_unsubscribe t) (λ x h. h));
    }

keep-IsUnique :
    (q : StatusSubscriber → Bool) (rows : List StatusSubscriber)
    → IsUnique rows
    → IsUnique (keep q rows)
keep-IsUnique q rows u = record {
  by_email = λ slug email.
      omega (arith, u.by_email slug email, count-keep-le (is_subscription slug email) q rows);
  by_confirm = λ t. omega (arith, u.by_confirm t, count-keep-le (has_confirm t) q rows);
  by_unsubscribe = λ t. omega (arith, u.by_unsubscribe t, count-keep-le (has_unsubscribe t) q rows);
}

create-UniqueIn :
    (env : Env) (slug email confirm unsubscribe : Text) (locale : Option Text)
    → Keeps UniqueIn (Subscribers.create env slug email confirm unsubscribe locale)
unfolding Subscribers.create
create-UniqueIn env slug email confirm unsubscribe locale = Keeps-call env _ _ (record {
  at = λ w h. elim (Bool-cases (any (clashes slug email confirm unsubscribe) w.db.subscribers)) [
    | inl e ↦ rw e h
    | inr e ↦ rw e (
        insert-IsUnique (Subscribers.new_subscriber env w slug email confirm unsubscribe locale)
          w.db.subscribers e h)
  ];
})

confirm-UniqueIn : (env : Env) (token : Text) → Keeps UniqueIn (confirm env token)
unfolding confirm Subscribers.confirm
confirm-UniqueIn env token = Keeps-call env _ _ (record {
  at = λ w h. elim (Option-cases (find (is_pending token) w.db.subscribers)) [
    | inl e ↦ rw e h
    | inr e ↦ rw e.1 (confirm-IsUnique env token w.db.subscribers h)
  ];
})

unsubscribe-UniqueIn : (env : Env) (token : Text) → Keeps UniqueIn (unsubscribe env token)
unfolding unsubscribe Subscribers.unsubscribe
unsubscribe-UniqueIn env token = Keeps-call env _ _ (record {
  at = λ w h. elim (Option-cases (find (has_unsubscribe token) w.db.subscribers)) [
    | inl e ↦ rw e h
    | inr e ↦ rw e.1 (keep-IsUnique (λ s. not (has_unsubscribe token s)) w.db.subscribers h)
  ];
})

send-UniqueIn : (env : Env) (id : ℕ) (m : Mail) → Keeps UniqueIn (send env id m)
unfolding send
send-UniqueIn env id m = Keeps-call env _ _ (record { at = λ w h. h })

welcomed-UniqueIn :
    (env : Env) (email locale : Text) (r : Result StatusSubscriber)
    → Keeps UniqueIn (welcomed env email locale r)
unfolding welcomed
welcomed-UniqueIn env email locale (err e) = Keeps-pure tt
welcomed-UniqueIn env email locale (ok s) =
    Keeps-bind _ _ (Keeps-attempt _ (send-UniqueIn env s.id _)) λ _. Keeps-pure tt

rand_token-UniqueIn : (c : Addresses) (n : ℕ) → Keeps UniqueIn (rand_token c n)
unfolding rand_token
rand_token-UniqueIn c n = Keeps-bind _ _ (record { at = λ w h. h }) λ _. Keeps-pure _

subscribe-UniqueIn :
    (env : Env) (c : Addresses) (slug email locale : Text)
    → Keeps UniqueIn (subscribe env c slug email locale)
unfolding subscribe
subscribe-UniqueIn env c slug email locale =
    Keeps-if (c.is_address (normalized c email)) _ _
      (Keeps-bind _ _ (rand_token-UniqueIn c 0) λ _. Keeps-bind _ _ (rand_token-UniqueIn c 1) λ _.
        Keeps-bind _ _ (Keeps-attempt _ (create-UniqueIn env slug (normalized c email) _ _ _))
          λ r. welcomed-UniqueIn env (normalized c email) locale r)
      (Keeps-throw _)

-- The operations of the visitors of a status page.
pub data Request : Type 0 where
  subscribing : (c : Addresses) (slug email locale : Text) → Request
  confirming unsubscribing : (token : Text) → Request

unfoldable pub serve : Env → Request → World → World
unfolding subscribe confirm unsubscribe
serve env (subscribing c slug email locale) w = (subscribe env c slug email locale w).1
serve env (confirming token) w = (confirm env token w).1
serve env (unsubscribing token) w = (unsubscribe env token w).1

abbrev pub served : List (Env × Request) → World → World
served [] w = w
served (r ∷ rs) w = served rs (serve r.0 r.1 w)

-- Whatever requests come, in whatever order and with whatever faults, from tables where a page and an
-- address, a confirmation token and an unsubscription token belong to one row at most, this stays so.
pub serve-IsUnique :
    (requests : List (Env × Request)) (w : World)
    → IsUnique w.db.subscribers
    → IsUnique (served requests w).db.subscribers
unfolding serve
serve-IsUnique [] w h = h
serve-IsUnique ((env, r) ∷ rs) w h = serve-IsUnique rs (serve env r w) (by_request r)
  where
    by_request : (r : Request) → IsUnique (serve env r w).db.subscribers
    by_request (subscribing c slug email locale) =
        (subscribe-UniqueIn env c slug email locale).at w h
    by_request (confirming token) = (confirm-UniqueIn env token).at w h
    by_request (unsubscribing token) = (unsubscribe-UniqueIn env token).at w h
