-- ===== src/Subscriptions/Journey.antt =====
-- What becomes of one address: pending, confirmed, gone.
use pingcast.Prelude.{
  Bool, true, false, not, ◌&&◌, none, List, [], ◌∷◌, ◌++◌, count, any, keep, Text, text_eq_refl,
  ◌≡◌, refl, arith, ℕ, suc,
}
use pingcast.Prelude.Lists.Where.{untouched}
use pingcast.Error.{ok}
use pingcast.Domain.Subscriber.{StatusSubscriber, is_confirmed}
use pingcast.Store.World
use pingcast.Store.World.{World, Env, Op}
use pingcast.Store.Exec.{◌>>=◌}
use pingcast.Store.Subscribers
use pingcast.Store.Subscribers.{
  is_subscription, has_confirm, has_unsubscribe, clashes, is_pending, confirmed, new_subscriber,
  with_rows,
}
use pingcast.Accounts.Auth.{hex}
use pingcast.Subscriptions.{
  Addresses, Notice, subscribe, normalized, rand_token, welcomed, send, locale_ptr, confirm_letter,
  notice_mail, notify_incident, confirm, unsubscribe,
}
use pingcast.Subscriptions.Notify.{notices, notify_incident-notices}
use pingcast.Subscriptions.Unique.{any-or_left}

count-and :
    {A : Type 0} (p q : A → Bool) (xs : List A) → count p xs ≡ 0 → count (λ x. p x && q x) xs ≡ 0
count-and p q [] h = refl
count-and p q (x ∷ xs) h = ground (arith, count-and p q xs)

keep-not :
    {A : Type 0} (p : A → Bool) (xs : List A) → count p xs ≡ 0 → keep (λ x. not (p x)) xs ≡ xs
keep-not p [] h = refl
keep-not p (x ∷ xs) h = ground (arith, keep-not p xs)

-- The world after the form was sent, after the link of the confirmation, after that of the end.
abbrev joined : Env → Text → StatusSubscriber → World → World
joined env locale s w = record w {
  db = record w.db {
    subscribers = s ∷ w.db.subscribers;
    next_subscriber = suc w.db.next_subscriber;
  };
  mails = record { to = s.email; letter = confirm_letter locale s } ∷ w.mails;
}

module _ (env : Env) (quiet : (op : Op) → env.fault op ≡ none) where
  subscribe-joined :
      (c : Addresses) (slug email locale : Text) (a b : List ℕ) (w : World)
      → c.is_address (normalized c email) ≡ true
      → c.read_random 0 ≡ ok a
      → c.read_random 1 ≡ ok b
      → any (clashes slug (normalized c email) (hex a) (hex b)) w.db.subscribers ≡ false
      → subscribe env c slug email locale w ≡ (
        ok tt,
        joined env locale
            (new_subscriber env w slug (normalized c email) (hex a) (hex b) (locale_ptr locale))
            w,
      )
  unfolding subscribe rand_token ◌>>=◌ welcomed send Subscribers.create
  subscribe-joined c slug email locale a b w v ha hb free =
      rw
        (
          v,
          ha,
          hb,
          quiet World.Op.create_subscriber,
          free,
          quiet (World.Op.send_mail w.db.next_subscriber),
        )
        refl

  confirm-joined :
      (s : StatusSubscriber) (rows : List StatusSubscriber) (w : World)
      → w.db.subscribers ≡ s ∷ rows
      → s.confirmed_at ≡ none
      → count (has_confirm s.confirm_token) rows ≡ 0
      → confirm env s.confirm_token w ≡ (ok (confirmed env s), with_rows (confirmed env s ∷ rows) w)
  unfolding confirm Subscribers.confirm ◌>>=◌
  confirm-joined s rows w e p h = ground (
    arith,
    quiet World.Op.confirm_subscriber,
    e,
    text_eq_refl s.confirm_token,
    p,
    untouched (is_pending s.confirm_token) (confirmed env) rows
        (count-and (has_confirm s.confirm_token) (λ x. not (is_confirmed x)) rows h),
  )

  unsubscribe-joined :
      (s : StatusSubscriber) (rows : List StatusSubscriber) (w : World)
      → w.db.subscribers ≡ s ∷ rows
      → count (has_unsubscribe s.unsubscribe_token) rows ≡ 0
      → unsubscribe env s.unsubscribe_token w ≡ (ok s, with_rows rows w)
  unfolding unsubscribe Subscribers.unsubscribe ◌>>=◌
  unsubscribe-joined s rows w e h = ground (
    arith,
    quiet World.Op.remove_subscriber,
    e,
    text_eq_refl s.unsubscribe_token,
    keep-not (has_unsubscribe s.unsubscribe_token) rows h,
  )

-- The journey of an address that is new to a page, with fresh tokens and when no call fails: the form
-- answers ok and mails the confirmation token to it, an update that follows mails the readers from
-- before and not it; the token confirms it, and then an update mails it first; its token for the end
-- removes it, and an update mails the readers from before again.
pub subscribe-confirm-unsubscribe :
    (env : Env) (c : Addresses) (slug email locale : Text) (n : Notice) (a b : List ℕ) (w : World)
    → ((op : Op) → env.fault op ≡ none)
    → c.is_address (normalized c email) ≡ true
    → c.read_random 0 ≡ ok a
    → c.read_random 1 ≡ ok b
    → any (clashes slug (normalized c email) (hex a) (hex b)) w.db.subscribers ≡ false
    → let s = new_subscriber env w slug (normalized c email) (hex a) (hex b) (locale_ptr locale) in
      let before = notices env slug n w.db.subscribers in
      let w₁ = (subscribe env c slug email locale w).1 in
      let w₂ = (confirm env (hex a) w₁).1 in
      let w₃ = (unsubscribe env (hex b) w₂).1 in
      ((subscribe env c slug email locale w).0 ≡ ok tt)
      × (w₁.mails ≡ record { to = s.email; letter = confirm_letter locale s } ∷ w.mails)
      × ((notify_incident env slug n w₁).1.mails ≡ before ++ w₁.mails)
      × ((confirm env (hex a) w₁).0 ≡ ok (confirmed env s))
      × ((notify_incident env slug n w₂).1.mails
          ≡ notice_mail slug n (confirmed env s) ∷ before ++ w₁.mails)
      × ((unsubscribe env (hex b) w₂).0 ≡ ok (confirmed env s))
      × ((notify_incident env slug n w₃).1.mails ≡ before ++ w₁.mails)
subscribe-confirm-unsubscribe env c slug email locale n a b w quiet v ha hb free =
    let s = new_subscriber env w slug (normalized c email) (hex a) (hex b) (locale_ptr locale) in
    let rows = w.db.subscribers in
    let (_, fresh_a, fresh_b) =
      any-or_left (is_subscription slug (normalized c email)) (has_confirm (hex a))
        (has_unsubscribe (hex b)) rows free in
    let w' = joined env locale s w in
    let w'' = with_rows (confirmed env s ∷ rows) w' in
    let f = quiet World.Op.list_subscribers in
    rw
      (
        subscribe-joined env quiet c slug email locale a b w v ha hb free,
        confirm-joined env quiet s rows w' refl refl fresh_a,
        unsubscribe-joined env quiet (confirmed env s) rows w'' refl fresh_b,
        notify_incident-notices env slug n w' f,
        notify_incident-notices env slug n w'' f,
        notify_incident-notices env slug n (with_rows rows w'') f,
        text_eq_refl slug,
        quiet (World.Op.send_mail w.db.next_subscriber),
      )
      (refl, refl, refl, refl, refl, refl, refl)
