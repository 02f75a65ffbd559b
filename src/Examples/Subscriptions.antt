-- ===== src/Examples/Subscriptions.antt =====
-- The theorems about subscribers of a status page, on sample tables.
use pingcast.Prelude.{
  ℕ, List, text_eq, false, ap, subst, none, some, [], ◌∷◌, ◌++◌, codes, ◌≡◌, refl, true,
}
use pingcast.Prelude.Strings.{trim_space, trim_left}
use pingcast.Error.{Result, ok, err}
use pingcast.Domain.Subscriber.{StatusSubscriber}
use pingcast.Store.World.{World, Env}
use pingcast.Store.Subscribers.{new_subscriber, confirmed}
use pingcast.Subscriptions.{
  Addresses, Notice, subscribe, confirm_letter, notice_mail, confirm, unsubscribe, notify_incident,
}
use pingcast.Subscriptions.Notify.{notices, with_mails, notify_incident-notices}
use pingcast.Subscriptions.Unique.{Request, served, subscribing, confirming}
use pingcast.Subscriptions.Settled.{Settled, served-Settled}
use pingcast.Accounts.Auth.{hex}
use pingcast.Subscriptions.Journey.{subscribe-confirm-unsubscribe}
use pingcast.Examples.Data.{env, failing}

-- Addresses as they are, and tokens of one byte.
abbrev addresses : Addresses
addresses = record { to_lower = λ s. s; is_address = λ s. true; read_random = λ n. ok (n ∷ []) }

abbrev reader : StatusSubscriber
reader = record {
  id = 1;
  slug = codes "ann";
  email = codes "r@example.org";
  confirm_token = codes "c1";
  unsubscribe_token = codes "u1";
  confirmed_at = some 20;
  created_at = 10;
  locale = some (codes "ru");
}

abbrev followed : World
followed = record failing {
  db = record failing.db { subscribers = reader ∷ []; next_subscriber = 2 };
}

abbrev notice : Notice
notice = record { headline = codes "Down"; state = codes "identified"; body = codes "We look" }

notify_incident-notices_example :
    notify_incident env (codes "ann") notice followed
    ≡ (ok tt, with_mails (notices env (codes "ann") notice (reader ∷ [])) followed)
notify_incident-notices_example = notify_incident-notices env (codes "ann") notice followed refl

differ :
    (a b : List ℕ)
    → addresses.read_random 0 ≡ ok a
    → addresses.read_random 1 ≡ ok b
    → text_eq (hex a) (hex b) ≡ false
differ a b p q =
    subst (λ x. text_eq (hex x) (hex b) ≡ false) (ap drawn p)
      (subst (λ y. text_eq (hex (0 ∷ [])) (hex y) ≡ false) (ap drawn q) refl)
  where
    drawn : Result (List ℕ) → List ℕ
    drawn (ok xs) = xs
    drawn (err e) = []

abbrev requests : List (Env × Request)
requests =
    (env, subscribing addresses (codes "ann") (codes "s@example.org") [])
    ∷ (env, confirming (codes "c1"))
    ∷ []

served-Settled_example : Settled (λ s. true) 1 20 (served requests followed)
served-Settled_example =
    served-Settled (λ s. true) 1 20 requests followed (((λ x. refl), differ), (tt, tt)) (refl, refl)

subscribe-confirm-unsubscribe_example :
    let s =
      new_subscriber env followed
        (codes "ann")
        (codes "s@example.org")
        (codes "00")
        (codes "01")
        none in
    let before = notices env (codes "ann") notice (reader ∷ []) in
    let w₁ = (subscribe env addresses (codes "ann") (codes "s@example.org") [] followed).1 in
    let w₂ = (confirm env (codes "00") w₁).1 in
    let w₃ = (unsubscribe env (codes "01") w₂).1 in
    ((subscribe env addresses (codes "ann") (codes "s@example.org") [] followed).0 ≡ ok tt)
    × (w₁.mails ≡ record { to = s.email; letter = confirm_letter [] s } ∷ [])
    × ((notify_incident env (codes "ann") notice w₁).1.mails ≡ before ++ w₁.mails)
    × ((confirm env (codes "00") w₁).0 ≡ ok (confirmed env s))
    × ((notify_incident env (codes "ann") notice w₂).1.mails
        ≡ notice_mail (codes "ann") notice (confirmed env s) ∷ before ++ w₁.mails)
    × ((unsubscribe env (codes "01") w₂).0 ≡ ok (confirmed env s))
    × ((notify_incident env (codes "ann") notice w₃).1.mails ≡ before ++ w₁.mails)
unfolding trim_space trim_left
subscribe-confirm-unsubscribe_example =
    subscribe-confirm-unsubscribe env addresses (codes "ann") (codes "s@example.org") [] notice
      (0 ∷ []) (1 ∷ []) followed (λ op. refl) refl refl refl refl
