-- ===== src/Subscriptions/Notify.antt =====
-- Who gets the mail of an update, as one filter of the table.
use pingcast.Prelude.{
  String, Bool, true, false, ◌&&◌, Option, none, some, List, [], ◌∷◌, ◌++◌, map, keep, Text, ◌≡◌,
  refl, ◌∙◌, ap, arith, Bool-cases, inl, inr,
}
use mathlib.Core.List.{reverse, reverse-cons}
use pingcast.Error.{ok}
use pingcast.Domain.Subscriber.{StatusSubscriber}
use pingcast.Domain.Mail.{Mail}
use pingcast.Store.World.{World, Env, send_mail, list_subscribers}
use pingcast.Store.Exec.{◌>>=◌}
use pingcast.Store.Subscribers
use pingcast.Store.Subscribers.{is_reader, has_unsubscribe}
use pingcast.Subscriptions.{Notice, notice_mail, send, notify_each, notify_incident}

abbrev pub nothing : Option String → Bool
nothing none = true
nothing (some s) = false

-- The server takes the mail of the subscriber.
abbrev pub is_sendable : Env → StatusSubscriber → Bool
is_sendable env s = nothing (env.fault (send_mail s.id))

-- A confirmed subscriber of the page whose mail the server takes.
abbrev pub is_reached : Env → Text → StatusSubscriber → Bool
is_reached env slug s = is_reader slug s && is_sendable env s

-- The mails of an update to the rows, the latest first.
abbrev pub notices : Env → Text → Notice → List StatusSubscriber → List Mail
notices env slug n rows = map (notice_mail slug n) (keep (is_reached env slug) rows)

abbrev pub with_mails : List Mail → World → World
with_mails mails w = record w { mails = mails ++ w.mails }

keep-keep :
    {A : Type 0} (p q : A → Bool) (xs : List A) → keep q (keep p xs) ≡ keep (λ x. p x && q x) xs
keep-keep p q [] = refl
keep-keep p q (x ∷ xs) = ground (arith, keep-keep p q xs)

module _ (env : Env) (slug : Text) (n : Notice) where
  notify_each-append :
      (xs ys : List StatusSubscriber) (w : World)
      → notify_each env slug n (xs ++ ys) w
        ≡ notify_each env slug n ys (notify_each env slug n xs w).1
  unfolding notify_each ◌>>=◌
  notify_each-append [] ys w = refl
  notify_each-append (x ∷ xs) ys w =
      notify_each-append xs ys (send env x.id (notice_mail slug n x) w).1

  notify_each-one :
      (x : StatusSubscriber) (w : World)
      → notify_each env slug n (x ∷ []) w
        ≡ (ok tt, with_mails (map (notice_mail slug n) (keep (is_sendable env) (x ∷ []))) w)
  unfolding notify_each ◌>>=◌
  notify_each-one x w = ground arith

  notify_each-nil : (w : World) → notify_each env slug n [] w ≡ (ok tt, w)
  unfolding notify_each ◌>>=◌
  notify_each-nil w = refl

  notify_each-reverse :
      (xs : List StatusSubscriber) (w : World)
      → notify_each env slug n (reverse xs) w
        ≡ (ok tt, with_mails (map (notice_mail slug n) (keep (is_sendable env) xs)) w)
  notify_each-reverse [] w = notify_each-nil w
  notify_each-reverse (x ∷ xs) w =
      let w' = with_mails (map (notice_mail slug n) (keep (is_sendable env) xs)) w in
      ap (λ l. notify_each env slug n l w) (reverse-cons x xs)
      ∙ notify_each-append (reverse xs) (x ∷ []) w
      ∙ rw (notify_each-reverse xs w, notify_each-one x w')
          (elim (Bool-cases (is_sendable env x)) [ inl e ↦ rw e refl | inr e ↦ rw e refl ])

-- The mails of an update go to the confirmed subscribers of the page whose mail the server takes, to
-- each once in the order of the table, and to nobody else, whichever of the other mails fail; nothing
-- else changes, if the subscribers can be listed.
pub notify_incident-notices :
    (env : Env) (slug : Text) (n : Notice) (w : World)
    → env.fault list_subscribers ≡ none
    → notify_incident env slug n w ≡ (ok tt, with_mails (notices env slug n w.db.subscribers) w)
unfolding notify_incident ◌>>=◌ Subscribers.list_confirmed_by_slug
notify_incident-notices env slug n w f =
    rw
      (
        f,
        notify_each-reverse env slug n (keep (is_reader slug) w.db.subscribers) w,
        keep-keep (is_reader slug) (is_sendable env) w.db.subscribers,
      )
      refl
