-- ===== src/Subscriptions.antt =====
-- internal/app/subscription.go: the readers of a status page who get mails about its incidents. The
-- regular expression of the address, `strings.ToLower` and the source of randomness are libraries,
-- and arguments here; what is logged is left out.
pub mod Notify
pub mod Unique
pub mod Settled
pub mod Silent
pub mod Journey
pub mod Newsletter
use pingcast.Prelude.{
  ℕ, Option, none, some, List, [], ◌∷◌, Text, trim_space, is_empty, Bool, if◌then◌else◌,
}
use pingcast.Error.{errorf, Result, ok, err}
use pingcast.Domain.Subscriber.{StatusSubscriber}
use pingcast.Domain.Mail.{
  Mail, Letter, EmailLocale, to_email_locale, status_subscribe_confirm, incident_notify,
}
use pingcast.Store.World.{World, Env, send_mail}
use pingcast.Store.Exec.{Exec, ◌>>=◌, ◌>>◌, pure, throw, call, attempt}
use pingcast.Store.Subscribers
use pingcast.Accounts.Auth.{hex, given}

-- `read_random n` is what the `n`-th read of 24 bytes in this call gives.
pub record Addresses : Type 0 where
  pub to_lower : Text → Text
  pub is_address : Text → Bool
  pub read_random : ℕ → Result (List ℕ)

unfoldable pub rand_token : Addresses → ℕ → Exec Text
rand_token c n = given (c.read_random n) >>= λ b. pure (hex b)

abbrev pub normalized : Addresses → Text → Text
normalized c email = c.to_lower (trim_space email)

abbrev pub locale_ptr : Text → Option Text
locale_ptr locale = if is_empty locale then none else some locale

-- `mailer.Send`: a mail that is handed to the SMTP server.
unfoldable pub send : Env → ℕ → Mail → Exec (Unit {0})
send env id m = call env (send_mail id) λ w. (ok tt, record w { mails = m ∷ w.mails })

abbrev pub confirm_letter : Text → StatusSubscriber → Letter
confirm_letter locale s = status_subscribe_confirm (to_email_locale locale) s.slug s.confirm_token

-- What follows the insertion: an error is taken for a duplicate, and an error of the mail is logged.
unfoldable pub welcomed : Env → Text → Text → Result StatusSubscriber → Exec (Unit {0})
unfolding send
welcomed env email locale (err e) = pure tt
welcomed env email locale (ok s) = do
  attempt (send env s.id (record { to = email; letter = confirm_letter locale s }))
  pure tt

unfoldable pub subscribe : Env → Addresses → Text → Text → Text → Exec (Unit {0})
subscribe env c slug email locale =
    if c.is_address (normalized c email)
    then (do
      confirm_token ← rand_token c 0
      unsubscribe_token ← rand_token c 1
      r ← attempt (
          Subscribers.create env slug (normalized c email) confirm_token unsubscribe_token
            (locale_ptr locale))
      welcomed env (normalized c email) locale r)
    else throw (errorf "invalid email")

unfoldable pub confirm : Env → Text → Exec StatusSubscriber
confirm env token = Subscribers.confirm env token

unfoldable pub unsubscribe : Env → Text → Exec StatusSubscriber
unsubscribe env token = Subscribers.unsubscribe env token

-- An update of an incident, as the mails show it.
pub record Notice : Type 0 where
  pub headline : Text
  pub state : Text
  pub body : Text

abbrev language : StatusSubscriber → EmailLocale
language s = elim s.locale [ none ↦ to_email_locale [] | some l ↦ to_email_locale l ]

abbrev pub notice_mail : Text → Notice → StatusSubscriber → Mail
notice_mail slug n s = record {
  to = s.email;
  letter = incident_notify (language s) slug n.headline n.state n.body s.unsubscribe_token;
}

-- The loop over the subscribers: an error of one mail does not stop it.
unfoldable pub notify_each : Env → Text → Notice → List StatusSubscriber → Exec (Unit {0})
unfolding send
notify_each env slug n [] = pure tt
notify_each env slug n (s ∷ ss) = do
  attempt (send env s.id (notice_mail slug n s))
  notify_each env slug n ss

abbrev notify_listed : Env → Text → Notice → Result (List StatusSubscriber) → Exec (Unit {0})
notify_listed env slug n (err e) = pure tt
notify_listed env slug n (ok ss) = notify_each env slug n ss

unfoldable pub notify_incident : Env → Text → Notice → Exec (Unit {0})
notify_incident env slug n = do
  r ← attempt (Subscribers.list_confirmed_by_slug env slug)
  notify_listed env slug n r
