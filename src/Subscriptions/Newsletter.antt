-- ===== src/Subscriptions/Newsletter.antt =====
-- internal/app/blog_subscription.go: the newsletter.
use pingcast.Prelude.{ℕ, Option, Text, if◌then◌else◌}
use pingcast.Error.{errorf, Result, ok, err}
use pingcast.Domain.Subscriber.{BlogSubscriber}
use pingcast.Domain.Mail.{to_email_locale, blog_confirm}
use pingcast.Store.World.{Env}
use pingcast.Store.Exec.{Exec, ◌>>=◌, ◌>>◌, pure, throw, attempt}
use pingcast.Store.BlogSubscribers
use pingcast.Subscriptions.{Addresses, rand_token, normalized, locale_ptr, send}

-- What follows the insertion: an error is taken for a duplicate, and an error of the mail is logged.
unfoldable pub welcomed : Env → Text → Text → Result BlogSubscriber → Exec (Unit {0})
unfolding send
welcomed env email locale (err e) = pure tt
welcomed env email locale (ok s) = do
  attempt (
      send env s.id
        (record { to = email; letter = blog_confirm (to_email_locale locale) s.confirm_token }))
  pure tt

unfoldable pub subscribe : Env → Addresses → Text → Option Text → Text → Exec (Unit {0})
unfolding rand_token
subscribe env c email source locale =
    if c.is_address (normalized c email)
    then (do
      confirm_token ← rand_token c 0
      unsubscribe_token ← rand_token c 1
      r ← attempt (
          BlogSubscribers.create env (normalized c email) confirm_token unsubscribe_token source
            (locale_ptr locale))
      welcomed env (normalized c email) locale r)
    else throw (errorf "invalid email")

unfoldable pub confirm : Env → Text → Exec BlogSubscriber
confirm env token = BlogSubscribers.confirm env token

unfoldable pub unsubscribe : Env → Text → Exec BlogSubscriber
unsubscribe env token = BlogSubscribers.unsubscribe env token

unfoldable pub count_readers : Env → Exec ℕ
count_readers env = BlogSubscribers.count_confirmed env
