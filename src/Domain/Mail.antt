-- ===== src/Domain/Mail.antt =====
-- internal/app/email_templates.go: the mails of the application. A mail is kept as its template, its
-- language and the values that the template shows; a link is kept as its token.
use pingcast.Prelude.{if◌then◌else◌, Text, codes, text_eq}

pub data EmailLocale : Type 0 where
  en ru : EmailLocale

-- `toEmailLocale`: English, unless it is Russian.
unfoldable pub to_email_locale : Text → EmailLocale
to_email_locale s = if text_eq s (codes "ru") then ru else en

pub data Letter : Type 0 where
  blog_confirm : EmailLocale → (confirm_token : Text) → Letter
  status_subscribe_confirm : EmailLocale → (slug confirm_token : Text) → Letter
  incident_notify : EmailLocale → (slug headline state body unsubscribe_token : Text) → Letter

pub record Mail : Type 0 where
  pub to : Text
  pub letter : Letter
