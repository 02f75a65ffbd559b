-- ===== src/Domain/Subscriber.antt =====
-- internal/domain/status_subscriber.go and internal/domain/blog_subscriber.go.
use pingcast.Prelude.{ℕ, Bool, true, false, Option, none, some, Text}

pub record StatusSubscriber : Type 0 where
  pub id : ℕ
  pub slug : Text
  pub email : Text
  pub confirm_token : Text
  pub unsubscribe_token : Text
  pub confirmed_at : Option ℕ
  pub created_at : ℕ
  pub locale : Option Text

pub record BlogSubscriber : Type 0 where
  pub id : ℕ
  pub email : Text
  pub confirm_token : Text
  pub unsubscribe_token : Text
  pub confirmed_at : Option ℕ
  pub created_at : ℕ
  pub source : Option Text
  pub locale : Option Text

abbrev is_set : Option ℕ → Bool
is_set none = false
is_set (some t) = true

-- `StatusSubscriber.IsConfirmed` and `BlogSubscriber.IsConfirmed`.
abbrev pub is_confirmed : StatusSubscriber → Bool
is_confirmed s = is_set s.confirmed_at

abbrev pub is_confirmed_blog : BlogSubscriber → Bool
is_confirmed_blog s = is_set s.confirmed_at
