-- ===== src/Domain/ApiKey.antt =====
-- internal/domain/apikey.go.
use pingcast.Prelude.{ℕ, ltb, Bool, Option, none, some, false, List, any, Text, text_eq}

pub record ApiKey : Type 0 where
  pub id : ℕ
  pub user_id : ℕ
  pub key_hash : Text
  pub name : Text
  pub scopes : List Text
  pub created_at : ℕ
  pub last_used_at : Option ℕ
  pub expires_at : Option ℕ

-- `now` is strictly after the time of expiry.
abbrev pub is_expired : ApiKey → ℕ → Bool
is_expired k now = elim k.expires_at [ none ↦ false | some t ↦ ltb t now ]

abbrev pub has_scope : ApiKey → Text → Bool
has_scope k scope = any (λ s. text_eq s scope) k.scopes
