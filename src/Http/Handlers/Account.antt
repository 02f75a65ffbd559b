-- ===== src/Http/Handlers/Account.antt =====
-- internal/adapter/http/server.go: signing up, in and out, the user's own settings, and the two public counters
-- that the process keeps for a while. The limiters count in Redis: what they answer is an argument.
use pingcast.Prelude.{ℕ, ◌+◌, ltb, Bool, true, false, if◌then◌else◌, Option, none, Text, is_empty}
use pingcast.Error.{Result, ok, err, wrap}
use pingcast.Domain.User.{User, Plan}
use pingcast.Store.World.{Env, Branding}
use pingcast.Store.Exec.{Exec, ◌>>=◌, ◌>>◌, pure, attempt, wrapping}
use pingcast.Store.Users
use pingcast.Accounts.Auth.{Crypto, register, login, logout}
use pingcast.Accounts.Billing.{FounderStatus, founder_status}
use pingcast.Http.Respond.{
  Rendering, Response, answer, json, bare, failure, cleared, set_to, unauthorized_envelope,
  rate_limited_response,
}
use pingcast.Http.Handlers.{Libraries, require_user, parsed, write, served, succeeded}

pub record AuthResponse : Type 0 where
  pub user : User
  pub session_id : Text

-- The answer of a limiter: an error is answered as one, and a caller above the limit is told to wait.
abbrev pub limited : {B : Type 0} → Rendering → Result Bool → Exec (Response B) → Exec (Response B)
unfolding write rate_limited_response
limited r (err e) m = pure (write r (wrap "rate limiter: %w" e))
limited r (ok false) m = pure (rate_limited_response 60)
limited r (ok true) m = m

-- The answer with the cookie of the new session.
abbrev pub signed_in : ℕ → User × Text → Response AuthResponse
signed_in status (user, session) = record {
  reply = json status (record { user = user; session_id = session });
  cookie = set_to session;
  retry_after = none;
}

pub record RegisterRequest : Type 0 where
  pub email : Text
  pub slug : Text
  pub password : Text

unfoldable pub register_handler :
    Env → Libraries → Crypto → Result Bool → Option RegisterRequest → Exec (Response AuthResponse)
unfolding write rate_limited_response
register_handler env libs c allowed body = parsed body λ req. limited libs.rendering allowed (
    served (register env c req.email req.slug req.password) (write libs.rendering)
      λ p. pure (signed_in 201 p))

pub record LoginRequest : Type 0 where
  pub email : Text
  pub password : Text

-- On success the counter of the limiter is cleared, and its error ignored.
unfoldable pub login_handler :
    Env → Libraries → Crypto → Result Bool → Option LoginRequest → Exec (Response AuthResponse)
unfolding write rate_limited_response unauthorized_envelope
login_handler env libs c allowed body = parsed body λ req. limited libs.rendering allowed (
    served (login env c req.email req.password) (λ e. answer (failure unauthorized_envelope))
      λ p. pure (signed_in 200 p))

-- The session is that of the cookie. An error of the deletion is logged.
unfoldable pub logout_handler : Env → Text → Exec (Response (Unit {0}))
unfolding unauthorized_envelope
logout_handler env session_id =
    if is_empty session_id then pure (answer (failure unauthorized_envelope)) else (do
      attempt (logout env session_id)
      pure (record { reply = bare 204; cookie = cleared; retry_after = none }))

pub record MeResponse : Type 0 where
  pub id : ℕ
  pub email : Text
  pub slug : Text
  pub plan : Plan

unfoldable pub get_me_handler : Option User → Exec (Response MeResponse)
get_me_handler user =
    require_user user
      λ u. succeeded (record { id = u.id; email = u.email; slug = u.slug; plan = u.plan })

unfoldable pub get_my_branding_handler : Env → Libraries → Option User → Exec (Response Branding)
unfolding write
get_my_branding_handler env libs user =
    require_user user λ u. served (Users.get_branding env u.id) (write libs.rendering) succeeded

unfoldable pub update_my_branding_handler :
    Env → Libraries → Option User → Option Branding → Exec (Response Branding)
unfolding write
update_my_branding_handler env libs user body = require_user user λ u.
    parsed body
      λ b. served (Users.update_branding env u.id b) (write libs.rendering) λ _. succeeded b

-- A value that the process keeps until a time.
pub record Memo (A : Type 0) : Type 0 where
  pub value : A
  pub expires : ℕ

abbrev pub kept_or :
    {A B : Type 0}
    → Memo A
    → ℕ
    → Exec (Response B × Memo A)
    → (A → Response B)
    → Exec (Response B × Memo A)
kept_or memo now m f = if ltb now memo.expires then pure (f memo.value, memo) else m

abbrev pub refreshed :
    {A B : Type 0}
    → Rendering
    → Memo A
    → ℕ
    → (A → Response B)
    → Result A
    → Exec (Response B × Memo A)
unfolding write
refreshed r memo until f (err e) = pure (write r e, memo)
refreshed r memo until f (ok a) = pure (f a, record { value = a; expires = until })

unfoldable pub get_founder_status_handler :
    Env → Libraries → ℕ → Memo FounderStatus → Exec (Response FounderStatus × Memo FounderStatus)
unfolding write
get_founder_status_handler env libs cap memo =
    kept_or memo env.now
      (attempt (wrapping "get founder status: %w" (founder_status env cap))
        >>= refreshed libs.rendering memo (env.now + 60) (λ s. answer (json 200 s)))
      (λ s. answer (json 200 s))

-- The three counters of `port.PublicStats`, which the query of the statistics gives.
pub record PublicStats : Type 0 where
  pub monitors_count : ℕ
  pub incidents_resolved : ℕ
  pub public_status_pages : ℕ

unfoldable pub get_public_stats_handler :
    Env
    → Libraries
    → Exec PublicStats
    → Memo PublicStats
    → Exec (Response PublicStats × Memo PublicStats)
unfolding write
get_public_stats_handler env libs get_public memo =
    kept_or memo env.now
      (attempt (wrapping "get public stats: %w" get_public)
        >>= refreshed libs.rendering memo (env.now + 300) (λ s. answer (json 200 s)))
      (λ s. answer (json 200 s))
