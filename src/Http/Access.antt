-- ===== src/Http/Access.antt =====
-- internal/adapter/http/middleware.go, middleware_pro.go, ratelimit_mw.go and the selectors of setup.go:
-- who gets through to a handler of the API. The hash of a key is a library, and the limiters are a
-- service: both are arguments here, and whether a goroutine is free to touch a key.
pub mod Key
pub mod Gate
pub mod Outcomes
use pingcast.Prelude.{
  ℕ, Bool, true, false, not, ◌&&◌, ◌||◌, if◌then◌else◌, Option, none, some, ◌++◌, Text, codes,
  text_eq, is_empty,
}
use pingcast.Prelude.Strings.{cut_prefix, has_prefix, has_suffix}
use pingcast.Error.{Result, ok, err}
use pingcast.Domain.User.{User, requires_pro}
use pingcast.Domain.ApiKey.{ApiKey, is_expired, has_scope}
use pingcast.Store.World.{Env}
use pingcast.Store.Exec.{Exec, ◌>>=◌, ◌>>◌, pure, attempt}
use pingcast.Store.Users
use pingcast.Store.ApiKeys
use pingcast.Accounts.Auth.{validate_session}

pub record Request : Type 0 where
  pub method : Text
  pub path : Text
  pub authorization : Text
  pub session_id : Text
  pub ip : Text
  pub slug : Text

-- What a middleware does: it answers, or passes on with the user that it knows.
pub data Outcome : Type 0 where
  unauthorized : (clears_cookie : Bool) → Outcome
  forbidden_tenant rate_limited pro_required : Outcome
  next : Option User → Outcome

pub data Limiter : Type 0 where
  status read write : Limiter

-- The key of a bucket.
pub data Bucket : Type 0 where
  by_user : ℕ → Bucket
  by_ip : Text → Bucket
  by_ip_slug : (ip slug : Text) → Bucket

pub record Server : Type 0 where
  pub hash_key : Text → Text
  pub touch_free : Bool
  pub allow : Limiter → Bucket → Result Bool

abbrev is_read : Text → Bool
is_read method = text_eq method (codes "GET") || text_eq method (codes "HEAD")

unfoldable pub required_scope : Text → Text → Text
required_scope method path =
    let resource =
      if has_prefix path (codes "/api/channels")
      then codes "channels"
      else if has_prefix path (codes "/api/incidents")
      then codes "incidents"
      else codes "monitors" in
    if is_read method then resource ++ codes ":read" else resource ++ codes ":write"

-- An error of the touch, which runs in the background, is logged.
abbrev touched : Env → Server → ApiKey → User → Exec Outcome
touched env srv k user =
    if srv.touch_free
    then (do attempt (ApiKeys.touch env k.id); pure (next (some user)))
    else pure (next (some user))

abbrev for_owner : Env → Server → ApiKey → Result User → Exec Outcome
for_owner env srv k (err e) = pure (unauthorized false)
for_owner env srv k (ok user) = touched env srv k user

abbrev with_api_key : Env → Server → Request → Result ApiKey → Exec Outcome
with_api_key env srv req (err e) = pure (unauthorized false)
with_api_key env srv req (ok k) =
    if is_expired k env.now
    then pure (unauthorized false)
    else if not (has_scope k (required_scope req.method req.path))
    then pure forbidden_tenant
    else (do user ← attempt (Users.get_by_id env k.user_id); for_owner env srv k user)

unfoldable pub authenticate_with_api_key : Env → Server → Request → Text → Exec Outcome
unfolding required_scope
authenticate_with_api_key env srv req raw_key = do
  k ← attempt (ApiKeys.get_by_hash env (srv.hash_key raw_key))
  with_api_key env srv req k

abbrev with_session : Result User → Exec Outcome
with_session (err e) = pure (unauthorized true)
with_session (ok user) = pure (next (some user))

unfoldable pub authenticate_with_session : Env → Request → Exec Outcome
authenticate_with_session env req =
    if is_empty req.session_id
    then pure (unauthorized false)
    else (do user ← attempt (validate_session env req.session_id); with_session user)

-- The key behind `Bearer `, if it looks like one of ours.
abbrev live_key : Option Text → Option Text
live_key none = none
live_key (some raw) = if has_prefix raw (codes "pc_live_") then some raw else none

abbrev pub api_key_of : Request → Option Text
api_key_of req = live_key (cut_prefix req.authorization (codes "Bearer "))

abbrev by_credential : Env → Server → Request → Option Text → Exec Outcome
by_credential env srv req none = authenticate_with_session env req
by_credential env srv req (some raw_key) = authenticate_with_api_key env srv req raw_key

unfoldable pub auth_middleware : Env → Server → Request → Exec Outcome
unfolding authenticate_with_api_key authenticate_with_session
auth_middleware env srv req = by_credential env srv req (api_key_of req)

-- The test of `authMiddlewareSelector`: the path is one of the API that is not public.
unfoldable pub needs_auth : Text → Text → Bool
needs_auth method path =
    has_prefix path (codes "/api/")
    && not (
        text_eq path (codes "/api/auth/register")
        || text_eq path (codes "/api/auth/login")
        || text_eq path (codes "/api/stats/public")
        || text_eq path (codes "/api/billing/founder-status")
        || text_eq path (codes "/api/public/lookup-domain")
        || has_prefix path (codes "/api/newsletter/")
        || (has_prefix path (codes "/api/status/") && not (text_eq path (codes "/api/status/"))))
    && not (
        text_eq method (codes "GET")
        && has_prefix path (codes "/api/incidents/")
        && has_suffix path (codes "/updates"))

unfoldable pub auth_selector : Env → Server → Request → Exec Outcome
unfolding auth_middleware needs_auth
auth_selector env srv req =
    if needs_auth req.method req.path then auth_middleware env srv req else pure (next none)

-- An error of the limiter lets the request through.
abbrev allowed : Option User → Result Bool → Outcome
allowed user (err e) = next user
allowed user (ok b) = if b then next user else rate_limited

abbrev limited : Server → Limiter → Option Bucket → Option User → Outcome
limited srv l none user = next user
limited srv l (some b) user = allowed user (srv.allow l b)

abbrev user_key : Option User → Option Bucket
user_key none = none
user_key (some u) = some (by_user u.id)

abbrev ip_key : Text → Option Bucket
ip_key ip = if is_empty ip then none else some (by_ip ip)

unfoldable pub rate_limit_selector : Server → Request → Option User → Outcome
rate_limit_selector srv req user =
    if not (has_prefix req.path (codes "/api/"))
    then next user
    else if text_eq req.path (codes "/api/auth/register")
        || text_eq req.path (codes "/api/auth/login")
    then next user
    else if has_prefix req.path (codes "/api/status/")
    then limited srv status (some (by_ip_slug req.ip req.slug)) user
    else if text_eq req.path (codes "/api/stats/public")
    then limited srv status (some (by_ip_slug req.ip req.slug)) user
    else if has_prefix req.path (codes "/api/newsletter/")
    then limited srv status (ip_key req.ip) user
    else if is_read req.method
    then limited srv read (user_key user) user
    else limited srv write (user_key user) user

unfoldable pub require_pro : Option User → Outcome
unfolding requires_pro
require_pro none = unauthorized false
require_pro (some u) = if requires_pro u.plan then pro_required else next (some u)

-- The routes of `proGateSelector`.
unfoldable pub pro_gated : Text → Text → Bool
pro_gated method path =
    (text_eq method (codes "POST") && text_eq path (codes "/api/incidents"))
    || (text_eq method (codes "PATCH") && text_eq path (codes "/api/me/branding"))
    || (text_eq path (codes "/api/maintenance-windows") && text_eq method (codes "POST"))
    || (has_prefix path (codes "/api/maintenance-windows/") && text_eq method (codes "DELETE"))
    || (text_eq method (codes "PATCH")
        && has_prefix path (codes "/api/incidents/")
        && has_suffix path (codes "/state"))
    || (text_eq method (codes "POST") && text_eq path (codes "/api/import/atlassian"))
    || (text_eq path (codes "/api/custom-domains") && text_eq method (codes "POST"))
    || (has_prefix path (codes "/api/custom-domains/") && text_eq method (codes "DELETE"))

unfoldable pub pro_gate_selector : Request → Option User → Outcome
unfolding require_pro pro_gated
pro_gate_selector req user = if pro_gated req.method req.path then require_pro user else next user

-- A middleware that runs after another one.
abbrev pub then_run : Outcome → (Option User → Outcome) → Outcome
then_run (next user) m = m user
then_run o m = o

-- The middlewares of the API in the order in which they are registered.
unfoldable pub admit : Env → Server → Request → Exec Outcome
unfolding auth_selector rate_limit_selector pro_gate_selector
admit env srv req = do
  o ← auth_selector env srv req
  pure (then_run (then_run o (rate_limit_selector srv req)) (pro_gate_selector req))
