-- ===== src/Http/Access/Gate.antt =====
-- What a request has when it gets through.
use pingcast.Prelude.{
  Bool, true, false, not, ◌||◌, if◌then◌else◌, Option, none, some, Text, codes, text_eq, ◌≡◌, refl,
  arith,
}
use pingcast.Error.{Result, ok, err}
use pingcast.Domain.User.{User, Plan, free, pro, requires_pro}
use pingcast.Store.World.{World, Env}
use pingcast.Domain.ApiKey.{ApiKey}
use pingcast.Store.Exec.{pure}
use pingcast.Store.Exec.Reads.{after_ok}
use pingcast.Http.Access
use pingcast.Http.Access.Outcomes.{
  Passes, Passes-next, Passes-if, Passes-then, Yields, Yields-pure, Yields-if, Yields-bind,
}
use pingcast.Http.Access.{
  Request, Outcome, Server, next, admit, auth_selector, auth_middleware, authenticate_with_api_key,
  authenticate_with_session, rate_limit_selector, unauthorized, forbidden_tenant, rate_limited,
  pro_required, pro_gate_selector, require_pro, pro_gated, needs_auth, then_run, required_scope,
}

-- The user is known where the path needs it.
abbrev pub IsKnown : Request → Option User → Type 0
IsKnown req u = needs_auth req.method req.path ≡ true → (user : User) × (u ≡ some user)

-- The user is known, and is on the plan of the route.
abbrev pub IsAdmitted : Request → Option User → Type 0
IsAdmitted req u =
    IsKnown req u
    × (pro_gated req.method req.path ≡ true → (user : User) × (u ≡ some user) × (user.plan ≡ pro))

limited-Passes :
    (P : Option User → Type 0) (srv : Server) (l : Access.Limiter) (b : Option Access.Bucket)
    (u : Option User)
    → P u
    → Passes P (Access.limited srv l b u)
limited-Passes P srv l none u h = Passes-next u h
limited-Passes P srv l (some b) u h = by_answer (srv.allow l b)
  where
    by_answer : (r : Result Bool) → Passes P (Access.allowed u r)
    by_answer (err e) = Passes-next u h
    by_answer (ok b) =
        Passes-if b (next u) rate_limited (Passes-next u h)
          (record { holds = λ u e. absurd (ground (arith, e)) })

rate_limit_selector-Passes :
    (P : Option User → Type 0) (srv : Server) (req : Request) (u : Option User)
    → P u
    → Passes P (rate_limit_selector srv req u)
unfolding rate_limit_selector
rate_limit_selector-Passes P srv req u h =
    let pass = Passes-next u h in
    let limit = λ (l : Access.Limiter) (b : Option Access.Bucket). limited-Passes P srv l b u h in
    let by_slug = limit Access.status (some (Access.by_ip_slug req.ip req.slug)) in
    Passes-if (not (Access.has_prefix req.path (codes "/api/"))) _ _ pass (
      Passes-if
        (text_eq req.path (codes "/api/auth/register")
          || text_eq req.path (codes "/api/auth/login"))
        _ _ pass
        (Passes-if (Access.has_prefix req.path (codes "/api/status/")) _ _ by_slug (
          Passes-if (text_eq req.path (codes "/api/stats/public")) _ _ by_slug (
            Passes-if (Access.has_prefix req.path (codes "/api/newsletter/")) _ _
              (limit Access.status (Access.ip_key req.ip))
              (Passes-if (Access.is_read req.method) _ _ (limit Access.read (Access.user_key u))
                (limit Access.write (Access.user_key u)))))))

require_pro-Passes :
    (u : Option User)
    → Passes (λ u. (user : User) × (u ≡ some user) × (user.plan ≡ pro)) (require_pro u)
unfolding require_pro requires_pro
require_pro-Passes none = record { holds = λ u e. absurd (ground (arith, e)) }
require_pro-Passes (some user) = Passes-pro user.plan refl
  where
    Passes-pro :
        (p : Plan)
        → user.plan ≡ p
        → Passes
            (λ u. (user : User) × (u ≡ some user) × (user.plan ≡ pro))
            (if requires_pro p then pro_required else next (some user))
    Passes-pro free e = record { holds = λ u e. absurd (ground (arith, e)) }
    Passes-pro pro e = Passes-next (some user) (user, refl, e)

pro_gate_selector-Passes :
    (req : Request) (u : Option User)
    → IsKnown req u
    → Passes (IsAdmitted req) (pro_gate_selector req u)
unfolding pro_gate_selector
pro_gate_selector-Passes req u h = by_test (pro_gated req.method req.path) refl
  where
    by_test :
        (b : Bool)
        → pro_gated req.method req.path ≡ b
        → Passes (IsAdmitted req) (if b then require_pro u else next u)
    by_test true e = record {
      holds = λ u' e'.
          let (user, same, on_pro) = (require_pro-Passes u).holds u' e' in
          (λ t. (user, same), λ t. (user, same, on_pro));
    }
    by_test false e = Passes-next u (h, λ t. absurd (ground (arith, e, t)))

abbrev HasUser : Option User → Type 0
HasUser u = (user : User) × (u ≡ some user)

abbrev Identifies : Outcome → Type 0
Identifies = Passes HasUser

refused : (b : Bool) → Identifies (unauthorized b)
refused b = record { holds = λ u e. absurd (ground (arith, e)) }

identified : (user : User) → Identifies (next (some user))
identified user = Passes-next (some user) (user, refl)

with_session-Yields : (r : Result User) → Yields Identifies (Access.with_session r)
with_session-Yields (err e) = Yields-pure _ (refused true)
with_session-Yields (ok user) = Yields-pure _ (identified user)

session-Yields : (env : Env) (req : Request) → Yields Identifies (authenticate_with_session env req)
unfolding authenticate_with_session
session-Yields env req =
    Yields-if (Access.is_empty req.session_id) _ _ (Yields-pure _ (refused false))
      (Yields-bind _ _ with_session-Yields)

for_owner-Yields :
    (env : Env) (srv : Server) (k : ApiKey) (r : Result User)
    → Yields Identifies (Access.for_owner env srv k r)
for_owner-Yields env srv k (err e) = Yields-pure _ (refused false)
for_owner-Yields env srv k (ok user) =
    Yields-if srv.touch_free _ _ (Yields-bind _ _ λ t. Yields-pure _ (identified user))
      (Yields-pure _ (identified user))

with_api_key-Yields :
    (env : Env) (srv : Server) (req : Request) (r : Result ApiKey)
    → Yields Identifies (Access.with_api_key env srv req r)
with_api_key-Yields env srv req (err e) = Yields-pure _ (refused false)
with_api_key-Yields env srv req (ok k) =
    Yields-if (Access.is_expired k env.now) _ _ (Yields-pure _ (refused false)) (
      Yields-if (not (Access.has_scope k (required_scope req.method req.path))) _ _
        (Yields-pure _ (record { holds = λ u e. absurd (ground (arith, e)) }))
        (Yields-bind _ _ (for_owner-Yields env srv k)))

auth_middleware-Yields :
    (env : Env) (srv : Server) (req : Request) → Yields Identifies (auth_middleware env srv req)
unfolding auth_middleware authenticate_with_api_key
auth_middleware-Yields env srv req = by_credential (Access.api_key_of req)
  where
    by_credential : (o : Option Text) → Yields Identifies (Access.by_credential env srv req o)
    by_credential none = session-Yields env req
    by_credential (some raw) = Yields-bind _ _ (with_api_key-Yields env srv req)

auth_selector-Yields :
    (env : Env) (srv : Server) (req : Request)
    → Yields (Passes (IsKnown req)) (auth_selector env srv req)
unfolding auth_selector
auth_selector-Yields env srv req = by_test (needs_auth req.method req.path) refl
  where
    by_test :
        (b : Bool)
        → needs_auth req.method req.path ≡ b
        → Yields
            (Passes (IsKnown req))
            (if b then auth_middleware env srv req else pure (next none))
    by_test true e = record {
      yields = λ w o h. record {
        holds = λ u e' t. ((auth_middleware-Yields env srv req).yields w o h).holds u e';
      };
    }
    by_test false e = Yields-pure _ (Passes-next none (λ t. absurd (ground (arith, e, t))))

-- Whoever gets through the middlewares of the API: on a path that needs authentication the handler
-- has a user, and on a route for Pro subscribers that user is on the plan `pro`, whatever the
-- database, the sessions and the limiters answer.
pub admit-IsAdmitted :
    (env : Env) (srv : Server) (req : Request) (w : World) (u : Option User)
    → (admit env srv req w).0 ≡ ok (next u)
    → IsAdmitted req u
unfolding admit
admit-IsAdmitted env srv req w u h = (all.yields w (next u) h).holds u refl
  where
    all : Yields (Passes (IsAdmitted req)) (admit env srv req)
    all = record {
      yields = λ w o.
          after_ok (λ r. Passes (IsAdmitted req) o) (auth_selector env srv req) _ w o
            λ a e h.
              (Yields-pure {Q = Passes (IsAdmitted req)} _ (
                  Passes-then (IsKnown req) (IsAdmitted req)
                    (then_run a (rate_limit_selector srv req)) (pro_gate_selector req)
                    (Passes-then (IsKnown req) (IsKnown req) a (rate_limit_selector srv req)
                      ((auth_selector-Yields env srv req).yields w a e)
                      (rate_limit_selector-Passes (IsKnown req) srv req))
                    (pro_gate_selector-Passes req))).yields
                _ o h;
    }
