-- ===== src/Http/Handlers.antt =====
-- What the handlers of internal/adapter/http share: the user, the body, and the answer to an error.
pub mod Monitors
pub mod Channels
pub mod ApiKeys
pub mod Account
pub mod Incidents
pub mod Groups
pub mod Tenants
pub mod Surprises
use pingcast.Prelude.{ℕ, Bool, if◌then◌else◌, Option, none, some, Text}
use pingcast.Error.{Error, Result, ok, err, forbidden, is_err}
use pingcast.Domain.User.{User}
use pingcast.Domain.Redaction.{Json}
use pingcast.Store.Exec.{Exec, ◌>>=◌, pure, attempt}
use pingcast.Http.Respond.{
  Rendering, Envelope, Response, answer, json, bare, failure, classify, unauthorized_envelope,
  malformed_json_envelope, forbidden_envelope,
}

-- The libraries that the handlers call.
pub record Libraries : Type 0 where
  pub rendering : Rendering
  pub json : Json

-- `requireUser`: without a user the answer is written, and the handler stops.
unfoldable pub require_user :
    {B : Type 0} → Option User → (User → Exec (Response B)) → Exec (Response B)
unfolding unauthorized_envelope
require_user none f = pure (answer (failure unauthorized_envelope))
require_user (some user) f = f user

-- `c.BodyParser(&req)`: what the parser gave, where `none` is an error.
unfoldable pub parsed : {B R : Type 0} → Option R → (R → Exec (Response B)) → Exec (Response B)
unfolding malformed_json_envelope
parsed none f = pure (answer (failure malformed_json_envelope))
parsed (some req) f = f req

-- `httperr.Write(c, err)`.
unfoldable pub write : {B : Type 0} → Rendering → Error → Response B
unfolding classify
write r e = answer (failure (classify r e))

-- An error that is `ErrForbidden` has an answer of its own.
unfoldable pub write_or_forbidden : {B : Type 0} → Rendering → Error → Response B
unfolding write forbidden_envelope
write_or_forbidden r e =
    if is_err e forbidden then answer (failure forbidden_envelope) else write r e

abbrev pub by_result :
    {A B : Type 0} → (Error → Response B) → (A → Exec (Response B)) → Result A → Exec (Response B)
by_result on_error on_success (ok a) = on_success a
by_result on_error on_success (err e) = pure (on_error e)

-- A call of a service: the answer to its error, or the handler goes on.
abbrev pub served :
    {A B : Type 0} → Exec A → (Error → Response B) → (A → Exec (Response B)) → Exec (Response B)
served m on_error on_success = attempt m >>= by_result on_error on_success

abbrev pub created : {B : Type 0} → B → Exec (Response B)
created b = pure (answer (json 201 b))

abbrev pub succeeded : {B : Type 0} → B → Exec (Response B)
succeeded b = pure (answer (json 200 b))

abbrev pub no_content : {B : Type 0} → Exec (Response B)
no_content = pure (answer (bare 204))
