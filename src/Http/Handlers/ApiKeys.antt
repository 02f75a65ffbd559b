-- ===== src/Http/Handlers/ApiKeys.antt =====
-- internal/adapter/http/server.go: the keys of the API that a user makes, lists and revokes.
pub mod Accepted
use pingcast.Prelude.{
  ℕ, zero, suc, ltb, ◌+◌, ◌-◌, ◌*◌, ◌/◌, ◌%◌, ◌||◌, Bool, true, false, if◌then◌else◌, Option, none,
  some, List, [], ◌∷◌, ◌++◌, map, Text, codes, is_empty,
}
use pingcast.Prelude.Int.{ℤ, pos, negsuc}
use pingcast.Error.{Error, Result, ok, err}
use pingcast.Domain.User.{User}
use pingcast.Domain.ApiKey.{ApiKey}
use pingcast.Store.World.{Env}
use pingcast.Store.Exec.{Exec, ◌>>=◌, pure, wrapping}
use pingcast.Store.ApiKeys
use pingcast.Accounts.Auth.{hex, given}
use pingcast.Http.Respond.{Response, answer, failure, validation_envelope}
use pingcast.Http.Handlers.{
  Libraries, require_user, parsed, write, served, created, succeeded, no_content,
}

-- The hash of a key in hexadecimal digits, and what the source of random bytes gives for 32 of them.
pub record KeyMaker : Type 0 where
  pub hash_key : Text → Text
  pub random_bytes : Result (List ℕ)

pub record ApiKeyView : Type 0 where
  pub id : ℕ
  pub name : Text
  pub scopes : List Text
  pub created_at : ℕ
  pub last_used_at : Option ℕ
  pub expires_at : Option ℕ

abbrev pub domain_api_key_to_api : ApiKey → ApiKeyView
domain_api_key_to_api k = record {
  id = k.id;
  name = k.name;
  scopes = k.scopes;
  created_at = k.created_at;
  last_used_at = k.last_used_at;
  expires_at = k.expires_at;
}

unfoldable pub list_api_keys_handler :
    Env → Libraries → Option User → Exec (Response (List ApiKeyView))
unfolding write
list_api_keys_handler env libs user = require_user user λ u.
    served (ApiKeys.list_by_user env u.id) (write libs.rendering)
      λ ks. succeeded (map domain_api_key_to_api ks)

pub record CreateApiKeyRequest : Type 0 where
  pub name : Text
  pub scopes : List Text
  pub expires_in_days : Option ℤ

pub record ApiKeyCreated : Type 0 where
  pub key : ApiKeyView
  pub raw_key : Text

abbrev pub raw_key_of : List ℕ → Text
raw_key_of bytes = codes "pc_live_" ++ hex bytes

-- `time.Duration(n) * 24 * time.Hour` in nanoseconds of 64 bits, where the upper half is negative.
abbrev pub duration_of_days : ℕ → ℕ
duration_of_days n = (n * 86400000000000) % 18446744073709551616

-- The time in seconds after such a duration; one before the epoch is 0.
abbrev pub add_duration : ℕ → ℕ → ℕ
add_duration now d =
    if ltb d 9223372036854775808
    then now + d / 1000000000
    else now - (18446744073709551616 - d) / 1000000000

-- A number of days that is not positive is no expiry.
abbrev pub expiry : ℕ → Option ℤ → Option ℕ
expiry now none = none
expiry now (some (pos zero)) = none
expiry now (some (pos (suc n))) = some (add_duration now (duration_of_days (suc n)))
expiry now (some (negsuc n)) = none

abbrev pub has_no_scopes : List Text → Bool
has_no_scopes [] = true
has_no_scopes (s ∷ ss) = false

abbrev pub new_key : Env → KeyMaker → User → CreateApiKeyRequest → List ℕ → ApiKey
new_key env maker u req bytes = record {
  id = 0;
  user_id = u.id;
  key_hash = maker.hash_key (raw_key_of bytes);
  name = req.name;
  scopes = req.scopes;
  created_at = 0;
  last_used_at = none;
  expires_at = expiry env.now req.expires_in_days;
}

unfoldable pub create_api_key_handler :
    Env
    → Libraries
    → KeyMaker
    → Option User
    → Option CreateApiKeyRequest
    → Exec (Response ApiKeyCreated)
unfolding write validation_envelope
create_api_key_handler env libs maker user body = require_user user λ u. parsed body λ req.
    if is_empty req.name || has_no_scopes req.scopes
    then pure (answer (failure (validation_envelope (codes "name and scopes required"))))
    else served (wrapping "generate api key: %w" (given maker.random_bytes)) (write libs.rendering)
        λ bytes.
          served (ApiKeys.create env (new_key env maker u req bytes)) (write libs.rendering)
            λ k. created (record { key = domain_api_key_to_api k; raw_key = raw_key_of bytes })

unfoldable pub revoke_api_key_handler :
    Env → Libraries → Option User → ℕ → Exec (Response (Unit {0}))
unfolding write
revoke_api_key_handler env libs user id =
    require_user user
      λ u. served (ApiKeys.delete env id u.id) (write libs.rendering) (λ _. no_content)
