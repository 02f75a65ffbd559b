-- ===== src/Accounts/Auth.antt =====
-- internal/app/auth.go. The password hash (bcrypt), the source of randomness and the parser of
-- e-mail addresses are libraries, and arguments here. The comparison with a dummy hash, which only
-- takes time, is left out.
pub mod Token
pub mod Session
pub mod Register
use pingcast.Prelude.{
  ℕ, ◌+◌, ◌/◌, ◌%◌, ltb, leb, ◌==◌, Bool, not, ◌&&◌, ◌||◌, if◌then◌else◌, Option, none, some, List,
  [], ◌∷◌, all, any, length, Text, codes, text_eq, byte_len,
}
use pingcast.Error.{
  Error, errorf, wrap, user_exists, is_err, new_validation_error, slug_invalid, slug_reserved,
  password_too_short, password_too_long, Result, ok, err,
}
use pingcast.Domain.User.{User, free, pro}
use pingcast.Domain.Validate.{validate_email}
use pingcast.Store.World.{World, Env, UserRow}
use pingcast.Store.Exec.{Exec, ◌>>=◌, ◌>>◌, pure, throw, check, wrapping, attempt}
use pingcast.Store.Users
use pingcast.Store.Sessions

pub record Crypto : Type 0 where
  pub hash_password : Text → Result Text
  pub check_password : Text → Text → Bool
  pub read_random : ℕ → Result (List ℕ)
  pub parses_address : Text → Bool

-- Thirty days.
abbrev pub session_duration : ℕ
session_duration = 2592000

-- `[a-z0-9-]`.
abbrev slug_char : ℕ → Bool
slug_char c = (leb 97 c && leb c 122) || (leb 48 c && leb c 57) || c == 45

abbrev reserved_slugs : List Text
reserved_slugs =
    codes "login"
    ∷ codes "logout"
    ∷ codes "register"
    ∷ codes "api"
    ∷ codes "admin"
    ∷ codes "status"
    ∷ codes "health"
    ∷ codes "webhook"
    ∷ codes "pricing"
    ∷ codes "docs"
    ∷ codes "app"
    ∷ codes "dashboard"
    ∷ codes "settings"
    ∷ codes "billing"
    ∷ []

unfoldable pub validate_slug : Text → Option Error
validate_slug slug =
    if all slug_char slug && leb 3 (length slug) && leb (length slug) 30
    then (if any (text_eq slug) reserved_slugs
        then some (new_validation_error slug_reserved)
        else none)
    else some (new_validation_error slug_invalid)

unfoldable pub validate_password : Text → Option Error
validate_password password =
    if ltb (byte_len password) 8
    then some (new_validation_error password_too_short)
    else if ltb 72 (byte_len password)
    then some (new_validation_error password_too_long)
    else none

-- A result of a library as a method.
abbrev pub given {ℓ} : {A : Type ℓ} → Result A → World → Result A × World
given r w = (r, w)

-- `hex.EncodeToString`.
abbrev pub hex_digit : ℕ → ℕ
hex_digit n = if ltb n 10 then 48 + n else 87 + n

abbrev pub hex : List ℕ → Text
hex [] = []
hex (b ∷ bs) = hex_digit (b / 16) ∷ hex_digit (b % 16) ∷ hex bs

unfoldable pub generate_token : Crypto → Exec Text
generate_token c = given (c.read_random 32) >>= λ b. pure (hex b)

unfoldable pub create_session : Env → Crypto → ℕ → Exec Text
create_session env c user_id = do
  token ← wrapping "generate token: %w" (generate_token c)
  wrapping "create session: %w" (Sessions.create env token user_id (env.now + session_duration))
  pure token

-- The end of `Register` and of `Login`.
unfoldable pub session_for : Env → Crypto → User → Exec (User × Text)
session_for env c user = do token ← create_session env c user.id; pure (user, token)

abbrev pub created : Result User → Exec User
created (ok user) = pure user
created (err e) = if is_err e user_exists then throw e else throw (wrap "create user: %w" e)

unfoldable pub register : Env → Crypto → Text → Text → Text → Exec (User × Text)
unfolding validate_email validate_slug validate_password
register env c email slug password = do
  check (validate_email c.parses_address email)
  check (validate_slug slug)
  check (validate_password password)
  hash ← wrapping "hash password: %w" (given (c.hash_password password))
  r ← attempt (Users.create env email slug hash)
  user ← created r
  session_for env c user

abbrev pub refused : Error
refused = errorf "invalid email or password"

abbrev pub logged_in : Env → Crypto → Text → Result UserRow → Exec (User × Text)
logged_in env c password (err e) = throw refused
logged_in env c password (ok row) =
    if c.check_password row.password_hash password
    then session_for env c row.user
    else throw refused

unfoldable pub login : Env → Crypto → Text → Text → Exec (User × Text)
login env c email password = do
  r ← attempt (Users.get_by_email env email)
  logged_in env c password r

abbrev pub or_throw : {A : Type 0} → Error → Result A → Exec A
or_throw e (ok a) = pure a
or_throw e (err _) = throw e

-- An error of the touch is logged.
unfoldable pub validate_session : Env → Text → Exec User
validate_session env token = do
  id ← attempt (Sessions.get_user_id env token)
  user_id ← or_throw (errorf "invalid session") id
  u ← attempt (Users.get_by_id env user_id)
  user ← or_throw (errorf "user not found") u
  attempt (Sessions.touch env token (env.now + session_duration))
  pure user

unfoldable pub logout : Env → Text → Exec (Unit {0})
logout env token = Sessions.delete env token

unfoldable pub upgrade_to_pro : Env → ℕ → Text → Text → Exec (Unit {0})
upgrade_to_pro env user_id customer_id subscription_id =
    Users.update_plan env user_id pro
    >> Users.update_lemon_squeezy env user_id customer_id subscription_id

unfoldable pub downgrade_to_free : Env → ℕ → Exec (Unit {0})
downgrade_to_free env user_id = Users.update_plan env user_id free
