-- ===== src/Accounts/Auth/Session.antt =====
-- A login gives a session that is valid for thirty days, and what a refused login shows.
use pingcast.Prelude.{
  ℕ, ◌+◌, ltb, false, not, if◌then◌else◌, none, some, List, [], ◌∷◌, find, keep, any, Text,
  text_eq_refl, ◌≡◌, ◌⊎◌, refl, arith, inl, inr,
}
use pingcast.Error.{Result, ok, err, errorf}
use pingcast.Domain.User.{User}
use pingcast.Store.World.{World, Env, UserRow, Session, get_user, get_session, get_user_by_email}
use pingcast.Store.Exec.{◌>>=◌, attempt}
use pingcast.Store.Exec.Reads.{Reads, read_ok}
use pingcast.Store.Users
use pingcast.Store.Users.{is_live, has_email, takes, new_user, new_row}
use pingcast.Store.Sessions
use pingcast.Accounts.Auth.{
  Crypto, session_duration, generate_token, create_session, session_for, login, refused,
  validate_session, logged_in,
}

-- A session until a time, in place of one with the same token.
abbrev pub signed_in : Text → ℕ → ℕ → World → World
signed_in token user_id until w = record w {
  sessions =
      record { token = token; user_id = user_id; expires_at = until }
      ∷ keep (λ s. not (Sessions.has_token token s)) w.sessions;
}

pub create_session-signed_in :
    (env : Env) (c : Crypto) (user_id : ℕ) (w : World) (token : Text)
    → (create_session env c user_id w).0 ≡ ok token
    → (create_session env c user_id w).1 ≡ signed_in token user_id (env.now + session_duration) w
unfolding create_session generate_token Sessions.create ◌>>=◌
create_session-signed_in env c user_id w token h = ground arith

find-keep-none :
    (now : ℕ) (token : Text) (xs : List Session)
    → find (Sessions.is_live now token) (keep (λ s. not (Sessions.has_token token s)) xs) ≡ none
find-keep-none now token [] = refl
find-keep-none now token (x ∷ xs) = ground (arith, find-keep-none now token xs)

by_email-Reads : (env : Env) (email : Text) → Reads (attempt (Users.get_by_email env email))
unfolding Users.get_by_email ◌>>=◌
by_email-Reads env email = record { same = λ w. ground arith }

-- What the session is worth at a later time.
abbrev pub valid_until : ℕ → ℕ → User → Result User
valid_until now until user = if ltb now until then ok user else err (errorf "invalid session")

pub validate_session-signed_in :
    (env : Env) (token : Text) (user_id until : ℕ) (w : World) (row : UserRow)
    → env.fault get_session ≡ none
    → env.fault get_user ≡ none
    → find (is_live user_id) w.db.users ≡ some row
    → (validate_session env token (signed_in token user_id until w)).0
      ≡ valid_until env.now until row.user
unfolding validate_session Sessions.get_user_id Users.get_by_id Sessions.touch ◌>>=◌
validate_session-signed_in env token user_id until w row f f' live =
    ground (arith, text_eq_refl token, find-keep-none env.now token w.sessions)

abbrev pub SignedIn : Env → User → Text → World → Result (User × Text) × World → Type 0
SignedIn env user token w (r, w') = w' ≡ signed_in token user.id (env.now + session_duration) w

pub session_for-SignedIn :
    (env : Env) (c : Crypto) (user' user : User) (w : World) (token : Text)
    → (session_for env c user' w).0 ≡ ok (user, token)
    → (user' ≡ user) × SignedIn env user token w (session_for env c user' w)
unfolding session_for ◌>>=◌
session_for-SignedIn env c user' user w token h =
    (ground arith, ground (arith, create_session-signed_in env c user'.id w token))

logged_in-SignedIn :
    (env : Env) (c : Crypto) (password : Text) (r : Result UserRow) (w : World) (user : User)
    (token : Text)
    → (logged_in env c password r w).0 ≡ ok (user, token)
    → SignedIn env user token w (logged_in env c password r w)
unfolding ◌>>=◌
logged_in-SignedIn env c password (err e) w user token h = ground arith
logged_in-SignedIn env c password (ok row) w user token h =
    ground (arith, session_for-SignedIn env c row.user user w token)

login-SignedIn :
    (env : Env) (c : Crypto) (email password : Text) (w : World) (user : User) (token : Text)
    → (login env c email password w).0 ≡ ok (user, token)
    → SignedIn env user token w (login env c email password w)
unfolding login
login-SignedIn env c email password w user token =
    read_ok (SignedIn env user token w) _ _ w (user, token) (by_email-Reads env email)
      λ r _. logged_in-SignedIn env c password r w user token

-- The session that a login returns is valid for thirty days: validating its token on the world that
-- the login leaves gives the user, as the table then has it, before that time, and the error
-- `invalid session` from then on, if the session store and the users can be read.
pub login-validate_session :
    (env : Env) (c : Crypto) (email password : Text) (w : World) (user : User) (token : Text)
    (env' : Env) (row : UserRow)
    → (login env c email password w).0 ≡ ok (user, token)
    → env'.fault get_session ≡ none
    → env'.fault get_user ≡ none
    → find (is_live user.id) w.db.users ≡ some row
    → (validate_session env' token (login env c email password w).1).0
      ≡ valid_until env'.now (env.now + session_duration) row.user
login-validate_session env c email password w user token env' row h f f' live =
    rw (login-SignedIn env c email password w user token h)
      (validate_session-signed_in env' token user.id (env.now + session_duration) w row f f' live)

-- If the users can be read, a login with an address that no user has, or with a password that does
-- not fit the hash of the user who has it, returns the same error and leaves the world as it was.
pub login-refused :
    (env : Env) (c : Crypto) (email password : Text) (w : World)
    → env.fault get_user_by_email ≡ none
    → (find (has_email email) w.db.users ≡ none)
      ⊎ ((row : UserRow) × (find (has_email email) w.db.users ≡ some row)
          × (c.check_password row.password_hash password ≡ false))
    → login env c email password w ≡ (err refused, w)
unfolding login Users.get_by_email ◌>>=◌
login-refused env c email password w f (inl e) = ground arith
login-refused env c email password w f (inr (row, e, wrong)) = ground arith

-- The tables and the user that a registration starts its session with.
pub create-new :
    (env : Env) (email slug hash : Text) (w : World) (u : User)
    → (Users.create env email slug hash w).0 ≡ ok u
    → (u ≡ new_user env email slug)
      × (any (takes email slug) w.db.users ≡ false)
      × ((Users.create env email slug hash w).1.db.users ≡ new_row u hash ∷ w.db.users)
unfolding Users.create ◌>>=◌
create-new env email slug hash w u h = ground arith
