-- ===== src/Accounts/Auth/Register.antt =====
-- What a registration that succeeds shows.
use pingcast.Prelude.{◌+◌, ==_refl, false, none, any, Text, ◌≡◌, refl, ◌∙◌, sym, arith}
use pingcast.Error.{Result, ok, err}
use pingcast.Domain.User.{User}
use pingcast.Domain.Validate.{validate_email}
use pingcast.Store.World.{World, Env, get_user, get_session}
use pingcast.Store.Exec.{Exec, ◌>>=◌, attempt}
use pingcast.Store.Exec.Reads.{Reads, Reads-check, Reads-wrapping, read_ok, bind_ok, check-ok}
use pingcast.Store.Users
use pingcast.Store.Users.{is_live, takes, new_user, new_row}
use pingcast.Accounts.Auth.{
  Crypto, session_duration, register, validate_slug, validate_password, validate_session, created,
  session_for, given,
}
use pingcast.Accounts.Auth.Session.{
  valid_until, validate_session-signed_in, session_for-SignedIn, create-new,
}

-- The user is new, and the session is valid for thirty days.
abbrev pub Registered : Env → Env → Text → Text → User → Text → World → World → Type 0
Registered env env' email slug user token w w' =
    (user ≡ new_user env email slug)
    × (any (takes email slug) w.db.users ≡ false)
    × ((validate_session env' token w').0 ≡ valid_until env'.now (env.now + session_duration) user)

attempt-ok :
    {A : Type 0} (m : Exec A) (w : World) {r : Result A} → (attempt m w).0 ≡ ok r → (m w).0 ≡ r
unfolding ◌>>=◌
attempt-ok m w h = ground arith

module _ (env env' : Env) (f : env'.fault get_session ≡ none)
    (f' : env'.fault get_user ≡ none) where
  session-Registered :
      (c : Crypto) (email slug hash : Text) (u user : User) (w : World) (token : Text)
      → (Users.create env email slug hash w).0 ≡ ok u
      → let w' = (Users.create env email slug hash w).1 in
        (session_for env c u w').0 ≡ ok (user, token)
        → Registered env env' email slug user token w (session_for env c u w').1
  session-Registered c email slug hash u user w token made h =
      let w' = (Users.create env email slug hash w).1 in
      let (new, free, rows) = create-new env email slug hash w u made in
      let (same, after) = session_for-SignedIn env c u user w' token h in
      (
        sym same ∙ new,
        free,
        rw after (
            validate_session-signed_in env' token user.id (env.now + session_duration) w'
              (new_row user hash) f f' (rw (rows, same, ==_refl user.id) refl)),
      )

  created-Registered :
      (c : Crypto) (email slug hash : Text) (r : Result User) (user : User) (w : World)
      (token : Text)
      → (attempt (Users.create env email slug hash) w).0 ≡ ok r
      → let w' = (attempt (Users.create env email slug hash) w).1 in
        ((created r >>= session_for env c) w').0 ≡ ok (user, token)
        → Registered env env' email slug user token w ((created r >>= session_for env c) w').1
  unfolding ◌>>=◌
  created-Registered c email slug hash (ok u) user w token made h =
      session-Registered c email slug hash u user w token
        (attempt-ok (Users.create env email slug hash) w made) h
  created-Registered c email slug hash (err e) user w token made h = absurd (ground arith)

pub given-Reads : {A : Type 0} (r : Result A) → Reads (given r)
given-Reads r = record { same = λ w. refl }

-- A registration that succeeds had an address that parses, a valid slug and password, and neither
-- the address nor the slug was taken. It returns a new user with them, on the free plan, and a
-- token that is valid for thirty days: validating it on the world that it leaves gives that user
-- before then, and the error `invalid session` from then on, if the session store and the users can
-- be read.
pub register-Registered :
    (env : Env) (c : Crypto) (email slug password : Text) (w : World) (user : User) (token : Text)
    (env' : Env)
    → (register env c email slug password w).0 ≡ ok (user, token)
    → env'.fault get_session ≡ none
    → env'.fault get_user ≡ none
    → (validate_email c.parses_address email ≡ none)
      × (validate_slug slug ≡ none)
      × (validate_password password ≡ none)
      × Registered env env' email slug user token w (register env c email slug password w).1
unfolding register
register-Registered env c email slug password w user token env' h f f' =
    let C : Result (User × Text) × World → Type 0 = λ x.
      (validate_email c.parses_address email ≡ none)
      × (validate_slug slug ≡ none)
      × (validate_password password ≡ none)
      × Registered env env' email slug user token w x.1 in
    read_ok C _ _ w (user, token) (Reads-check _)
      (λ _ address.
        read_ok C _ _ w (user, token) (Reads-check _)
          λ _ sluggish.
            read_ok C _ _ w (user, token) (Reads-check _)
              λ _ strong.
                read_ok C _ _ w (user, token) (Reads-wrapping _ _ (given-Reads _))
                  λ hash _.
                    bind_ok C (attempt (Users.create env email slug hash)) _ w (user, token)
                      λ r made h'. (
                        check-ok _ w address,
                        check-ok _ w sluggish,
                        check-ok _ w strong,
                        created-Registered env env' f f' c email slug hash r user w token made h',
                      ))
      h
