-- ===== src/Store/Sessions.antt =====
-- internal/adapter/redis/session.go. The store drops a key when it expires; here an expired session
-- stays in the list and is not found.
use pingcast.Prelude.{
  ℕ, ltb, leb, Bool, not, ◌&&◌, if◌then◌else◌, Option, none, some, ◌∷◌, find, keep, update_where,
  Text, text_eq,
}
use pingcast.Error.{Result, errorf, foreign, ok, err}
use pingcast.Store.World.{
  World, Env, Session, create_session, get_session, touch_session, delete_session,
}
use pingcast.Store.Exec.{Exec, call, wrapping}

abbrev pub has_token : Text → Session → Bool
has_token token s = text_eq s.token token

abbrev pub is_live : ℕ → Text → Session → Bool
is_live now token s = has_token token s && ltb now s.expires_at

-- `SET` with a time to live.
unfoldable pub create : Env → Text → ℕ → ℕ → Exec (Unit {0})
create env token user_id expires_at w =
    if leb expires_at env.now
    then (err (errorf "session already expired"), w)
    else call env create_session
        (λ w. (
          ok tt,
          record w {
            sessions =
                record { token = token; user_id = user_id; expires_at = expires_at }
                ∷ keep (λ s. not (has_token token s)) w.sessions;
          },
        ))
        w

abbrev found : Option Session → World → Result ℕ × World
found none w = (err (foreign "nil"), w)
found (some s) w = (ok s.user_id, w)

unfoldable pub get_user_id : Env → Text → Exec ℕ
get_user_id env token =
    wrapping "session not found: %w"
      (call env get_session λ w. found (find (is_live env.now token) w.sessions) w)

-- `EXPIRE`: nothing happens to a key that is gone.
unfoldable pub touch : Env → Text → ℕ → Exec (Unit {0})
touch env token expires_at w =
    if leb expires_at env.now
    then (err (errorf "session already expired"), w)
    else call env touch_session
        (λ w. (
          ok tt,
          record w {
            sessions =
                update_where (is_live env.now token) (λ s. record s { expires_at = expires_at })
                  w.sessions;
          },
        ))
        w

unfoldable pub delete : Env → Text → Exec (Unit {0})
delete env token =
    call env delete_session
      λ w. (ok tt, record w { sessions = keep (λ s. not (has_token token s)) w.sessions })
