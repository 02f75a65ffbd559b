-- ===== src/Http/Access/Key.antt =====
-- What a request with an API key needs.
use pingcast.Prelude.{ap, sym, ◌∙◌, true, false, some, find, Text, ◌≡◌, refl, arith}
use pingcast.Error.{Result, ok, err}
use pingcast.Domain.User.{User}
use pingcast.Domain.ApiKey.{ApiKey, is_expired, has_scope}
use pingcast.Store.World.{World, Env}
use pingcast.Store.Exec.{◌>>=◌}
use pingcast.Store.Exec.Reads.{Reads}
use pingcast.Store.Users
use pingcast.Store.ApiKeys
use pingcast.Store.ApiKeys.{has_hash}
use pingcast.Http.Access
use pingcast.Http.Access.{
  Request, Server, next, api_key_of, required_scope, auth_middleware, authenticate_with_api_key,
}

-- The key is in the table, has not expired, has the scope of the request, and belongs to the user.
abbrev pub Grants : Env → Request → Text → World → User → ApiKey → Type 0
Grants env req hash w user k =
    (find (has_hash hash) w.db.api_keys ≡ some k)
    × (is_expired k env.now ≡ false)
    × (has_scope k (required_scope req.method req.path) ≡ true)
    × ((Users.get_by_id env k.user_id w).0 ≡ ok user)

with_api_key-ok :
    (env : Env) (srv : Server) (req : Request) (k : ApiKey) (w : World) (user : User)
    → (Access.with_api_key env srv req (ok k) w).0 ≡ ok (next (some user))
    → (is_expired k env.now ≡ false)
      × (has_scope k (required_scope req.method req.path) ≡ true)
      × ((Users.get_by_id env k.user_id w).0 ≡ ok user)
unfolding ◌>>=◌ ApiKeys.touch
with_api_key-ok env srv req k w user h = (ground arith, ground arith, ground arith)

get_by_hash-ok :
    (env : Env) (hash : Text) (w : World) (k : ApiKey)
    → (ApiKeys.get_by_hash env hash w).0 ≡ ok k
    → find (has_hash hash) w.db.api_keys ≡ some k
unfolding ApiKeys.get_by_hash ◌>>=◌
get_by_hash-ok env hash w k h = ground arith

get_by_hash-Reads : (env : Env) (hash : Text) → Reads (ApiKeys.get_by_hash env hash)
unfolding ApiKeys.get_by_hash ◌>>=◌
get_by_hash-Reads env hash = record { same = λ w. ground arith }

by_key :
    (env : Env) (srv : Server) (req : Request) (w : World) (raw : Text)
    → api_key_of req ≡ some raw
    → let (r, w') = ApiKeys.get_by_hash env (srv.hash_key raw) w in
      auth_middleware env srv req w ≡ Access.with_api_key env srv req r w'
unfolding auth_middleware authenticate_with_api_key ◌>>=◌
by_key env srv req w raw e = rw (e, auth_middleware) refl

-- A request that carries an API key gets through authentication only as the owner of a key in the
-- table that has its hash, has not expired, and has the scope that the method and the path require.
pub auth_middleware-Grants :
    (env : Env) (srv : Server) (req : Request) (w : World) (raw : Text) (user : User)
    → api_key_of req ≡ some raw
    → (auth_middleware env srv req w).0 ≡ ok (next (some user))
    → (k : ApiKey) × Grants env req (srv.hash_key raw) w user k
unfolding ◌>>=◌
auth_middleware-Grants env srv req w raw user e h =
    let hash = srv.hash_key raw in
    by_result (ApiKeys.get_by_hash env hash w).0 (get_by_hash-ok env hash w) (
      ap (λ r. r.0)
        (sym (
          by_key env srv req w raw e
          ∙ ap (Access.with_api_key env srv req (ApiKeys.get_by_hash env hash w).0)
              ((get_by_hash-Reads env hash).same w)))
      ∙ h)
  where
    by_result :
        (r : Result ApiKey)
        → ((k : ApiKey) → r ≡ ok k → find (has_hash (srv.hash_key raw)) w.db.api_keys ≡ some k)
        → (Access.with_api_key env srv req r w).0 ≡ ok (next (some user))
        → (k : ApiKey) × Grants env req (srv.hash_key raw) w user k
    by_result (ok k) found h' =
        let (live, scoped, owner) = with_api_key-ok env srv req k w user h' in
        (k, (found k refl, live, scoped, owner))
    by_result (err x) found h' = absurd (ground (arith, h'))
