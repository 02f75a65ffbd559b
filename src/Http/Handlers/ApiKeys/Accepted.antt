-- ===== src/Http/Handlers/ApiKeys/Accepted.antt =====
-- A key of the API from its creation to its end.
use pingcast.Prelude.{
  ℕ, ◌==◌, ==_refl, Bool, true, false, ltb, not, ◌&&◌, Option, none, some, List, [], ◌∷◌, ◌++◌,
  find, any, keep, Text, codes, text_eq, text_eq_refl, ◌≡◌, refl, sym, ◌∙◌, ap, arith,
}
use pingcast.Error.{Result, ok, err}
use pingcast.Domain.User.{User}
use pingcast.Domain.ApiKey.{ApiKey, has_scope}
use pingcast.Store.World.{World, Env, UserRow, get_api_key, get_user, delete_api_key}
use pingcast.Store.Exec.{◌>>=◌}
use pingcast.Store.Users
use pingcast.Store.ApiKeys
use pingcast.Store.ApiKeys.{has_hash}
use pingcast.Http.Access.{
  Request, Server, next, unauthorized, required_scope, auth_middleware, authenticate_with_api_key,
}
use pingcast.Http.Respond.{Response, json}
use pingcast.Http.Handlers.{Libraries, require_user, parsed, write}
use pingcast.Http.Handlers.ApiKeys.{
  KeyMaker, CreateApiKeyRequest, ApiKeyCreated, domain_api_key_to_api, new_key, raw_key_of,
  create_api_key_handler, revoke_api_key_handler,
}

-- The row that the database makes of a new key.
abbrev stored : Env → KeyMaker → User → CreateApiKeyRequest → List ℕ → ApiKey
stored env maker u req bytes = record (new_key env maker u req bytes) {
  id = env.new_id;
  created_at = env.now;
  last_used_at = none;
}

-- What an answer with a key shows of the tables.
abbrev Made : Env → KeyMaker → User → CreateApiKeyRequest → World → World → ApiKeyCreated → Type 0
Made env maker u req w w' made =
    (bytes : List ℕ) × (maker.random_bytes ≡ ok bytes)
    × (made.raw_key ≡ raw_key_of bytes)
    × (made.key ≡ domain_api_key_to_api (stored env maker u req bytes))
    × (w'.db.api_keys ≡ stored env maker u req bytes ∷ w.db.api_keys)
    × (any (has_hash (maker.hash_key (raw_key_of bytes))) w.db.api_keys ≡ false)
    × (w'.db.users ≡ w.db.users)

create_api_key_handler-Made :
    (env : Env) (libs : Libraries) (maker : KeyMaker) (u : User) (req : CreateApiKeyRequest)
    (w : World) (r : Response ApiKeyCreated) (made : ApiKeyCreated)
    → (create_api_key_handler env libs maker (some u) (some req) w).0 ≡ ok r
    → r.reply ≡ json 201 made
    → Made env maker u req w (create_api_key_handler env libs maker (some u) (some req) w).1 made
unfolding create_api_key_handler require_user parsed write ApiKeys.create ◌>>=◌
create_api_key_handler-Made env libs maker u req w r made h e = by_random maker.random_bytes refl
  where
    by_random :
        (o : Result (List ℕ))
        → maker.random_bytes ≡ o
        → Made env maker u req w
            (create_api_key_handler env libs maker (some u) (some req) w).1
            made
    by_random (ok bytes) q =
        (bytes, q, ground arith, ground arith, ground arith, ground arith, ground arith)
    by_random (err x) q = absurd (ground arith)

-- The time of expiry, if there is one, is not passed.
abbrev pub is_over : Option ℕ → ℕ → Bool
is_over none now = false
is_over (some t) now = ltb t now

by_key :
    (env : Env) (srv : Server) (req : Request) (w : World) (bytes : List ℕ)
    → req.authorization ≡ codes "Bearer " ++ raw_key_of bytes
    → auth_middleware env srv req w ≡ authenticate_with_api_key env srv req (raw_key_of bytes) w
unfolding auth_middleware
by_key env srv req w bytes e = rw e refl

authenticated :
    (env : Env) (srv : Server) (req : Request) (w : World) (k : ApiKey) (ks : List ApiKey)
    (raw : Text) (row : UserRow)
    → env.fault get_api_key ≡ none
    → env.fault get_user ≡ none
    → w.db.api_keys ≡ k ∷ ks
    → k.key_hash ≡ srv.hash_key raw
    → is_over k.expires_at env.now ≡ false
    → has_scope k (required_scope req.method req.path) ≡ true
    → find (Users.is_live k.user_id) w.db.users ≡ some row
    → (authenticate_with_api_key env srv req raw w).0 ≡ ok (next (some row.user))
unfolding authenticate_with_api_key ApiKeys.get_by_hash ApiKeys.touch Users.get_by_id ◌>>=◌
authenticated env srv req w k ks raw row f g keys hash live scope owner =
    ground (arith, f, g, keys, hash, text_eq_refl (srv.hash_key raw), live, scope, owner)

refused :
    (env : Env) (srv : Server) (req : Request) (w : World) (raw : Text)
    → find (has_hash (srv.hash_key raw)) w.db.api_keys ≡ none
    → (authenticate_with_api_key env srv req raw w).0 ≡ ok (unauthorized false)
unfolding authenticate_with_api_key ApiKeys.get_by_hash ◌>>=◌
refused env srv req w raw e = ground (arith, e)

find-keep_absent :
    {A : Type 0} (p q : A → Bool) (xs : List A) → any p xs ≡ false → find p (keep q xs) ≡ none
find-keep_absent p q [] h = refl
find-keep_absent p q (x ∷ xs) h = ground (arith, h, find-keep_absent p q xs)

revoked :
    (env : Env) (libs : Libraries) (u : User) (w : World) (k : ApiKey) (ks : List ApiKey)
    (hash : Text)
    → env.fault delete_api_key ≡ none
    → w.db.api_keys ≡ k ∷ ks
    → k.user_id ≡ u.id
    → any (has_hash hash) ks ≡ false
    → find (has_hash hash) (revoke_api_key_handler env libs (some u) k.id w).1.db.api_keys ≡ none
unfolding revoke_api_key_handler require_user write ApiKeys.delete ◌>>=◌
revoked env libs u w k ks hash f keys own absent = ground (
  arith,
  f,
  keys,
  own,
  ==_refl k.id,
  ==_refl u.id,
  find-keep_absent (has_hash hash) (λ k'. not (k'.id == k.id && k'.user_id == u.id)) ks absent,
)

-- A key that was created with status 201 is accepted: where the middleware and the handler hash alike and the
-- tables can be read and written, a request with the raw key of the answer, made before the key expires and for
-- one of its scopes, is let through as the live user who created it, and after that user revoked the key it is
-- answered as unauthorized.
pub create_api_key-Accepted :
    (env env' : Env) (libs : Libraries) (maker : KeyMaker) (srv : Server) (u : User)
    (req : CreateApiKeyRequest) (rq : Request) (w : World) (r : Response ApiKeyCreated)
    (made : ApiKeyCreated) (row : UserRow)
    → (create_api_key_handler env libs maker (some u) (some req) w).0 ≡ ok r
    → r.reply ≡ json 201 made
    → ((raw : Text) → srv.hash_key raw ≡ maker.hash_key raw)
    → rq.authorization ≡ codes "Bearer " ++ made.raw_key
    → env'.fault get_api_key ≡ none
    → env'.fault get_user ≡ none
    → env'.fault delete_api_key ≡ none
    → is_over made.key.expires_at env'.now ≡ false
    → any (λ s. text_eq s (required_scope rq.method rq.path)) req.scopes ≡ true
    → find (Users.is_live u.id) w.db.users ≡ some row
    → let w' = (create_api_key_handler env libs maker (some u) (some req) w).1 in
      ((auth_middleware env' srv rq w').0 ≡ ok (next (some row.user)))
      × ((auth_middleware env' srv rq
            (revoke_api_key_handler env' libs (some u) made.key.id w').1).0
          ≡ ok (unauthorized false))
create_api_key-Accepted env env' libs maker srv u req rq w r made row h e same bearer f g d over
      scope live =
    let w' = (create_api_key_handler env libs maker (some u) (some req) w).1 in
    let (bytes, random, raw, view, keys, absent, users) =
      create_api_key_handler-Made env libs maker u req w r made h e in
    let carried = bearer ∙ ap (λ t. codes "Bearer " ++ t) raw in
    let k = stored env maker u req bytes in
    let hash = same (raw_key_of bytes) in
    let left : ℕ → World = λ i. (revoke_api_key_handler env' libs (some u) i w').1 in
    (
      ap (λ x. x.0) (by_key env' srv rq w' bytes carried)
          ∙ authenticated env' srv rq w' k w.db.api_keys (raw_key_of bytes) row f g keys (sym hash)
              (ap (λ v. is_over v.expires_at env'.now) (sym view) ∙ over) scope
              (ap (find (Users.is_live u.id)) users ∙ live),
      ap (λ x. x.0) (by_key env' srv rq (left made.key.id) bytes carried)
          ∙ refused env' srv rq (left made.key.id) (raw_key_of bytes) (
              ap (λ x. find (has_hash x) (left made.key.id).db.api_keys) hash
              ∙ ap
                  (λ v. find (has_hash (maker.hash_key (raw_key_of bytes))) (left v.id).db.api_keys)
                  view
              ∙ revoked env' libs u w' k w.db.api_keys (maker.hash_key (raw_key_of bytes)) d keys
                  refl absent),
    )
