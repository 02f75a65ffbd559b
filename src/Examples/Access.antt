-- ===== src/Examples/Access.antt =====
-- The theorems about access to the API, on sample requests.
use pingcast.Prelude.{true, none, some, [], ◌∷◌, codes, ◌≡◌, refl}
use pingcast.Error.{ok}
use pingcast.Domain.User.{User, pro}
use pingcast.Domain.ApiKey.{ApiKey}
use pingcast.Store.World.{World}
use pingcast.Store.Exec.{◌>>=◌}
use pingcast.Store.Users
use pingcast.Store.ApiKeys
use pingcast.Http.Access.{
  Request, Server, next, admit, auth_selector, auth_middleware, authenticate_with_api_key,
  required_scope, needs_auth, pro_gated, rate_limit_selector, pro_gate_selector, require_pro,
}
use pingcast.Domain.User.{requires_pro}
use pingcast.Http.Access.Key.{Grants, auth_middleware-Grants}
use pingcast.Http.Routes.{is_secured, is_pro_only, method_of, path_of, create_incident}
use pingcast.Http.Routes.Protected.{admit-IsProtected}
use pingcast.Examples.Data.{env, ann}
use pingcast.Examples.Accounts.{members}

abbrev key : ApiKey
key = record {
  id = 5;
  user_id = 1;
  key_hash = codes "pc_live_k";
  name = codes "ci";
  scopes = codes "incidents:write" ∷ [];
  created_at = 1;
  last_used_at = none;
  expires_at = some 9000;
}

-- A hash that is the key itself, no goroutine to touch a key, and limiters with room.
abbrev pub server : Server
server = record { hash_key = λ k. k; touch_free = true; allow = λ l b. ok true }

abbrev keyed : World
keyed = record members { db = record members.db { api_keys = key ∷ [] } }

abbrev pub request : Request
request = record {
  method = codes "POST";
  path = codes "/api/incidents";
  authorization = codes "Bearer pc_live_k";
  session_id = [];
  ip = codes "10.0.0.1";
  slug = [];
}

abbrev ann_pro : User
ann_pro = record ann { plan = pro }

passes : (auth_middleware env server request keyed).0 ≡ ok (next (some ann_pro))
unfolding auth_middleware authenticate_with_api_key ApiKeys.get_by_hash ApiKeys.touch required_scope
    Users.get_by_id ◌>>=◌
passes = refl

auth_middleware-Grants_example :
    (k : ApiKey) × Grants env request (codes "pc_live_k") keyed ann_pro k
auth_middleware-Grants_example =
    auth_middleware-Grants env server request keyed (codes "pc_live_k") ann_pro refl passes

is_admitted : (admit env server request keyed).0 ≡ ok (next (some ann_pro))
unfolding admit auth_selector auth_middleware authenticate_with_api_key ApiKeys.get_by_hash
    ApiKeys.touch required_scope needs_auth rate_limit_selector pro_gate_selector pro_gated
    require_pro requires_pro Users.get_by_id ◌>>=◌
is_admitted = refl

admit-IsProtected_example :
    (is_secured create_incident ≡ true → (user : User) × (some ann_pro ≡ some user))
    × (is_pro_only create_incident ≡ true
        → (user : User) × (some ann_pro ≡ some user) × (user.plan ≡ pro))
unfolding method_of path_of
admit-IsProtected_example =
    admit-IsProtected create_incident [] [] env server request keyed (some ann_pro) refl refl
      is_admitted
