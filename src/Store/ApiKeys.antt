-- ===== src/Store/ApiKeys.antt =====
-- internal/adapter/postgres/apikey_repo.go, with the queries of api_keys.sql.
use pingcast.Prelude.{
  ℕ, ◌==◌, Bool, not, ◌&&◌, if◌then◌else◌, Option, none, some, List, ◌∷◌, find, any, keep,
  update_where, Text, text_eq,
}
use pingcast.Error.{Result, foreign, ok, err}
use pingcast.Domain.ApiKey.{ApiKey}
use pingcast.Store.World
use pingcast.Store.World.{World, Env, get_api_key, touch_api_key}
use pingcast.Store.Exec.{Exec, call, wrapping}

abbrev pub has_hash : Text → ApiKey → Bool
has_hash hash k = text_eq k.key_hash hash

abbrev found : Option ApiKey → World → Result ApiKey × World
found none w = (err (foreign "no rows in result set"), w)
found (some k) w = (ok k, w)

unfoldable pub get_by_hash : Env → Text → Exec ApiKey
get_by_hash env hash =
    wrapping "get api key: %w"
      (call env get_api_key λ w. found (find (has_hash hash) w.db.api_keys) w)

unfoldable pub touch : Env → ℕ → Exec (Unit {0})
touch env id = call env touch_api_key λ w. (
  ok tt,
  record w {
    db = record w.db {
      api_keys =
          update_where (λ k. k.id == id) (λ k. record k { last_used_at = some env.now })
            w.db.api_keys;
    };
  },
)

abbrev inserted : Env → ApiKey → World → Result ApiKey × World
inserted env k w =
    let k' = record k { id = env.new_id; created_at = env.now; last_used_at = none } in
    (ok k', record w { db = record w.db { api_keys = k' ∷ w.db.api_keys } })

-- `key_hash` is unique.
unfoldable pub create : Env → ApiKey → Exec ApiKey
create env k = wrapping "create api key: %w" (
    call env World.Op.create_api_key λ w.
      if any (has_hash k.key_hash) w.db.api_keys
      then (err (foreign "duplicate key value violates unique constraint"), w)
      else inserted env k w)

unfoldable pub list_by_user : Env → ℕ → Exec (List ApiKey)
list_by_user env user_id =
    wrapping "list api keys: %w" (
      call env World.Op.list_api_keys λ w. (ok (keep (λ k. k.user_id == user_id) w.db.api_keys), w))

unfoldable pub delete : Env → ℕ → ℕ → Exec (Unit {0})
delete env id user_id = call env World.Op.delete_api_key λ w. (
  ok tt,
  record w {
    db = record w.db {
      api_keys = keep (λ k. not (k.id == id && k.user_id == user_id)) w.db.api_keys;
    };
  },
)
