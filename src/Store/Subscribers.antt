-- ===== src/Store/Subscribers.antt =====
-- internal/adapter/postgres/status_subscriber_repo.go, with the queries of status_subscribers.sql and
-- the unique columns of migration 023. The table stands newest first.
use pingcast.Prelude.{
  suc, Bool, not, ◌&&◌, ◌||◌, if◌then◌else◌, Option, none, some, List, ◌∷◌, find, any, keep,
  update_where, Text, text_eq,
}
use mathlib.Core.List.{reverse}
use pingcast.Error.{Result, foreign, ok, err}
use pingcast.Domain.Subscriber.{StatusSubscriber, is_confirmed}
use pingcast.Store.World.{
  World, Env, create_subscriber, confirm_subscriber, remove_subscriber, list_subscribers,
}
use pingcast.Store.Exec.{Exec, call}

abbrev pub is_subscription : Text → Text → StatusSubscriber → Bool
is_subscription slug email s = text_eq s.slug slug && text_eq s.email email

abbrev pub has_confirm : Text → StatusSubscriber → Bool
has_confirm token s = text_eq s.confirm_token token

abbrev pub has_unsubscribe : Text → StatusSubscriber → Bool
has_unsubscribe token s = text_eq s.unsubscribe_token token

-- The row would break one of the three unique indexes.
abbrev pub clashes : Text → Text → Text → Text → StatusSubscriber → Bool
clashes slug email confirm unsubscribe s =
    is_subscription slug email s || has_confirm confirm s || has_unsubscribe unsubscribe s

abbrev pub new_subscriber : Env → World → Text → Text → Text → Text → Option Text → StatusSubscriber
new_subscriber env w slug email confirm unsubscribe locale = record {
  id = w.db.next_subscriber;
  slug = slug;
  email = email;
  confirm_token = confirm;
  unsubscribe_token = unsubscribe;
  confirmed_at = none;
  created_at = env.now;
  locale = locale;
}

abbrev pub with_rows : List StatusSubscriber → World → World
with_rows rows w = record w { db = record w.db { subscribers = rows } }

-- The serial number is used up by an insertion that fails, too.
unfoldable pub create : Env → Text → Text → Text → Text → Option Text → Exec StatusSubscriber
create env slug email confirm unsubscribe locale = call env create_subscriber λ w.
    let w' = record w { db = record w.db { next_subscriber = suc w.db.next_subscriber } } in
    if any (clashes slug email confirm unsubscribe) w.db.subscribers
    then (err (foreign "duplicate key value violates unique constraint"), w')
    else (
      ok (new_subscriber env w slug email confirm unsubscribe locale),
      with_rows (new_subscriber env w slug email confirm unsubscribe locale ∷ w.db.subscribers) w',
    )

abbrev pub is_pending : Text → StatusSubscriber → Bool
is_pending token s = has_confirm token s && not (is_confirmed s)

abbrev pub confirmed : Env → StatusSubscriber → StatusSubscriber
confirmed env s = record s { confirmed_at = some env.now }

abbrev confirm_found :
    Env → Text → Option StatusSubscriber → World → Result StatusSubscriber × World
confirm_found env token none w = (err (foreign "no rows in result set"), w)
confirm_found env token (some s) w = (
  ok (confirmed env s),
  with_rows (update_where (is_pending token) (confirmed env) w.db.subscribers) w,
)

unfoldable pub confirm : Env → Text → Exec StatusSubscriber
confirm env token =
    call env confirm_subscriber
      λ w. confirm_found env token (find (is_pending token) w.db.subscribers) w

abbrev remove_found : Text → Option StatusSubscriber → World → Result StatusSubscriber × World
remove_found token none w = (err (foreign "no rows in result set"), w)
remove_found token (some s) w =
    (ok s, with_rows (keep (λ s. not (has_unsubscribe token s)) w.db.subscribers) w)

unfoldable pub unsubscribe : Env → Text → Exec StatusSubscriber
unsubscribe env token =
    call env remove_subscriber
      λ w. remove_found token (find (has_unsubscribe token) w.db.subscribers) w

abbrev pub is_reader : Text → StatusSubscriber → Bool
is_reader slug s = text_eq s.slug slug && is_confirmed s

unfoldable pub list_confirmed_by_slug : Env → Text → Exec (List StatusSubscriber)
list_confirmed_by_slug env slug =
    call env list_subscribers λ w. (ok (reverse (keep (is_reader slug) w.db.subscribers)), w)
