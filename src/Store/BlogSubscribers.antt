-- ===== src/Store/BlogSubscribers.antt =====
-- internal/adapter/postgres/blog_subscriber_repo.go, with the queries of blog_subscribers.sql and the
-- unique columns of migration 025. The table stands newest first.
use pingcast.Prelude.{
  ℕ, suc, Bool, not, ◌&&◌, ◌||◌, if◌then◌else◌, Option, none, some, List, ◌∷◌, find, any, keep,
  count, update_where, Text, text_eq,
}
use pingcast.Error.{Result, foreign, ok, err}
use pingcast.Domain.Subscriber.{BlogSubscriber, is_confirmed_blog}
use pingcast.Store.World.{World, Env, create_blog, confirm_blog, remove_blog, count_blog}
use pingcast.Store.Exec.{Exec, call}

abbrev pub has_unsubscribe : Text → BlogSubscriber → Bool
has_unsubscribe token s = text_eq s.unsubscribe_token token

abbrev pub clashes : Text → Text → Text → BlogSubscriber → Bool
clashes email confirm unsubscribe s =
    text_eq s.email email || text_eq s.confirm_token confirm || has_unsubscribe unsubscribe s

abbrev pub new_subscriber :
    Env → World → Text → Text → Text → Option Text → Option Text → BlogSubscriber
new_subscriber env w email confirm unsubscribe source locale = record {
  id = w.db.next_blog_subscriber;
  email = email;
  confirm_token = confirm;
  unsubscribe_token = unsubscribe;
  confirmed_at = none;
  created_at = env.now;
  source = source;
  locale = locale;
}

abbrev with_rows : List BlogSubscriber → World → World
with_rows rows w = record w { db = record w.db { blog_subscribers = rows } }

-- The serial number is used up by an insertion that fails, too.
unfoldable pub create : Env → Text → Text → Text → Option Text → Option Text → Exec BlogSubscriber
create env email confirm unsubscribe source locale = call env create_blog λ w.
    let w' = record w {
      db = record w.db { next_blog_subscriber = suc w.db.next_blog_subscriber };
    } in
    if any (clashes email confirm unsubscribe) w.db.blog_subscribers
    then (err (foreign "duplicate key value violates unique constraint"), w')
    else (
      ok (new_subscriber env w email confirm unsubscribe source locale),
      with_rows
          (new_subscriber env w email confirm unsubscribe source locale ∷ w.db.blog_subscribers) w',
    )

abbrev pub is_pending : Text → BlogSubscriber → Bool
is_pending token s = text_eq s.confirm_token token && not (is_confirmed_blog s)

abbrev pub confirmed : Env → BlogSubscriber → BlogSubscriber
confirmed env s = record s { confirmed_at = some env.now }

abbrev confirm_found : Env → Text → Option BlogSubscriber → World → Result BlogSubscriber × World
confirm_found env token none w = (err (foreign "no rows in result set"), w)
confirm_found env token (some s) w = (
  ok (confirmed env s),
  with_rows (update_where (is_pending token) (confirmed env) w.db.blog_subscribers) w,
)

unfoldable pub confirm : Env → Text → Exec BlogSubscriber
confirm env token =
    call env confirm_blog
      λ w. confirm_found env token (find (is_pending token) w.db.blog_subscribers) w

abbrev remove_found : Text → Option BlogSubscriber → World → Result BlogSubscriber × World
remove_found token none w = (err (foreign "no rows in result set"), w)
remove_found token (some s) w =
    (ok s, with_rows (keep (λ s. not (has_unsubscribe token s)) w.db.blog_subscribers) w)

unfoldable pub unsubscribe : Env → Text → Exec BlogSubscriber
unsubscribe env token =
    call env remove_blog
      λ w. remove_found token (find (has_unsubscribe token) w.db.blog_subscribers) w

unfoldable pub count_confirmed : Env → Exec ℕ
count_confirmed env =
    call env count_blog λ w. (ok (count is_confirmed_blog w.db.blog_subscribers), w)
