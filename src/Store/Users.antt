-- ===== src/Store/Users.antt =====
-- internal/adapter/postgres/user_repo.go, with the queries of users.sql and the unique columns of
-- migration 001.
use pingcast.Prelude.{
  ℕ, ◌==◌, Bool, false, not, ◌&&◌, ◌||◌, if◌then◌else◌, Option, none, some, ◌∷◌, find, any, count,
  update_where, Text, text_eq, is_empty, codes,
}
use pingcast.Error.{Result, sentinel, foreign, user_exists, ok, err}
use pingcast.Domain.User.{User, Plan, free, is_pro}
use pingcast.Store.World.{
  World, Env, UserRow, Branding, create_user, get_user, get_user_by_email, founder_lock,
  count_founders, set_variant,
}
use pingcast.Store.World
use pingcast.Store.Exec.{Exec, call}

-- The row has the e-mail address or the slug; a deleted row still holds both.
abbrev pub takes : Text → Text → UserRow → Bool
takes email slug row = text_eq row.user.email email || text_eq row.user.slug slug

abbrev pub new_user : Env → Text → Text → User
new_user env email slug = record {
  id = env.new_id;
  email = email;
  slug = slug;
  plan = free;
  created_at = env.now;
}

abbrev pub no_branding : Branding
no_branding = record { logo_url = none; accent_color = none; custom_footer_text = none }

abbrev pub new_row : User → Text → UserRow
new_row user hash = record {
  user = user;
  password_hash = hash;
  customer_id = none;
  subscription_id = none;
  variant = none;
  branding = no_branding;
  deleted = false;
}

unfoldable pub create : Env → Text → Text → Text → Exec User
create env email slug hash = call env create_user λ w.
    if any (takes email slug) w.db.users then (err (sentinel user_exists), w) else (
      ok (new_user env email slug),
      record w { db = record w.db { users = new_row (new_user env email slug) hash ∷ w.db.users } },
    )

abbrev pub is_live : ℕ → UserRow → Bool
is_live id row = row.user.id == id && not row.deleted

abbrev pub has_email : Text → UserRow → Bool
has_email email row = text_eq row.user.email email && not row.deleted

abbrev found : Option UserRow → World → Result UserRow × World
found none w = (err (foreign "no rows in result set"), w)
found (some row) w = (ok row, w)

abbrev found_user : Option UserRow → World → Result User × World
found_user none w = (err (foreign "no rows in result set"), w)
found_user (some row) w = (ok row.user, w)

unfoldable pub get_by_id : Env → ℕ → Exec User
get_by_id env id = call env get_user λ w. found_user (find (is_live id) w.db.users) w

-- The user and the hash of the password are in the row.
unfoldable pub get_by_email : Env → Text → Exec UserRow
get_by_email env email = call env get_user_by_email λ w. found (find (has_email email) w.db.users) w

abbrev set_plan : Plan → UserRow → UserRow
set_plan plan row = record row { user = record row.user { plan = plan } }

unfoldable pub update_plan : Env → ℕ → Plan → Exec (Unit {0})
update_plan env id plan = call env World.Op.update_plan λ w. (
  ok tt,
  record w { db = record w.db { users = update_where (is_live id) (set_plan plan) w.db.users } },
)

unfoldable pub update_lemon_squeezy : Env → ℕ → Text → Text → Exec (Unit {0})
update_lemon_squeezy env id customer subscription = call env World.Op.update_lemon_squeezy λ w. (
  ok tt,
  record w {
    db = record w.db {
      users =
          update_where (is_live id)
            (λ row. record row { customer_id = some customer; subscription_id = some subscription })
            w.db.users;
    };
  },
)

-- The empty string is stored as NULL.
abbrev pub stored : Text → Option Text
stored variant = if is_empty variant then none else some variant

abbrev pub with_variant : Text → UserRow → UserRow
with_variant variant row = record row { variant = stored variant }

unfoldable pub set_subscription_variant : Env → ℕ → Text → Exec (Unit {0})
set_subscription_variant env id variant = call env set_variant λ w. (
  ok tt,
  record w {
    db = record w.db { users = update_where (is_live id) (with_variant variant) w.db.users };
  },
)

abbrev pub has_variant : Text → UserRow → Bool
has_variant variant row = elim row.variant [ none ↦ false | some v ↦ text_eq v variant ]

abbrev pub is_founder : UserRow → Bool
is_founder row = is_pro row.user.plan && has_variant (codes "founder") row && not row.deleted

unfoldable pub count_active_founders : Env → Exec ℕ
count_active_founders env = call env count_founders λ w. (ok (count is_founder w.db.users), w)

-- The lock keeps other transactions out until this one ends; a transaction is one step here, and
-- Accounts/Billing/Race.antt has the calls that interleave.
unfoldable pub acquire_founder_cap_lock : Env → Exec (Unit {0})
acquire_founder_cap_lock env = call env founder_lock λ w. (ok tt, w)

abbrev pub has_slug : Text → UserRow → Bool
has_slug slug row = text_eq row.user.slug slug && not row.deleted

unfoldable pub get_by_slug : Env → Text → Exec User
get_by_slug env slug =
    call env World.Op.get_user_by_slug λ w. found_user (find (has_slug slug) w.db.users) w

abbrev found_branding : Option UserRow → World → Result Branding × World
found_branding none w = (err (foreign "no rows in result set"), w)
found_branding (some row) w = (ok row.branding, w)

unfoldable pub get_branding : Env → ℕ → Exec Branding
get_branding env id =
    call env World.Op.get_branding λ w. found_branding (find (is_live id) w.db.users) w

unfoldable pub update_branding : Env → ℕ → Branding → Exec (Unit {0})
update_branding env id b = call env World.Op.update_branding λ w. (
  ok tt,
  record w {
    db = record w.db {
      users = update_where (is_live id) (λ row. record row { branding = b }) w.db.users;
    };
  },
)
