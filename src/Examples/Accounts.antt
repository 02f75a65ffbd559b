-- ===== src/Examples/Accounts.antt =====
-- The theorems about accounts and the founder price, on sample tables.
use pingcast.Prelude.{
  Bool, count, ◌≤◌, ℕ, zero, suc, ◌+◌, true, false, none, some, List, [], ◌∷◌, Text, codes, text_eq,
  ◌≡◌, refl, arith,
}
use pingcast.Error.{ok}
use pingcast.Domain.User.{User, pro}
use pingcast.Domain.Validate.{validate_email}
use pingcast.Store.World.{World, UserRow}
use pingcast.Store.Exec.{◌>>=◌}
use pingcast.Store.Users
use pingcast.Store.Users.{new_user, no_branding, is_founder}
use pingcast.Store.Sessions
use pingcast.Accounts.Auth.{
  Crypto, hex, generate_token, session_duration, create_session, session_for, register, login,
  validate_session, validate_slug, validate_password,
}
use pingcast.Accounts.Auth.Session.{valid_until, login-validate_session}
use pingcast.Accounts.Auth.Register.{Registered, register-Registered}
use pingcast.Accounts.Billing.{tag_from_webhook}
use pingcast.Accounts.Billing.Race.{interleave}
use pingcast.Accounts.Billing.Race.Bounded.{begun, interleave-Capped}
use pingcast.Accounts.Billing.Demotion.{has_founder_price, founder-demoted}
use pingcast.Examples.Data.{env, ann, failing}

abbrev repeat : ℕ → ℕ → List ℕ
repeat zero b = []
repeat (suc n) b = b ∷ repeat n b

-- A hash that is the password itself, and a source of zeros.
abbrev crypto : Crypto
crypto = record {
  hash_password = λ p. ok p;
  check_password = text_eq;
  read_random = λ n. ok (repeat n 0);
  parses_address = λ e. true;
}

abbrev token : Text
token = hex (repeat 32 0)

abbrev pub ann_row : UserRow
ann_row = record {
  user = record ann { plan = pro };
  password_hash = codes "correct horse";
  customer_id = none;
  subscription_id = none;
  variant = some (codes "founder");
  branding = no_branding;
  deleted = false;
}

abbrev pub members : World
members = record failing { db = record failing.db { users = ann_row ∷ [] } }

login_succeeds :
    (login env crypto (codes "ann@example.org") (codes "correct horse") members).0
    ≡ ok (ann_row.user, token)
unfolding login Users.get_by_email session_for create_session generate_token Sessions.create ◌>>=◌
login_succeeds = refl

login-validate_session_example :
    (validate_session env token
      (login env crypto (codes "ann@example.org") (codes "correct horse") members).1).0
    ≡ valid_until env.now (env.now + session_duration) ann_row.user
login-validate_session_example =
    login-validate_session env crypto (codes "ann@example.org") (codes "correct horse") members
      ann_row.user token env ann_row login_succeeds refl refl refl

abbrev bo : User
bo = new_user env (codes "bo@example.org") (codes "bo-1")

register_succeeds :
    (register env crypto (codes "bo@example.org") (codes "bo-1") (codes "battery staple") members).0
    ≡ ok (bo, token)
unfolding register Users.create session_for create_session generate_token Sessions.create ◌>>=◌
register_succeeds = refl

register-Registered_example :
    (validate_email crypto.parses_address (codes "bo@example.org") ≡ none)
    × (validate_slug (codes "bo-1") ≡ none)
    × (validate_password (codes "battery staple") ≡ none)
    × Registered env env
        (codes "bo@example.org")
        (codes "bo-1")
        bo
        token
        members
        (register env crypto
          (codes "bo@example.org")
          (codes "bo-1")
          (codes "battery staple")
          members).1
register-Registered_example =
    register-Registered env crypto (codes "bo@example.org") (codes "bo-1") (codes "battery staple")
      members bo token env register_succeeds refl refl

-- Ann asks for the founder price twice at the same time; the first call stops half-way, and the
-- second one waits, until the first is over.
abbrev calls : List (ℕ × Text)
calls = (1, codes "founder") ∷ (1, codes "founder") ∷ []

abbrev schedule : List (ℕ × Bool)
schedule =
    (0, false) ∷ (0, false) ∷ (1, false) ∷ (0, false) ∷ (1, false) ∷ (1, false) ∷ (1, false) ∷ []

interleave-Capped_example :
    count is_founder
      (interleave 1 schedule (record { users = ann_row ∷ []; transactions = begun calls })).users
    ≤ 1
interleave-Capped_example =
    interleave-Capped 1 calls schedule (ann_row ∷ []) (λ id. ground arith) (ground arith)

founder-demoted_example :
    let (result, w) = tag_from_webhook env 1 1 (codes "founder") members in
    (result ≡ ok (codes "retail")) × (has_founder_price 1 w.db.users ≡ false)
founder-demoted_example = founder-demoted env 1 1 members refl refl refl refl (ground arith) refl
