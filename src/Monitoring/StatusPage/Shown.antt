-- ===== src/Monitoring/StatusPage/Shown.antt =====
-- What the page shows.
use pingcast.Prelude.{
  ℕ, true, not, ◌&&◌, ◌||◌, List, [], ◌∷◌, all, map, keep, Text, ◌≡◌, refl, ap, ◌∙◌, arith, subst,
}
use pingcast.Error.{Result, errorf, ok, err}
use pingcast.Domain.User.{User, is_pro}
use pingcast.Domain.Monitor.{Monitor, is_up}
use pingcast.Store.World.{World, Env, Branding}
use pingcast.Store.Exec.{◌>>=◌, pure, attempt}
use pingcast.Store.Exec.Reads.{Reads, read_ok, after_ok}
use pingcast.Store.Users
use pingcast.Store.Users.{no_branding}
use pingcast.Store.Monitors
use pingcast.Store.Monitors.{is_shown}
use pingcast.Accounts.Auth.{or_throw}
use pingcast.Monitoring.StatusPage
use pingcast.Monitoring.StatusPage.{
  StatusMonitor, Sections, StatusPageData, list_sections, get_status_page,
}
use pingcast.Monitoring.StatusPage.Expected.{
  Lists, entry, in_maintenance-Reads, in_maintenance-maintained, is_fine, is_listed,
  list_by_monitor-Reads, list_memberships-Reads, list_public-Reads, maintained, said, shown-listed,
}

pure-at : {A : Type 0} (P : A → Type 0) (a b : A) (w : World) → P a → (pure a w).0 ≡ ok b → P b
unfolding pure
pure-at {A} P a b w h e = subst P (ap value e) h
  where
    value : Result A → A
    value (ok x) = x
    value (err x) = a

list_sections-Lists :
    (env : Env) (env_of : ℕ → Env) (memberships : List (ℕ × ℕ)) (ms : List Monitor) (w : World)
    (s : Sections)
    → (list_sections env env_of memberships ms w).0 ≡ ok s
    → Lists env_of w ms s
unfolding list_sections
list_sections-Lists env env_of memberships [] w s =
    pure-at (Lists env_of w []) (record { all_up = true; monitors = []; incidents = [] }) s w
      (refl, refl)
list_sections-Lists env env_of memberships (m ∷ ms) w s =
    let C = λ (r : Result Sections × World). Lists env_of w (m ∷ ms) s in
    read_ok C _ _ w s (in_maintenance-Reads (env_of m.id) m.id) λ maintenance h.
      read_ok C _ _ w s (list_by_monitor-Reads (env_of m.id) m.id 5) λ incidents _.
        after_ok C (list_sections env env_of memberships ms) _ w s λ rest e.
          let (up, entries) = list_sections-Lists env env_of memberships ms w rest e in
          let is : maintenance ≡ maintained (env_of m.id) w m.id =
            ground (arith, h, in_maintenance-maintained (env_of m.id) m.id w) in
          pure-at (Lists env_of w (m ∷ ms)) _ s _ (
            ap (λ b. (is_up m.current_status || b) && rest.all_up) is
                ∙ ap (λ b. is_fine env_of w m && b) up,
            ap (λ b. (m.id, m.name, m.current_status, b) ∷ map said rest.monitors) is
                ∙ ap (λ l. entry env_of w m ∷ l) entries,
          )

-- The public monitors of the user.
abbrev pub listed : World → Text → List Monitor
listed w slug = map (λ row. row.mon) (keep (is_listed slug w.db.users) w.db.monitors)

-- The page of the slug over the tables.
abbrev pub IsShown : (ℕ → Env) → World → Text → StatusPageData → Type 0
IsShown env_of w slug page =
    (map said page.monitors ≡ map (entry env_of w) (listed w slug))
    × (page.all_up ≡ all (is_fine env_of w) (listed w slug))
    × (page.show_branding ≡ true → page.branding ≡ no_branding)

branding_for-free :
    (env : Env) (user : User) (w : World) (b : Branding)
    → (StatusPage.branding_for env user w).0 ≡ ok b
    → not (is_pro user.plan) ≡ true
    → b ≡ no_branding
unfolding ◌>>=◌
branding_for-free env user w b h free = ground (arith, h, free)

get_by_slug-Reads : (env : Env) (slug : Text) → Reads (attempt (Users.get_by_slug env slug))
unfolding Users.get_by_slug ◌>>=◌
get_by_slug-Reads env slug = record { same = λ w. ground arith }

or_throw-Reads : (r : Result User) → Reads (or_throw (errorf "user not found") r)
unfolding ◌>>=◌
or_throw-Reads (ok u) = record { same = λ w. refl }
or_throw-Reads (err e) = record { same = λ w. refl }

list_public-ok :
    (env : Env) (slug : Text) (w : World) (ms : List Monitor)
    → (Monitors.list_public_by_slug env slug w).0 ≡ ok ms
    → ms ≡ map (λ row. row.mon) (keep (is_shown slug w.db.users) w.db.monitors)
unfolding Monitors.list_public_by_slug ◌>>=◌
list_public-ok env slug w ms h = ground arith

-- A status page that is returned lists exactly the monitors that are public and not deleted, of the
-- live user with the slug, each with the name and the status of its row, and as in maintenance exactly
-- if maintenance is wired, its query does not fail and one of the windows in the table holds for the
-- monitor at the time. It says that all is up exactly if each of them is up or in maintenance in this
-- sense, and where it shows the branding of the service it shows none of the user's own.
pub get_status_page-IsShown :
    (env : Env) (env_of : ℕ → Env) (slug : Text) (w : World) (page : StatusPageData)
    → (get_status_page env env_of slug w).0 ≡ ok page
    → IsShown env_of w slug page
unfolding get_status_page
get_status_page-IsShown env env_of slug w page =
    let C = λ (r : Result StatusPageData × World). IsShown env_of w slug page in
    read_ok C _ _ w page (get_by_slug-Reads env slug) λ found _.
      read_ok C _ _ w page (or_throw-Reads found) λ user _.
        read_ok C _ _ w page (list_public-Reads env slug) λ ms read.
          read_ok C _ _ w page (list_memberships-Reads env user.id) λ memberships _.
            after_ok C _ _ w page λ sections e. after_ok C _ _ _ page λ branding b.
              after_ok C _ _ _ page λ groups _.
                let (up, entries) = list_sections-Lists env env_of _ ms w sections e in
                let same : ms ≡ listed w slug =
                  list_public-ok env slug w ms read
                  ∙ ap (map (λ row. row.mon)) (shown-listed slug w.db.users w.db.monitors) in
                pure-at (IsShown env_of w slug) _ page _ (
                  entries ∙ ap (map (entry env_of w)) same,
                  up ∙ ap (all (is_fine env_of w)) same,
                  branding_for-free env user _ branding b,
                )
