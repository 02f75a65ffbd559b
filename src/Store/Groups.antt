-- ===== src/Store/Groups.antt =====
-- internal/adapter/postgres/monitor_group_repo.go, with the queries of monitor_groups.sql and the
-- foreign key of migration 022. The table stands newest first.
use pingcast.Prelude.{
  ℕ, suc, ◌+◌, ◌-◌, ◌%◌, leb, ltb, ◌==◌, Bool, false, not, ◌&&◌, ◌||◌, if◌then◌else◌, Option, none,
  some, List, [], ◌∷◌, any, keep, update_where, Text,
}
use pingcast.Prelude.Int.{ℤ, pos, negsuc, ltb_ℤ, eqb_ℤ}
use pingcast.Error.{foreign, ok, err}
use pingcast.Domain.Group.{MonitorGroup}
use pingcast.Store.World.{World, Env, MonitorRow, list_groups, list_memberships}
use pingcast.Store.World
use pingcast.Store.Exec.{Exec, call}
use pingcast.Store.Monitors

abbrev around_zero : ℕ → ℤ
around_zero r = if leb 0x80000000 r then pos (r - 0x80000000) else negsuc (0x80000000 - r - 1)

-- `int32(n)` wraps around.
unfoldable pub int32 : ℤ → ℤ
int32 (pos n) = around_zero ((n + 0x80000000) % 0x100000000)
int32 (negsuc n) = around_zero ((0x80000000 + (0xFFFFFFFF - n % 0x100000000)) % 0x100000000)

abbrev pub is_group : ℕ → MonitorGroup → Bool
is_group id g = g.id == id

abbrev pub is_owned : ℕ → ℕ → MonitorGroup → Bool
is_owned id user_id g = is_group id g && g.user_id == user_id

unfoldable pub create : Env → ℕ → Text → ℤ → Exec MonitorGroup
unfolding int32
create env user_id name ordering = call env World.Op.create_group λ w.
    let g : MonitorGroup = record {
      id = w.db.next_group;
      user_id = user_id;
      name = name;
      ordering = int32 ordering;
      created_at = env.now;
    } in
    (
      ok g,
      record w { db = record w.db { groups = g ∷ w.db.groups; next_group = suc w.db.next_group } },
    )

-- `ORDER BY ordering, id`.
abbrev before : MonitorGroup → MonitorGroup → Bool
before g h = ltb_ℤ g.ordering h.ordering || (eqb_ℤ g.ordering h.ordering && ltb g.id h.id)

abbrev place : MonitorGroup → List MonitorGroup → List MonitorGroup
place g [] = g ∷ []
place g (h ∷ hs) = let rest = place g hs in if before g h then g ∷ h ∷ hs else h ∷ rest

abbrev in_order : List MonitorGroup → List MonitorGroup
in_order [] = []
in_order (g ∷ gs) = place g (in_order gs)

unfoldable pub list_by_user : Env → ℕ → Exec (List MonitorGroup)
list_by_user env user_id =
    call env list_groups λ w. (ok (in_order (keep (λ g. g.user_id == user_id) w.db.groups)), w)

unfoldable pub update : Env → ℕ → ℕ → Text → ℤ → Exec (Unit {0})
unfolding int32
update env id user_id name ordering = call env World.Op.update_group λ w. (
  ok tt,
  record w {
    db = record w.db {
      groups =
          update_where (is_owned id user_id)
            (λ g. record g { name = name; ordering = int32 ordering }) w.db.groups;
    };
  },
)

-- The row is in the group.
abbrev pub is_member : ℕ → MonitorRow → Bool
is_member id row = elim row.group_id [ none ↦ false | some g ↦ g == id ]

-- `ON DELETE SET NULL`: of the monitors that are in a group which goes.
unfoldable pub delete : Env → ℕ → ℕ → Exec (Unit {0})
delete env id user_id = call env World.Op.delete_group λ w.
    if any (is_owned id user_id) w.db.groups
    then (
      ok tt,
      record w {
        db = record w.db {
          groups = keep (λ g. not (is_owned id user_id g)) w.db.groups;
          monitors =
              update_where (is_member id) (λ row. record row { group_id = none }) w.db.monitors;
        };
      },
    )
    else (ok tt, w)

abbrev pub is_missing : Option ℕ → List MonitorGroup → Bool
is_missing none groups = false
is_missing (some id) groups = not (any (is_group id) groups)

-- The foreign key is checked where a row is updated.
unfoldable pub assign_monitor : Env → ℕ → ℕ → Option ℕ → Exec (Unit {0})
assign_monitor env monitor_id user_id group_id = call env World.Op.assign_group λ w.
    if any (Monitors.is_owned monitor_id user_id) w.db.monitors && is_missing group_id w.db.groups
    then (err (foreign "insert or update violates foreign key constraint"), w)
    else (
      ok tt,
      record w {
        db = record w.db {
          monitors =
              update_where (Monitors.is_owned monitor_id user_id)
                (λ row. record row { group_id = group_id }) w.db.monitors;
        };
      },
    )

abbrev memberships_of : List MonitorRow → List (ℕ × ℕ)
memberships_of [] = []
memberships_of (row ∷ rows) =
    let rest = memberships_of rows in
    elim row.group_id [ none ↦ rest | some g ↦ (row.mon.id, g) ∷ rest ]

unfoldable pub list_memberships_of : Env → ℕ → Exec (List (ℕ × ℕ))
list_memberships_of env user_id = call env list_memberships λ w. (
  ok (memberships_of (keep (λ row. row.mon.user_id == user_id && not row.deleted) w.db.monitors)),
  w,
)
