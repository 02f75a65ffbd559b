-- ===== src/Monitoring/Groups.antt =====
-- internal/app/monitoring.go: the groups of monitors, whose methods pass their call on.
use pingcast.Prelude.{
  ℕ, ◌==◌, Bool, not, Option, none, List, [], ◌∷◌, ◌≡◌, refl, map, keep, any, update_where, Text,
  arith, Bool-cases, inl, inr, ◌∙◌, ◌&&◌,
}
use pingcast.Prelude.Int.{ℤ}
use pingcast.Domain.Group.{MonitorGroup}
use pingcast.Store.World.{World, Env, MonitorRow}
use pingcast.Store.Exec.{Exec}
use pingcast.Store.Exec.Keeps.{Keeps-call}
use pingcast.Store.Groups
use pingcast.Store.Groups.{is_owned, is_member}
use pingcast.Store.Monitors

unfoldable pub create_monitor_group : Env → ℕ → Text → ℤ → Exec MonitorGroup
create_monitor_group env user_id name ordering = Groups.create env user_id name ordering

unfoldable pub list_monitor_groups : Env → ℕ → Exec (List MonitorGroup)
list_monitor_groups env user_id = Groups.list_by_user env user_id

unfoldable pub update_monitor_group : Env → ℕ → ℕ → Text → ℤ → Exec (Unit {0})
update_monitor_group env id user_id name ordering = Groups.update env id user_id name ordering

unfoldable pub delete_monitor_group : Env → ℕ → ℕ → Exec (Unit {0})
delete_monitor_group env id user_id = Groups.delete env id user_id

unfoldable pub assign_monitor_group : Env → ℕ → ℕ → Option ℕ → Exec (Unit {0})
assign_monitor_group env monitor_id user_id group_id =
    Groups.assign_monitor env monitor_id user_id group_id

-- What a user writes to groups.
pub data GroupWrite : Type 0 where
  creating : Text → ℤ → GroupWrite
  updating : ℕ → Text → ℤ → GroupWrite
  deleting : ℕ → GroupWrite
  assigning : (monitor_id : ℕ) → Option ℕ → GroupWrite

unfoldable pub written : Env → ℕ → GroupWrite → World → World
unfolding create_monitor_group update_monitor_group delete_monitor_group assign_monitor_group
written env user_id (creating name ordering) w =
    (create_monitor_group env user_id name ordering w).1
written env user_id (updating id name ordering) w =
    (update_monitor_group env id user_id name ordering w).1
written env user_id (deleting id) w = (delete_monitor_group env id user_id w).1
written env user_id (assigning monitor_id group_id) w =
    (assign_monitor_group env monitor_id user_id group_id w).1

abbrev pub others : ℕ → List MonitorGroup → List MonitorGroup
others user_id = keep (λ g. not (g.user_id == user_id))

others-update_where :
    (user_id id : ℕ) (f : MonitorGroup → MonitorGroup) (gs : List MonitorGroup)
    → ((g : MonitorGroup) → (f g).user_id ≡ g.user_id)
    → others user_id (update_where (is_owned id user_id) f gs) ≡ others user_id gs
others-update_where user_id id f [] k = refl
others-update_where user_id id f (g ∷ gs) k =
    ground (arith, others-update_where user_id id f gs k, k g)

others-keep :
    (user_id id : ℕ) (gs : List MonitorGroup)
    → others user_id (keep (λ g. not (is_owned id user_id g)) gs) ≡ others user_id gs
others-keep user_id id [] = refl
others-keep user_id id (g ∷ gs) = ground (arith, others-keep user_id id gs)

mons-update_where :
    (q : MonitorRow → Bool) (o : Option ℕ) (rows : List MonitorRow)
    → map (λ row. row.mon) (update_where q (λ row. record row { group_id = o }) rows)
      ≡ map (λ row. row.mon) rows
mons-update_where q o [] = refl
mons-update_where q o (row ∷ rows) = ground (arith, mons-update_where q o rows)

abbrev Apart : ℕ → World → World → Type 0
Apart user_id w₀ w =
    (others user_id w.db.groups ≡ others user_id w₀.db.groups)
    × (map (λ row. row.mon) w.db.monitors ≡ map (λ row. row.mon) w₀.db.monitors)

-- A user who creates, renames, deletes a group or moves a monitor into one changes no group of another
-- user, and no field of any monitor but the group that it stands in.
pub written-others :
    (env : Env) (user_id : ℕ) (x : GroupWrite) (w : World)
    → (others user_id (written env user_id x w).db.groups ≡ others user_id w.db.groups)
      × (map (λ row. row.mon) (written env user_id x w).db.monitors
          ≡ map (λ row. row.mon) w.db.monitors)
unfolding written Groups.create Groups.update Groups.delete Groups.assign_monitor
written-others env user_id (creating name ordering) w =
    (Keeps-call {P = Apart user_id w} env _ _
        (record { at = λ w' h. (ground (arith, h.0), h.1) })).at
      w (refl, refl)
written-others env user_id (updating id name ordering) w =
    let rename = λ (g : MonitorGroup). record g { name = name; ordering = Groups.int32 ordering } in
    (Keeps-call {P = Apart user_id w} env _ _ (record {
      at = λ w' h. (others-update_where user_id id rename w'.db.groups (λ g. refl) ∙ h.0, h.1);
    })).at
      w (refl, refl)
written-others env user_id (deleting id) w =
    (Keeps-call {P = Apart user_id w} env _ _ (record {
      at = λ w' h. elim (Bool-cases (any (is_owned id user_id) w'.db.groups)) [
        | inl e ↦ rw e (
          others-keep user_id id w'.db.groups ∙ h.0,
          mons-update_where (is_member id) none w'.db.monitors ∙ h.1,
        )
        | inr e ↦ rw e h
      ];
    })).at
      w (refl, refl)
written-others env user_id (assigning monitor_id group_id) w =
    (Keeps-call {P = Apart user_id w} env _ _ (record {
      at = λ w' h.
          elim (Bool-cases (
            any (Monitors.is_owned monitor_id user_id) w'.db.monitors
            && Groups.is_missing group_id w'.db.groups)) [
              | inl e ↦ rw e h
              | inr e ↦ rw e (
                h.0,
                mons-update_where (Monitors.is_owned monitor_id user_id) group_id w'.db.monitors
                    ∙ h.1,
              )
            ];
    })).at
      w (refl, refl)
