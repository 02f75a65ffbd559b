-- ===== src/Imports/Summary.antt =====
-- An import is whole or not at all, and its summary is what it wrote.
use pingcast.Prelude.{
  ℕ, suc, ◌+◌, ◌≡◌, refl, length, update_where, Bool, List, [], ◌∷◌, arith, none, some, Option,
  Text, ◌∙◌, ap, sym,
}
use pingcast.Error.{Error, Result, ok, err}
use pingcast.Store.World.{World, Env}
use pingcast.Store.Exec.{◌>>=◌, pure}
use pingcast.Store.Exec.Reads.{
  Reads-wrapping, Reads-check, read_err, read_ok, after_ok, transaction_atomic, transaction_ok,
}
use pingcast.Accounts.Auth.Register.{given-Reads}
use pingcast.Store.Monitors
use pingcast.Store.Incidents
use pingcast.Domain.Incident.{Incident}
use pingcast.Imports
use pingcast.Imports.{
  Envs, Json, AtlassianExport, AtlassianComponent, AtlassianIncident, AtlassianIncidentUpdate,
  ImportResult, Progress, import_component, import_components, import_incidents, import_updates,
  import_update, import_row, pick_monitor, import_tables, import_export, initial,
}

-- An import that returns an error leaves the tables as they were, wherever it failed: in the body, in
-- the decoder, at the version, in any component, incident or update, or at the commit.
pub import_export-atomic :
    (envs : Envs) (j : Json) (user_id : ℕ) (body : Result Text) (w : World) (e : Error)
    → (import_export envs j user_id body w).0 ≡ err e
    → (import_export envs j user_id body w).1.db ≡ w.db
unfolding import_export
import_export-atomic envs j user_id body w e =
    let Unchanged = λ (w' : World). w'.db ≡ w.db in
    read_err Unchanged _ _ w e (Reads-wrapping _ _ (given-Reads body)) refl λ raw _.
      read_err Unchanged _ _ w e (Reads-wrapping _ _ (given-Reads (j.unmarshal raw))) refl λ exp _.
        read_err Unchanged _ _ w e (Reads-check _) refl
          λ _ _. transaction_atomic envs.whole (import_tables envs j user_id exp) w e

-- From one state of the loops to another, each table grew by what the result counts.
pub record Grew (r r' : ImportResult) (w w' : World) : Type 0 where
  pub monitors :
      length w'.db.monitors + r.monitors_created ≡ length w.db.monitors + r'.monitors_created
  pub incidents :
      length w'.db.incidents + r.incidents_created ≡ length w.db.incidents + r'.incidents_created
  pub updates : length w'.db.updates + r.updates_created ≡ length w.db.updates + r'.updates_created

Grew-trans :
    {r r' r'' : ImportResult} {w w' w'' : World}
    → Grew r r' w w'
    → Grew r' r'' w' w''
    → Grew r r'' w w''
Grew-trans g h = record {
  monitors = omega (arith, g.monitors, h.monitors);
  incidents = omega (arith, g.incidents, h.incidents);
  updates = omega (arith, g.updates, h.updates);
}

import_update-Grew :
    (env : Env) (user_id id : ℕ) (u : AtlassianIncidentUpdate) (r r' : ImportResult) (w : World)
    → (import_update env user_id id u r w).0 ≡ ok r'
    → Grew r r' w (import_update env user_id id u r w).1
unfolding import_update Incidents.append_update ◌>>=◌
import_update-Grew env user_id id u r r' w h = ground arith

import_component-Grew :
    (env : Env) (j : Json) (user_id : ℕ) (comp : AtlassianComponent) (p p' : Progress) (w : World)
    → (import_component env j user_id comp p w).0 ≡ ok p'
    → Grew p.result p'.result w (import_component env j user_id comp p w).1
unfolding import_component Monitors.create ◌>>=◌
import_component-Grew env j user_id comp p p' w h = ground arith

length-update_where :
    {A : Type 0} (q : A → Bool) (f : A → A) (xs : List A) → length (update_where q f xs) ≡ length xs
length-update_where q f [] = refl
length-update_where q f (x ∷ xs) = omega (arith, length-update_where q f xs)

import_row-Grew :
    (env : Env) (inc : AtlassianIncident) (id : ℕ) (i : Incident) (r : ImportResult) (w : World)
    → (import_row env inc id w).0 ≡ ok i
    → Grew r
        (record r { incidents_created = suc r.incidents_created })
        w
        (import_row env inc id w).1
unfolding import_row Incidents.create Incidents.resolve ◌>>=◌
import_row-Grew env inc id i r w h = grind (arith, length-update_where)

pure-Grew : (r r' : ImportResult) (w : World) → (pure r w).0 ≡ ok r' → Grew r r' w (pure r w).1
unfolding pure
pure-Grew r r' w h = ground arith

module _ (envs : Envs) (j : Json) (user_id : ℕ) where
  import_updates-Grew :
      (env : ℕ → Env) (id k : ℕ) (us : List AtlassianIncidentUpdate) (r r' : ImportResult)
      (w : World)
      → (import_updates env user_id id k us r w).0 ≡ ok r'
      → Grew r r' w (import_updates env user_id id k us r w).1
  unfolding import_updates
  import_updates-Grew env id k [] r r' w = pure-Grew r r' w
  import_updates-Grew env id k (u ∷ us) r r' w =
      after_ok (λ x. Grew r r' w x.1) (import_update (env k) user_id id u r) _ w r'
        λ r₁ e h.
          Grew-trans (import_update-Grew (env k) user_id id u r r₁ w e)
            (import_updates-Grew env id (suc k) us r₁ r' _ h)

  import_picked-Grew :
      (n : ℕ) (inc : AtlassianIncident) (r r' : ImportResult) (o : Option ℕ) (w : World)
      → (Imports.import_picked envs user_id n inc r o w).0 ≡ ok r'
      → Grew r r' w (Imports.import_picked envs user_id n inc r o w).1
  import_picked-Grew n inc r r' none w = pure-Grew r r' w
  import_picked-Grew n inc r r' (some id) w =
      after_ok (λ x. Grew r r' w x.1) (import_row (envs.incident n) inc id) _ w r'
        λ i e h.
          Grew-trans (import_row-Grew (envs.incident n) inc id i r w e)
            (import_updates-Grew (envs.update n) i.id 0 inc.incident_updates _ r' _ h)

  import_incidents-Grew :
      (m : List (Text × ℕ)) (n : ℕ) (incs : List AtlassianIncident) (r r' : ImportResult)
      (w : World)
      → (import_incidents envs user_id m n incs r w).0 ≡ ok r'
      → Grew r r' w (import_incidents envs user_id m n incs r w).1
  unfolding import_incidents
  import_incidents-Grew m n [] r r' w = pure-Grew r r' w
  import_incidents-Grew m n (inc ∷ incs) r r' w =
      after_ok (λ x. Grew r r' w x.1)
        (Imports.import_picked envs user_id n inc r (pick_monitor inc.components m)) _ w r'
        λ r₁ e h.
          Grew-trans (import_picked-Grew n inc r r₁ (pick_monitor inc.components m) w e)
            (import_incidents-Grew m (suc n) incs r₁ r' _ h)

  import_components-Grew :
      (n : ℕ) (comps : List AtlassianComponent) (p p' : Progress) (w : World)
      → (import_components envs j user_id n comps p w).0 ≡ ok p'
      → Grew p.result p'.result w (import_components envs j user_id n comps p w).1
  unfolding import_components ◌>>=◌
  import_components-Grew n [] p p' w h = ground arith
  import_components-Grew n (comp ∷ comps) p p' w h =
      after_ok (λ x. Grew p.result p'.result w x.1)
        (import_component (envs.component n) j user_id comp p)
        (import_components envs j user_id (suc n) comps) w p'
        (λ p₁ e h.
          Grew-trans (import_component-Grew (envs.component n) j user_id comp p p₁ w e)
            (import_components-Grew (suc n) comps p₁ p' _ h))
        h

  import_tables-Grew :
      (exp : AtlassianExport) (r : ImportResult) (w : World)
      → (import_tables envs j user_id exp w).0 ≡ ok r
      → Grew initial.result r w (import_tables envs j user_id exp w).1
  unfolding import_tables
  import_tables-Grew exp r w =
      after_ok (λ x. Grew initial.result r w x.1)
        (import_components envs j user_id 0 exp.components initial) _ w r
        λ p e h.
          Grew-trans (import_components-Grew 0 exp.components initial p w e)
            (import_incidents-Grew p.component_to_monitor 0 exp.incidents p.result r _ h)

-- The summary of an import that succeeds is what it wrote: the tables of monitors, of incidents and of
-- updates have that many rows more than before.
pub import_export-summary :
    (envs : Envs) (j : Json) (user_id : ℕ) (body : Result Text) (w : World) (r : ImportResult)
    → (import_export envs j user_id body w).0 ≡ ok r
    → let w' = (import_export envs j user_id body w).1 in
      (length w'.db.monitors ≡ length w.db.monitors + r.monitors_created)
      × (length w'.db.incidents ≡ length w.db.incidents + r.incidents_created)
      × (length w'.db.updates ≡ length w.db.updates + r.updates_created)
unfolding import_export
import_export-summary envs j user_id body w r h =
    let g = go h in
    (omega (arith, g.monitors), omega (arith, g.incidents), omega (arith, g.updates))
  where
    go :
        (import_export envs j user_id body w).0 ≡ ok r
        → Grew initial.result r w (import_export envs j user_id body w).1
    go =
        read_ok (λ x. Grew initial.result r w x.1) _ _ w r (Reads-wrapping _ _ (given-Reads body))
          λ raw _.
            read_ok (λ x. Grew initial.result r w x.1) _ _ w r
              (Reads-wrapping _ _ (given-Reads (j.unmarshal raw)))
              λ exp _.
                read_ok (λ x. Grew initial.result r w x.1) _ _ w r (Reads-check _)
                  λ _ _ e.
                    let t = transaction_ok envs.whole (import_tables envs j user_id exp) w r e in
                    rw t (import_tables-Grew envs j user_id exp r w (ap (λ x. x.0) (sym t) ∙ e))
