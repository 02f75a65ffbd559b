-- ===== src/Store/Incidents/Consistency.antt =====
-- What holds of the table of incidents between two calls, and which operations keep it.
use pingcast.Prelude.{
  ℕ, suc, ◌≤◌, ◌<◌, ==_iff, Bool, true, false, Option, none, some, List, [], ◌∷◌, count, find, any,
  update_where, All, ◌≡◌, refl, subst, arith, Bool-cases, inl, inr,
}
use pingcast.Prelude.Lists.Where.{
  count-of_not_any, count-update_where-le, All-update_where, All-update_where-found, All-find,
}
use pingcast.Domain.Incident.{
  Incident, IncidentState, resolved, is_resolved, state_eq, valid, can_transition_to,
}
use pingcast.Store.World.{World, Env}
use pingcast.Store.Exec.{call}
use pingcast.Error.{ok}
use pingcast.Store.Exec.Keeps.{Keeps, TablesOnly, Keeps-call}
use pingcast.Store.Exec.Reads.{Reads, Reads-call}
use pingcast.Store.Incidents.{
  one_row, CreateIncidentInput, CreateIncidentUpdateInput, is_open_for, has_id, close_at,
  with_state, default_state, new_row, create, resolve, get_by_id, open_of, append_update,
}

abbrev pub Agrees : Incident → Type 0
Agrees i = (state_eq i.state resolved ≡ is_resolved i) × (valid i.state ≡ true)

-- At most one incident of a monitor is open, identifiers are used once and were handed out, and an
-- incident is in the state `resolved` exactly if it has a time of resolution.
pub record IsConsistent (rows : List Incident) (next : ℕ) : Type 0 where
  pub one_open : (m : ℕ) → count (is_open_for m) rows ≤ 1
  pub unique : (k : ℕ) → count (has_id k) rows ≤ 1
  pub handed_out : All (λ i. i.id < next) rows
  pub agree : All Agrees rows

abbrev pub Consistent : World → Type 0
Consistent w = IsConsistent w.db.incidents w.db.next_incident

pub Consistent-TablesOnly : TablesOnly Consistent
Consistent-TablesOnly = record {
  holds = λ w w' e h. subst (λ db. IsConsistent db.incidents db.next_incident) e h;
}

count-of_below :
    (next : ℕ) (rows : List Incident) → All (λ i. i.id < next) rows → count (has_id next) rows ≡ 0
count-of_below next [] h = refl
count-of_below next (i ∷ rows) h = ground (arith, count-of_below next rows)

All-suc :
    (next : ℕ) (rows : List Incident)
    → All (λ i. i.id < next) rows
    → All (λ i. i.id < suc next) rows
All-suc next [] h = h
All-suc next (i ∷ rows) h = (omega arith, All-suc next rows h.1)

pub IsConsistent-insert :
    (i : Incident) (rows : List Incident)
    → any (is_open_for i.monitor_id) rows ≡ false
    → Agrees i
    → IsConsistent rows i.id
    → IsConsistent (i ∷ rows) (suc i.id)
IsConsistent-insert i rows free agrees h = record {
  one_open = λ m. ground (
    arith,
    h.one_open m,
    count-of_not_any (is_open_for i.monitor_id) rows free,
    ==_iff i.monitor_id m,
  );
  unique = λ k. ground (arith, h.unique k, count-of_below i.id rows h.handed_out, ==_iff i.id k);
  handed_out = (omega arith, All-suc i.id rows h.handed_out);
  agree = (agrees, h.agree);
}

-- An update of rows that changes neither their monitor nor their identifier.
pub IsConsistent-update :
    (q : Incident → Bool) (f : Incident → Incident) (rows : List Incident) (next : ℕ)
    → ((i : Incident) → (f i).id ≡ i.id)
    → ((i : Incident) (m : ℕ) → is_open_for m (f i) ≡ true → is_open_for m i ≡ true)
    → All Agrees (update_where q f rows)
    → IsConsistent rows next
    → IsConsistent (update_where q f rows) next
IsConsistent-update q f rows next same_id stays agree h = record {
  one_open = λ m.
      omega
        (arith, h.one_open m, count-update_where-le (is_open_for m) q f rows (λ i o. stays i m o));
  unique = λ k. omega (
    arith,
    h.unique k,
    count-update_where-le (has_id k) q f rows (λ i e. ground (arith, same_id i)),
  );
  handed_out =
      All-update_where (λ i. i.id < next) q f rows (λ i below. omega (arith, same_id i))
        h.handed_out;
  agree = agree;
}

pub IsConsistent-close :
    (id at : ℕ) (rows : List Incident) (next : ℕ)
    → IsConsistent rows next
    → IsConsistent (update_where (has_id id) (close_at at) rows) next
unfolding valid
IsConsistent-close id at rows next h =
    IsConsistent-update (has_id id) (close_at at) rows next (λ i. refl) (λ i m o. ground arith)
      (All-update_where Agrees (has_id id) (close_at at) rows (λ i a. (refl, refl)) h.agree) h

-- A transition that the lifecycle allows, to another state than `resolved`, from the state of the
-- one row that it changes.
pub IsConsistent-move :
    (id : ℕ) (s : IncidentState) (i : Incident) (rows : List Incident) (next : ℕ)
    → find (has_id id) rows ≡ some i
    → can_transition_to i.state s ≡ none
    → state_eq s resolved ≡ false
    → IsConsistent rows next
    → IsConsistent (update_where (has_id id) (with_state s) rows) next
unfolding can_transition_to
IsConsistent-move id s i rows next found allowed moving h =
    IsConsistent-update (has_id id) (with_state s) rows next (λ j. refl) (λ j m o. ground arith)
      (All-update_where-found Agrees (has_id id) (with_state s) rows i found (h.unique id)
        (moved s i.state (is_resolved i) allowed moving
          (All-find Agrees (has_id id) rows i h.agree found))
        h.agree)
      h
  where
    moved :
        (s t : IncidentState) (b : Bool)
        → can_transition_to t s ≡ none
        → state_eq s resolved ≡ false
        → (state_eq t resolved ≡ b) × (valid t ≡ true)
        → (state_eq s resolved ≡ b) × (valid s ≡ true)
    moved s t b a o g = ground arith

-- Setting a state and then closing the same rows is closing them.
pub close-with_state :
    (id at : ℕ) (s : IncidentState) (rows : List Incident)
    → update_where (has_id id) (close_at at) (update_where (has_id id) (with_state s) rows)
      ≡ update_where (has_id id) (close_at at) rows
close-with_state id at s [] = refl
close-with_state id at s (i ∷ rows) = ground (arith, close-with_state id at s rows)

pub create-Consistent :
    (env : Env) (in' : CreateIncidentInput)
    → state_eq (default_state in'.state) resolved ≡ false
    → Keeps Consistent (create env in')
unfolding create
create-Consistent env in' unresolved = Keeps-call env _ _ (record {
  at = λ w h. elim (Bool-cases (valid (default_state in'.state))) [
    | inl v ↦ elim (Bool-cases (any (is_open_for in'.monitor_id) w.db.incidents)) [
      | inl o ↦ rw (v, o) h
      | inr free ↦
          rw (v, free)
            (IsConsistent-insert (new_row w.db.next_incident env.now in') w.db.incidents free
              (unresolved, v) h)
    ]
    | inr v ↦ rw v h
  ];
})

pub resolve-Consistent : (env : Env) (id at : ℕ) → Keeps Consistent (resolve env id at)
unfolding resolve
resolve-Consistent env id at =
    Keeps-call env _ _
      (record { at = λ w h. IsConsistent-close id at w.db.incidents w.db.next_incident h })

pub append_update-Consistent :
    (env : Env) (in' : CreateIncidentUpdateInput) → Keeps Consistent (append_update env in')
unfolding append_update
append_update-Consistent env in' =
    Keeps-call env _ _ (record {
      at = λ w h. elim (Bool-cases (valid in'.state)) [ inl v ↦ rw v h | inr v ↦ rw v h ];
    })

one_row_same : (o : Option Incident) (w : World) → (one_row o w).1 ≡ w
one_row_same none w = refl
one_row_same (some i) w = refl

pub get_by_id-Reads : (env : Env) (id : ℕ) → Reads (get_by_id env id)
unfolding get_by_id
get_by_id-Reads env id = Reads-call env _ _ (record { same = λ w. one_row_same _ w })

pub open_of-Reads : (env : Env) (m : ℕ) → Reads (open_of env m)
unfolding open_of
open_of-Reads env m = Reads-call env _ _ (record { same = λ w. one_row_same _ w })

pub get_by_id-ok :
    (env : Env) (id : ℕ) (w : World) (i : Incident)
    → (get_by_id env id w).0 ≡ ok i
    → find (has_id id) w.db.incidents ≡ some i
unfolding get_by_id call
get_by_id-ok env id w i h = ground arith
