-- ===== src/Domain/Incident.antt =====
-- internal/domain/incident.go and internal/domain/incident_update.go: the public lifecycle of an
-- incident. `other` is any text but the four known states.
use pingcast.Prelude.{ℕ, ltb, Bool, true, false, ◌&&◌, if◌then◌else◌, Option, none, some, Text}
use pingcast.Error.{Error, errorf}

pub data IncidentState : Type 0 where
  investigating identified monitoring resolved : IncidentState
  other : Text → IncidentState

pub record Incident : Type 0 where
  pub id : ℕ
  pub monitor_id : ℕ
  pub started_at : ℕ
  pub resolved_at : Option ℕ
  pub cause : Text
  pub state : IncidentState
  pub is_manual : Bool
  pub title : Option Text

pub record IncidentUpdate : Type 0 where
  pub id : ℕ
  pub incident_id : ℕ
  pub state : IncidentState
  pub body : Text
  pub posted_by_user_id : ℕ
  pub posted_at : ℕ

unfoldable pub valid : IncidentState → Bool
valid (other t) = false
valid _ = true

-- `s == next`, at a valid `next`.
abbrev pub state_eq : IncidentState → IncidentState → Bool
state_eq investigating investigating = true
state_eq identified identified = true
state_eq monitoring monitoring = true
state_eq resolved resolved = true
state_eq _ _ = false

-- The map `order`, whose missing keys read 0.
abbrev pub order : IncidentState → ℕ
order investigating = 0
order identified = 1
order monitoring = 2
order resolved = 3
order (other t) = 0

-- `CanTransitionTo`: `none` is a nil error.
unfoldable pub can_transition_to : IncidentState → IncidentState → Option Error
unfolding valid
can_transition_to s next =
    if valid next
    then (if state_eq s next
        then none
        else if ltb (order s) (order next)
        then none
        else if state_eq s monitoring && state_eq next identified
        then none
        else some (errorf "cannot move incident from %s to %s"))
    else some (errorf "invalid incident state: %q")

abbrev pub is_resolved : Incident → Bool
is_resolved i = elim i.resolved_at [ none ↦ false | some t ↦ true ]
