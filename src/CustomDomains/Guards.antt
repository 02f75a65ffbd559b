-- ===== src/CustomDomains/Guards.antt =====
-- What must hold for the worker to move a hostname on.
use pingcast.Prelude.{
  ℕ, ◌==◌, String, Bool, true, false, ◌&&◌, Option, none, some, any, text_eq, trim_space, ◌≡◌, refl,
  arith, Bool-cases, inl, inr,
}
use pingcast.Error.{Error}
use pingcast.Domain.CustomDomain.{
  CustomDomain, CustomDomainStatus, pending, validated, active, failed, is_active, is_validated,
  is_waiting,
}
use pingcast.Store.World.{World, Env}
use pingcast.Store.Exec.Keeps.{Keeps, Keeps-bind, Keeps-attempt, Keeps-pure}
use pingcast.Store.Domains.{has_id}
use pingcast.CustomDomains.Worker.{
  Network, Answer, no_answer, answer, advanced, run_validation_once, mark_failed, judged,
  validate_dns, issued, provision_cert,
}
use pingcast.CustomDomains.Progress.{Free, update_status-Free, run-Free}

-- The hostname answers the probe with its token.
abbrev pub answers : Answer → CustomDomain → Bool
answers (no_answer reason) d = false
answers (answer status body) d = (status == 200) && text_eq (trim_space body) d.validation_token

abbrev pub proves : Network → CustomDomain → Bool
proves net d = answers (net.probe d.hostname d.validation_token) d

abbrev pub issues : Network → CustomDomain → Bool
issues net d = elim (net.provision d.hostname) [ none ↦ true | some e ↦ false ]

-- The rows that may become validated, and active, in this run.
abbrev pub provable : ℕ → Network → CustomDomain → Bool
provable id net d = has_id id d && is_waiting d && proves net d

abbrev pub issuable : ℕ → Network → CustomDomain → Bool
issuable id net d = has_id id d && is_validated d && issues net d

abbrev pub validated_with : ℕ → CustomDomain → Bool
validated_with id d = has_id id d && is_validated d

abbrev pub active_with : ℕ → CustomDomain → Bool
active_with id d = has_id id d && is_active d

module _ (q : CustomDomain → Bool) (env : Env) where
  mark_failed-Free :
      (id : ℕ) (reason : String)
      → ((d : CustomDomain) → d.status ≡ failed → q d ≡ false)
      → Keeps (Free q) (mark_failed env id reason)
  unfolding mark_failed
  mark_failed-Free id reason k =
      Keeps-bind _ _ (Keeps-attempt _ (update_status-Free q env id failed _ none none (λ d _. k d)))
        λ r. Keeps-pure tt

module _ (env : Env) (net : Network) (id : ℕ) where
  issued-Free :
      (d : CustomDomain) (e : Option Error)
      → ((d' : CustomDomain) → e ≡ none → (d'.id == d.id) ≡ true → active_with id d' ≡ false)
      → Keeps (Free (active_with id)) (issued env d e)
  issued-Free d (some e) k =
      Keeps-bind _ _ (mark_failed-Free (active_with id) env d.id _ (λ d' s. rw s (ground arith)))
        λ _. Keeps-pure false
  issued-Free d none k =
      Keeps-bind _ _
        (Keeps-attempt _ (
          update_status-Free (active_with id) env d.id active none none _
            (λ d' same s. k d' refl same)))
        λ r. Keeps-pure _

  judged-Free :
      (q : CustomDomain → Bool) (d : CustomDomain) (a : Answer)
      → ((d' : CustomDomain) → d'.status ≡ failed → q d' ≡ false)
      → ((d' : CustomDomain)
          → answers a d ≡ true
          → (d'.id == d.id) ≡ true
          → d'.status ≡ validated
          → q d' ≡ false)
      → Keeps (Free q) (judged env d a)
  judged-Free q d (no_answer reason) f v = mark_failed-Free q env d.id reason f
  judged-Free q d (answer status body) f v = elim (Bool-cases (status == 200)) [
    | inl good ↦ elim (Bool-cases (text_eq (trim_space body) d.validation_token)) [
      | inl same ↦
          rw (good, same)
            (Keeps-bind _ _
              (Keeps-attempt _ (
                update_status-Free q env d.id validated none _ none
                  (λ d' i s. v d' (rw (good, same) refl) i s)))
              λ r. Keeps-pure tt)
      | inr other ↦ rw (good, other) (mark_failed-Free q env d.id _ f)
    ]
    | inr bad ↦ rw bad (mark_failed-Free q env d.id _ f)
  ]

  not_active :
      (s : CustomDomainStatus) (d : CustomDomain)
      → d.status ≡ s
      → elim s [ active ↦ true | _ ↦ false ] ≡ false
      → active_with id d ≡ false
  not_active s d e h = rw e (ground (arith, h))

  probe-active : (d : CustomDomain) → Keeps (Free (active_with id)) (validate_dns env net d)
  unfolding validate_dns
  probe-active d =
      judged-Free (active_with id) d (net.probe d.hostname d.validation_token)
        (λ d' s. not_active failed d' s refl) (λ d' _ _ s. not_active validated d' s refl)

  step-active :
      (d : CustomDomain) (s : CustomDomainStatus)
      → d.status ≡ s
      → issuable id net d ≡ false
      → Keeps (Free (active_with id)) (advanced env net d s)
  unfolding provision_cert
  step-active d pending e h = Keeps-bind _ _ (probe-active d) λ _. Keeps-pure false
  step-active d failed e h = Keeps-bind _ _ (probe-active d) λ _. Keeps-pure false
  step-active d validated e h =
      issued-Free d (net.provision d.hostname) (λ d' n same. ground (arith, h))
  step-active d active e h = Keeps-pure false

  issued-validated :
      (d : CustomDomain) (e : Option Error) → Keeps (Free (validated_with id)) (issued env d e)
  issued-validated d (some e) =
      Keeps-bind _ _ (mark_failed-Free (validated_with id) env d.id _ (λ d' s. rw s (ground arith)))
        λ _. Keeps-pure false
  issued-validated d none =
      Keeps-bind _ _
        (Keeps-attempt _ (
          update_status-Free (validated_with id) env d.id active none none _
            (λ d' same s. rw s (ground arith))))
        λ r. Keeps-pure _

  probe-validated :
      (d : CustomDomain) (s : CustomDomainStatus)
      → d.status ≡ s
      → elim s [ pending ↦ true | failed ↦ true | _ ↦ false ] ≡ true
      → provable id net d ≡ false
      → Keeps (Free (validated_with id)) (validate_dns env net d)
  unfolding validate_dns
  probe-validated d s e waits h =
      judged-Free (validated_with id) d (net.probe d.hostname d.validation_token)
        (λ d' s'. rw s' (ground arith)) (λ d' told same s'. ground (arith, h, e, waits))

  step-validated :
      (d : CustomDomain) (s : CustomDomainStatus)
      → d.status ≡ s
      → provable id net d ≡ false
      → Keeps (Free (validated_with id)) (advanced env net d s)
  unfolding provision_cert
  step-validated d pending e h =
      Keeps-bind _ _ (probe-validated d pending e refl h) λ _. Keeps-pure false
  step-validated d failed e h =
      Keeps-bind _ _ (probe-validated d failed e refl h) λ _. Keeps-pure false
  step-validated d validated e h = issued-validated d (net.provision d.hostname)
  step-validated d active e h = Keeps-pure false

-- A hostname that is not active is still not active after a run of the worker, whatever outside call
-- fails, unless a certificate was issued for it while it was validated.
pub run_validation_once-active :
    (env : Env) (net : Network) (id : ℕ) (w : World)
    → any (issuable id net) w.db.domains ≡ false
    → any (active_with id) w.db.domains ≡ false
    → any (active_with id) (run_validation_once env net w).1.db.domains ≡ false
run_validation_once-active env net id w b h =
    run-Free (active_with id) env net (issuable id net)
      (λ d good. step-active env net id d d.status refl good) w b h

-- A hostname that is not validated is still not validated after a run of the worker, whatever
-- outside call fails, unless it was pending or failed and answered the probe with the code 200 and
-- its token.
pub run_validation_once-validated :
    (env : Env) (net : Network) (id : ℕ) (w : World)
    → any (provable id net) w.db.domains ≡ false
    → any (validated_with id) w.db.domains ≡ false
    → any (validated_with id) (run_validation_once env net w).1.db.domains ≡ false
run_validation_once-validated env net id w b h =
    run-Free (validated_with id) env net (provable id net)
      (λ d good. step-validated env net id d d.status refl good) w b h
