-- ===== src/Incidents/Lifecycle.antt =====
-- The life of an incident under the handlers of src/opspilot/routers/incidents.py: runs, closed
-- incidents and late approvals.
use opspilot_sre_incident_re.Prelude.{
  eqb_refl, eqb→eq, ℕ, ◌≡◌, refl, sym, ap, ◌∙◌, String, true, false, Option, some, List, [], ◌∷◌,
  ◌==◌, str_eq, find, Bool-cases, inl, inr, Result, ok, err, arith, subst, get_or,
}
use opspilot_sre_incident_re.Models.{Scenario, Incident}
use opspilot_sre_incident_re.Agent.Schemas.{
  Status, diagnosed, awaiting_approval, incomplete_step_ceiling, incomplete_cost_ceiling,
  incomplete_provider_error, InvestigationResult, status_name,
}
use opspilot_sre_incident_re.Incidents.Applying.{
  Db, refused, ApprovalDecision, awaits, put_incident, updated, App,
}
use opspilot_sre_incident_re.Incidents.Timeout.{
  apply_result, scenario_of, find_incident, overdue, resumed, investigate, timeout_decision,
  maybe_apply_approval_timeout, running,
}
use opspilot_sre_incident_re.Incidents.{
  run_in, answered_with, run_incident, decide_on, decide_approval,
}

pub find-id :
    (n : ℕ) (l : List Incident) (i : Incident) → find (λ j. j.id == n) l ≡ some i → i.id ≡ n
find-id n [] i h = absurd (ground arith)
find-id n (j ∷ l) i h = elim (Bool-cases (j.id == n)) [
  | inl hit ↦
      let e : find (λ j. j.id == n) (j ∷ l) ≡ some j = rw hit refl in
      ap (λ x. x.id) (sym (ap (λ x. get_or x j) (sym e ∙ h))) ∙ eqb→eq j.id n hit
  | inr miss ↦
      let e : find (λ j. j.id == n) (j ∷ l) ≡ find (λ j. j.id == n) l = rw miss refl in
      find-id n l i (sym e ∙ h)
]

pub find-put :
    (n : ℕ) (l : List Incident) (i k : Incident)
    → find (λ j. j.id == n) l ≡ some i
    → k.id ≡ n
    → find (λ j. j.id == n) (put_incident k l) ≡ some k
find-put n [] i k h e = absurd (ground arith)
find-put n (j ∷ l) i k h e = elim (Bool-cases (j.id == n)) [
  | inl hit ↦
      let at : j.id == k.id ≡ true = rw e hit in
      let new : k.id == n ≡ true = rw e (eqb_refl n) in rw at (rw new refl)
  | inr miss ↦
      let at : j.id == k.id ≡ false = rw e miss in
      let before : find (λ x. x.id == n) (j ∷ l) ≡ find (λ x. x.id == n) l = rw miss refl in
      rw at (rw miss (find-put n l i k (sym before ∙ h) e))
]

pub updated-id : (i : Incident) (r : InvestigationResult) (now : ℕ) → (updated i r now).id ≡ i.id
unfolding updated
updated-id i r now = elim (Bool-cases (awaits r.status)) [ inl a ↦ rw a refl | inr a ↦ rw a refl ]

status_name-open : (s : Status) → str_eq (status_name s) "open" ≡ false
status_name-open diagnosed = refl
status_name-open awaiting_approval = refl
status_name-open incomplete_step_ceiling = refl
status_name-open incomplete_cost_ceiling = refl
status_name-open incomplete_provider_error = refl

updated-open :
    (i : Incident) (r : InvestigationResult) (now : ℕ)
    → str_eq (updated i r now).status "open" ≡ false
unfolding updated
updated-open i r now = elim (Bool-cases (awaits r.status)) [
  | inl a ↦ rw a refl
  | inr a ↦ rw a (status_name-open r.status)
]

status_name-closed :
    (s : Status) → awaits s ≡ false → str_eq (status_name s) "awaiting_approval" ≡ false
status_name-closed diagnosed h = refl
status_name-closed awaiting_approval h = cc
status_name-closed incomplete_step_ceiling h = refl
status_name-closed incomplete_cost_ceiling h = refl
status_name-closed incomplete_provider_error h = refl

updated-closed :
    (i : Incident) (r : InvestigationResult) (now : ℕ)
    → awaits r.status ≡ false
    → str_eq (updated i r now).status "awaiting_approval" ≡ false
unfolding updated
updated-closed i r now h = rw h (status_name-closed r.status h)

module _ {S C : Type 0} (app : App S C) where
  pub run-refused :
      (n : ℕ) (trace : Option String) (i : Incident) (db : Db S C)
      → find_incident n db ≡ some i
      → str_eq i.status "open" ≡ false
      → run_incident app n trace db ≡ (refused 409, db)
  unfolding run_incident
  run-refused n trace i db found shut = rw (found, run_incident) (rw shut refl)

  answered-refused :
      (n : ℕ) (trace : Option String) (scenario : Scenario) (i j : Incident)
      (result : Result String InvestigationResult) (db : Db S C)
      → find_incident n db ≡ some j
      → i.id ≡ n
      → str_eq j.status "open" ≡ false
      → let (reply, db') = answered_with app scenario i (result, db) in
        run_incident app n trace db' ≡ (refused 409, db')
  unfolding apply_result
  answered-refused n trace scenario i j (ok r) db found same shut =
      run-refused n trace (updated i r db.world.now) _
        (find-put n db.incidents j (updated i r db.world.now) found
          (updated-id i r db.world.now ∙ same))
        (updated-open i r db.world.now)
  answered-refused n trace scenario i j (err e) db found same shut =
      run-refused n trace j db found shut

  -- An incident is run at most once: behind a first `run_incident` that passes the check, however
  -- the investigation ended, an exception included, every further one is refused with 409 and
  -- changes nothing.
  pub run_incident-once :
      (n : ℕ) (trace later : Option String) (i : Incident) (scenario : Scenario) (db : Db S C)
      → find_incident n db ≡ some i
      → str_eq i.status "open" ≡ true
      → scenario_of i db ≡ some scenario
      → let (reply, db') = run_incident app n trace db in
        run_incident app n later db' ≡ (refused 409, db')
  unfolding investigate run_incident
  run_incident-once n trace later i scenario db found opened known =
      let e : run_incident app n trace db ≡ run_in app (some scenario) i trace db =
        rw (found, run_incident) (rw opened (rw known refl)) in
      subst (λ x. run_incident app n later x.1 ≡ (refused 409, x.1)) (sym e)
        (answered-refused n later scenario (running i db.world.now) (running i db.world.now) _ _
          (find-put n db.incidents i (running i db.world.now) found
            (find-id n db.incidents i found))
          (find-id n db.incidents i found) refl)

  refused-behind :
      (i : Incident) (result : InvestigationResult) (scenario : Scenario) (body : ApprovalDecision)
      (trace : Option String) (db : Db S C)
      → str_eq (updated i result db.world.now).status "awaiting_approval" ≡ false
      → let (i', db') = apply_result app scenario i result db in
        decide_on app i' body trace db' ≡ (refused 409, db')
  unfolding apply_result decide_on
  refused-behind i result scenario body trace db idle = rw (idle, decide_on) refl

  -- An approval that comes past the SLA is never applied: if the resume that the timeout makes
  -- finishes the investigation, the request is refused with 409 whatever it says, and the store is
  -- the one in which the timeout's own denial was applied.
  pub late_approval-refused :
      (n : ℕ) (trace : Option String) (body : ApprovalDecision) (i : Incident) (scenario : Scenario)
      (result : InvestigationResult) (db db' : Db S C)
      → find_incident n db ≡ some i
      → overdue app i db.world.now ≡ true
      → scenario_of i db ≡ some scenario
      → resumed app scenario i timeout_decision trace db ≡ (ok result, db')
      → awaits result.status ≡ false
      → decide_approval app n body trace db
        ≡ (refused 409, (apply_result app scenario i result db').1)
  unfolding maybe_apply_approval_timeout decide_approval
  late_approval-refused n trace body i scenario result db db' found late known ended closed =
      let e : maybe_apply_approval_timeout app i trace db ≡ (
        ok (apply_result app scenario i result db').0,
        (apply_result app scenario i result db').1,
      ) =
        rw (late, maybe_apply_approval_timeout) (rw known (rw ended refl)) in
      let idle = updated-closed i result db'.world.now closed in
      rw (found, decide_approval) (rw e (refused-behind i result scenario body trace db' idle))
