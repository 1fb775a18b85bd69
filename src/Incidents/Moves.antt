-- ===== src/Incidents/Moves.antt =====
-- How the parts of the handlers of src/opspilot/routers/incidents.py move an incident along its life.
use opspilot_sre_incident_re.Prelude.{
  ℕ, ◌≡◌, refl, ap, ◌∙◌, String, Bool, true, false, ◌&&◌, Option, none, some, str_eq, Bool-cases,
  inl, inr, Result, ok, err, eq_iff,
}
use opspilot_sre_incident_re.Models.{Scenario, Incident}
use opspilot_sre_incident_re.Agent.Schemas.{InvestigationResult}
use opspilot_sre_incident_re.Incidents.Applying.{Db, ApprovalDecision, App, put_incident, updated}
use opspilot_sre_incident_re.Incidents.Timeout.{
  running, scenario_of, find_incident, apply_result, resumed, investigate, overdue, settled_timeout,
  timeout_in, timeout_decision, maybe_apply_approval_timeout, decision_of,
}
use opspilot_sre_incident_re.Incidents.{run_in, answered_with, decided_in}
use opspilot_sre_incident_re.Incidents.Lifecycle.{find-id, updated-id}
use opspilot_sre_incident_re.Incidents.Phases.{
  fresh, waiting, over, phase, Life, stays, starts, asks, ends_run, settles, Follows, Follows-refl,
  Follows-trans, Follows-put_incident, updated-Life,
}

-- The status tests decide the phase.
pub phase-open : (s : String) → str_eq s "open" ≡ true → phase s ≡ fresh
phase-open s h = ap phase ((eq_iff s "open").0 h)

pub phase-waiting : (s : String) → str_eq s "awaiting_approval" ≡ true → phase s ≡ waiting
phase-waiting s h = ap phase ((eq_iff s "awaiting_approval").0 h)

and-first : (a b : Bool) → (a && b) ≡ true → a ≡ true
and-first true b h = refl
and-first false b h = h

-- The incident behind a check for its timeout; an exception leaves it.
abbrev pub or_same : Incident → Result String Incident → Incident
or_same i (ok i') = i'
or_same i (err e) = i

module _ {S C : Type 0} (app : App S C) where
  apply_result-Follows :
      (n : ℕ) (scenario : Scenario) (i : Incident) (r : InvestigationResult) (db : Db S C)
      → find_incident n db ≡ some i
      → Life (phase i.status) waiting
      → Life (phase i.status) over
      → let (i', db') = apply_result app scenario i r db in
        Follows n i db.incidents i' db'.incidents
  unfolding apply_result
  apply_result-Follows n scenario i r db found pause finish =
      Follows-put_incident n i db.incidents (updated i r db.world.now) found
        (updated-id i r db.world.now ∙ find-id n db.incidents i found)
        (updated-Life i r db.world.now (phase i.status) pause finish)

  settled_timeout-Follows :
      (n : ℕ) (scenario : Scenario) (i : Incident) (r : Result String InvestigationResult)
      (db : Db S C)
      → find_incident n db ≡ some i
      → phase i.status ≡ waiting
      → let (r', db') = settled_timeout app scenario i (r, db) in
        Follows n i db.incidents (or_same i r') db'.incidents
  settled_timeout-Follows n scenario i (ok r) db found idle =
      apply_result-Follows n scenario i r db found (rw idle stays) (rw idle settles)
  settled_timeout-Follows n scenario i (err e) db found idle = Follows-refl n i db.incidents found

  timeout_in-Follows :
      (n : ℕ) (scenario : Option Scenario) (i : Incident) (trace : Option String) (db : Db S C)
      → find_incident n db ≡ some i
      → phase i.status ≡ waiting
      → let (r, db') = timeout_in app scenario i trace db in
        Follows n i db.incidents (or_same i r) db'.incidents
  unfolding resumed
  timeout_in-Follows n none i trace db found idle = Follows-refl n i db.incidents found
  timeout_in-Follows n (some scenario) i trace db found idle =
      let (r, db') = resumed app scenario i timeout_decision trace db in
      settled_timeout-Follows n scenario i r db' found idle

  pub maybe_apply-Follows :
      (n : ℕ) (i : Incident) (trace : Option String) (db : Db S C)
      → find_incident n db ≡ some i
      → let (r, db') = maybe_apply_approval_timeout app i trace db in
        Follows n i db.incidents (or_same i r) db'.incidents
  unfolding maybe_apply_approval_timeout
  maybe_apply-Follows n i trace db found = elim (Bool-cases (overdue app i db.world.now)) [
    | inl late ↦
        rw (late, maybe_apply_approval_timeout)
          (timeout_in-Follows n (scenario_of i db) i trace db found
            (phase-waiting i.status (and-first _ _ late)))
    | inr early ↦ rw (early, maybe_apply_approval_timeout) (Follows-refl n i db.incidents found)
  ]

  -- The table behind a reply.
  answered_with-Follows :
      (n : ℕ) (scenario : Scenario) (i : Incident) (r : Result String InvestigationResult)
      (db : Db S C)
      → find_incident n db ≡ some i
      → Life (phase i.status) waiting
      → Life (phase i.status) over
      → (i' : Incident) × Follows n i db.incidents i'
          (answered_with app scenario i (r, db)).1.incidents
  answered_with-Follows n scenario i (ok r) db found pause finish =
      (_, apply_result-Follows n scenario i r db found pause finish)
  answered_with-Follows n scenario i (err e) db found pause finish =
      (i, Follows-refl n i db.incidents found)

  pub run_in-Follows :
      (n : ℕ) (scenario : Option Scenario) (i : Incident) (trace : Option String) (db : Db S C)
      → find_incident n db ≡ some i
      → phase i.status ≡ fresh
      → (i' : Incident) × Follows n i db.incidents i' (run_in app scenario i trace db).1.incidents
  unfolding investigate
  run_in-Follows n none i trace db found new = (i, Follows-refl n i db.incidents found)
  run_in-Follows n (some scenario) i trace db found new =
      let i₁ = running i db.world.now in
      let l₁ = put_incident i₁ db.incidents in
      let first : Follows n i db.incidents i₁ l₁ =
        Follows-put_incident n i db.incidents i₁ found (find-id n db.incidents i found)
          (rw new starts) in
      let (r, db') = investigate app scenario i₁ trace (record db { incidents = l₁ }) in
      let (i₂, second) = answered_with-Follows n scenario i₁ r db' first.stored asks ends_run in
      (i₂, Follows-trans n i db.incidents i₁ l₁ i₂ _ first second)

  pub decided_in-Follows :
      (n : ℕ) (scenario : Option Scenario) (i : Incident) (body : ApprovalDecision)
      (trace : Option String) (db : Db S C)
      → find_incident n db ≡ some i
      → phase i.status ≡ waiting
      → (i' : Incident) × Follows n i db.incidents i'
          (decided_in app scenario i body trace db).1.incidents
  unfolding resumed
  decided_in-Follows n none i body trace db found idle = (i, Follows-refl n i db.incidents found)
  decided_in-Follows n (some scenario) i body trace db found idle =
      let (r, db') = resumed app scenario i (decision_of body) trace db in
      answered_with-Follows n scenario i r db' found (rw idle stays) (rw idle settles)
