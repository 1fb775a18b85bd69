-- ===== src/Incidents/Settling.antt =====
-- How the next read settles a paused incident behind its SLA, by `get_incident` of
-- src/opspilot/routers/incidents.py.
use opspilot_sre_incident_re.Prelude.{
  ℕ, ◌≡◌, refl, sym, ◌∙◌, subst, String, true, false, Option, none, some,
}
use opspilot_sre_incident_re.Models.{Scenario, Incident}
use opspilot_sre_incident_re.Agent.Schemas.{SubmitDiagnosisArgs, diagnosed, InvestigationResult}
use opspilot_sre_incident_re.Agent.State.{GraphState}
use opspilot_sre_incident_re.Agent.Nodes.Gate.{resolve_verdict}
use opspilot_sre_incident_re.Agent.Graph.{IsEngine}
use opspilot_sre_incident_re.Incidents.Applying.{Db, Reply, shown, thread_id, App, updated}
use opspilot_sre_incident_re.Incidents.Timeout.{
  timeout_decision, scenario_of, find_incident, apply_result, deps_for, overdue,
  maybe_apply_approval_timeout,
}
use opspilot_sre_incident_re.Incidents.{get_incident}
use opspilot_sre_incident_re.Incidents.Lifecycle.{find-id, find-put, updated-id}
use opspilot_sre_incident_re.Incidents.Resolution.{answer_of, WaitsFor, ended}

updated-diagnosed :
    (i : Incident) (r : InvestigationResult) (now : ℕ)
    → r.status ≡ diagnosed
    → (updated i r now).status ≡ "diagnosed"
unfolding updated
updated-diagnosed i r now h = rw h refl

module _ {S C : Type 0} (app : App S C) where
  -- The reply shows the incident closed with its diagnosis, the store keeps it so, and its thread is
  -- no longer paused.
  abbrev pub IsClosed : ℕ → String → Reply Incident × Db S C → Type 0
  IsClosed n thread (reply, db) =
      (i : Incident) × (reply ≡ shown i)
      × (i.status ≡ "diagnosed")
      × (find_incident n db ≡ some i)
      × (app.engine.saved db.checkpoints thread ≡ none)

  -- `_apply_result` of a result that came back diagnosed, as a reply and a store.
  abbrev pub applied : Scenario → Incident → InvestigationResult → Db S C → Reply Incident × Db S C
  applied scenario i r db = let (i', db') = apply_result app scenario i r db in (shown i', db')

  pub applied-IsClosed :
      (n : ℕ) (scenario : Scenario) (i : Incident) (r : InvestigationResult) (db : Db S C)
      → find_incident n db ≡ some i
      → r.status ≡ diagnosed
      → app.engine.saved db.checkpoints (thread_id i.id) ≡ none
      → IsClosed n (thread_id i.id) (applied scenario i r db)
  unfolding apply_result
  applied-IsClosed n scenario i r db found closes done =
      let i' = updated i r db.world.now in
      (
        i',
        refl,
        updated-diagnosed i r db.world.now closes,
        find-put n db.incidents i i' found
            (updated-id i r db.world.now ∙ find-id n db.incidents i found),
        done,
      )

  -- A pause does not last for ever: with an engine that keeps LangGraph's contract, the next read of an
  -- incident that is past its SLA, and whose thread waits at the gate, shows it closed as diagnosed,
  -- and keeps it so; its thread waits no longer, and no remediation was executed.
  pub get_incident-settles :
      IsEngine app.rt app.engine
      → (n : ℕ) (scenario : Scenario) (i : Incident) (d : SubmitDiagnosisArgs) (s : GraphState)
        (trace : Option String) (db : Db S C)
      → find_incident n db ≡ some i
      → overdue app i db.world.now ≡ true
      → scenario_of i db ≡ some scenario
      → WaitsFor app.engine db.checkpoints (thread_id i.id) d s
      → IsClosed n (thread_id i.id) (get_incident app n trace db)
        × ((get_incident app n trace db).1.world.executions ≡ db.world.executions)
  unfolding get_incident maybe_apply_approval_timeout resolve_verdict apply_result
  get_incident-settles lawful n scenario i d s trace db found late known waits =
      let e = ended app lawful scenario i d s timeout_decision trace db waits in
      let end_db : Db S C = record db {
        checkpoints = e.checkpoints;
        world = (answer_of app.rt (deps_for app false scenario i db) d timeout_decision db.world).1;
      } in
      let reached : get_incident app n trace db ≡ applied scenario i e.result end_db =
        rw (found, get_incident)
          (rw (late, maybe_apply_approval_timeout)
            (rw known (rw (e.comes_back, apply_result) refl))) in
      subst (λ x. IsClosed n (thread_id i.id) x × (x.1.world.executions ≡ db.world.executions))
        (sym reached)
        (applied-IsClosed n scenario i e.result end_db found e.concluded e.thread_done, refl)
