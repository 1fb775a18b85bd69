-- ===== src/Incidents/Approving.antt =====
-- How a human's approval settles a paused incident, by `decide_approval` of
-- src/opspilot/routers/incidents.py.
use opspilot_sre_incident_re.Prelude.{
  ℕ, ◌≡◌, refl, sym, ap, ◌∙◌, subst, String, true, false, not, ◌||◌, Option, none, some, List, ◌∷◌,
  str_eq, is_some, get_or, Result, ok, err, is_ok,
}
use opspilot_sre_incident_re.Json.{Fields, text, obj, end, field, get}
use opspilot_sre_incident_re.Models.{Scenario, Incident}
use opspilot_sre_incident_re.Agent.Schemas.{
  SubmitDiagnosisArgs, RecommendedAction, rollback_deployment, restart_service, scale_service,
  toggle_feature_flag, escalate, no_action, delete_data, action_name,
}
use opspilot_sre_incident_re.Agent.State.{GraphState, Runtime, NodeDeps, World}
use opspilot_sre_incident_re.Agent.Remediation.{RollbackDeploymentArgs, ToggleFeatureFlagArgs}
use opspilot_sre_incident_re.Agent.Idempotency.{
  existing, idempotency_key, execution_row, execute_idempotently, RemediationExecution,
}
use opspilot_sre_incident_re.Agent.Nodes.Gate.{
  resolve_verdict, approve_action, execute_approved_action, run_approved, run_once, or_empty,
  Approved, rollback_with, toggle_with,
}
use opspilot_sre_incident_re.Agent.Nodes.Approval.{needs_approval, action_of}
use opspilot_sre_incident_re.Agent.Graph.{IsEngine}
use opspilot_sre_incident_re.Incidents.Applying.{Db, ApprovalDecision, thread_id, App}
use opspilot_sre_incident_re.Incidents.Timeout.{
  decision_of, scenario_of, find_incident, apply_result, deps_for, overdue,
  maybe_apply_approval_timeout,
}
use opspilot_sre_incident_re.Incidents.{
  params_valid, decide_on, decide_approval, answered_with, decided_in,
}
use opspilot_sre_incident_re.Incidents.Resolution.{answer_of, WaitsFor, ended}
use opspilot_sre_incident_re.Incidents.Settling.{IsClosed, applied, applied-IsClosed}

module _ (rt : Runtime) {S : Type 0} (deps : NodeDeps S) where
  -- What the gate executes for an approval, if nothing is recorded under the keys of that action.
  abbrev IsFresh : RecommendedAction → World S → Type 0
  IsFresh a w =
      (params : Fields)
      → existing (idempotency_key rt.sha256 (action_of rt deps a params)) w.executions ≡ none

  -- One row more, for that action on that thread.
  abbrev pub IsExecuted :
      RecommendedAction → List RemediationExecution → List RemediationExecution → Type 0
  IsExecuted a rows rows' =
      (row : RemediationExecution) × (rows' ≡ row ∷ rows)
      × (row.action_type ≡ action_name a)
      × (row.thread_id ≡ deps.thread_id)
      × (row.target ≡ deps.scenario.service.name)

  run_approved-IsExecuted :
      (a : RecommendedAction) (o : Option Approved) (w : World S)
      → IsFresh a w
      → is_some o ≡ true
      → IsExecuted a w.executions (run_approved rt deps a o w).1.executions
  unfolding run_approved run_once execute_idempotently
  run_approved-IsExecuted a none w fresh valid = cc
  run_approved-IsExecuted a (some (params, result)) w fresh valid =
      rw (fresh params, execute_idempotently)
        (execution_row rt.sha256 (action_of rt deps a params) result w.now, refl, refl, refl, refl)

  or_empty-obj : (p : Fields) → or_empty (some (obj p)) ≡ obj p
  or_empty-obj end = refl
  or_empty-obj (field k v d) = refl

  rollback_with-some :
      (service : String) (r : Result String RollbackDeploymentArgs)
      → is_ok r ≡ true
      → is_some (rollback_with rt service r) ≡ true
  unfolding rollback_with
  rollback_with-some service (ok args) h = refl
  rollback_with-some service (err e) h = cc

  toggle_with-some :
      (service : String) (r : Result String ToggleFeatureFlagArgs)
      → is_ok r ≡ true
      → is_some (toggle_with rt service r) ≡ true
  unfolding toggle_with
  toggle_with-some service (ok args) h = refl
  toggle_with-some service (err e) h = cc

module _ {S C : Type 0} (app : App S C) where
  -- Parameters that the handler lets through pass the gate's own validation.
  approve_action-some :
      (a : RecommendedAction) (deps : NodeDeps S) (p : Fields)
      → needs_approval a ≡ true
      → params_valid app (some (text (action_name a))) p ≡ true
      → is_some (approve_action app.rt a deps.scenario.service.name (or_empty (some (obj p))))
        ≡ true
  unfolding params_valid approve_action
  approve_action-some rollback_deployment deps p needs valid = rw (or_empty-obj app.rt deps p) (
      rollback_with-some app.rt deps deps.scenario.service.name (app.rt.validate_rollback (obj p))
        valid)
  approve_action-some toggle_feature_flag deps p needs valid = rw (or_empty-obj app.rt deps p) (
      toggle_with-some app.rt deps deps.scenario.service.name (app.rt.validate_toggle (obj p))
        valid)
  approve_action-some restart_service deps p needs valid = cc
  approve_action-some scale_service deps p needs valid = cc
  approve_action-some escalate deps p needs valid = cc
  approve_action-some no_action deps p needs valid = cc
  approve_action-some delete_data deps p needs valid = cc

  answer_of-IsExecuted :
      (deps : NodeDeps S) (d : SubmitDiagnosisArgs) (body : ApprovalDecision) (w : World S)
      → needs_approval d.recommended_action ≡ true
      → body.approved ≡ true
      → params_valid app (some (text (action_name d.recommended_action))) (get_or body.params end)
        ≡ true
      → IsFresh app.rt deps d.recommended_action w
      → IsExecuted app.rt deps d.recommended_action w.executions
          (answer_of app.rt deps d (decision_of body) w).1.executions
  unfolding resolve_verdict execute_approved_action
  answer_of-IsExecuted deps d body w needs said valid fresh = rw said (
      run_approved-IsExecuted app.rt deps d.recommended_action _ w fresh
        (approve_action-some d.recommended_action deps (get_or body.params end) needs valid))

  decide_on-passes :
      (i : Incident) (body : ApprovalDecision) (trace : Option String) (db : Db S C)
      → str_eq i.status "awaiting_approval" ≡ true
      → (not body.approved
          || params_valid app
              (get "action_type" (get_or i.pending_approval end))
              (get_or body.params end))
        ≡ true
      → decide_on app i body trace db ≡ decided_in app (scenario_of i db) i body trace db
  unfolding decide_on
  decide_on-passes i body trace db pending passes =
      rw (pending, decide_on) (rw (passes, decide_on) refl)

  -- An approval is carried out: with an engine that keeps LangGraph's contract, if an incident is
  -- paused within its SLA, its thread waits at the gate on the action it asks for, nothing is
  -- recorded yet under the keys of that action, and the human approves with parameters that the
  -- handler lets through, then the reply shows the incident closed as diagnosed, the store keeps it
  -- so, its thread waits no longer, and exactly one remediation was executed, of that action on that
  -- service and thread.
  pub decide_approval-executes :
      IsEngine app.rt app.engine
      → (n : ℕ) (scenario : Scenario) (i : Incident) (d : SubmitDiagnosisArgs) (s : GraphState)
        (body : ApprovalDecision) (trace : Option String) (db : Db S C)
      → find_incident n db ≡ some i
      → str_eq i.status "awaiting_approval" ≡ true
      → overdue app i db.world.now ≡ false
      → scenario_of i db ≡ some scenario
      → WaitsFor app.engine db.checkpoints (thread_id i.id) d s
      → get "action_type" (get_or i.pending_approval end)
        ≡ some (text (action_name d.recommended_action))
      → body.approved ≡ true
      → params_valid app (some (text (action_name d.recommended_action))) (get_or body.params end)
        ≡ true
      → IsFresh app.rt (deps_for app false scenario i db) d.recommended_action db.world
      → IsClosed app n (thread_id i.id) (decide_approval app n body trace db)
        × IsExecuted app.rt
            (deps_for app false scenario i db)
            d.recommended_action
            db.world.executions
            (decide_approval app n body trace db).1.world.executions
  unfolding decide_approval maybe_apply_approval_timeout decide_on apply_result
  decide_approval-executes lawful n scenario i d s body trace db found pending early known waits
        asked said valid fresh =
      let deps = deps_for app false scenario i db in
      let e = ended app lawful scenario i d s (decision_of body) trace db waits in
      let end_db : Db S C = record db {
        checkpoints = e.checkpoints;
        world = (answer_of app.rt deps d (decision_of body) db.world).1;
      } in
      let decided : decide_on app i body trace db ≡ applied app scenario i e.result end_db =
        decide_on-passes i body trace db pending (
          ap
            (λ b.
              not b
              || params_valid app (get "action_type" (get_or i.pending_approval end))
                  (get_or body.params end))
            said
          ∙ ap (λ o. params_valid app o (get_or body.params end)) asked
          ∙ valid)
        ∙ ap (λ o. decided_in app o i body trace db) known
        ∙ ap (answered_with app scenario i) e.comes_back in
      let reached : decide_approval app n body trace db ≡ applied app scenario i e.result end_db =
        rw (found, decide_approval) (rw (early, maybe_apply_approval_timeout) decided) in
      subst
        (λ x.
          IsClosed app n (thread_id i.id) x
          × IsExecuted app.rt deps d.recommended_action db.world.executions x.1.world.executions)
        (sym reached)
        (
          applied-IsClosed app n scenario i e.result end_db found e.concluded e.thread_done,
          answer_of-IsExecuted deps d body db.world waits.needs said valid fresh,
        )
