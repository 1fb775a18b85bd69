-- ===== src/Agent/Nodes/Gate.antt =====
-- `evaluate_policy`, what it calls, and `decide`, of src/opspilot/agent/nodes.py.
use opspilot_sre_incident_re.Prelude.{
  String, Bool, Option, none, some, Result, ok, err, ltb, is_some, if◌then◌else◌,
}
use opspilot_sre_incident_re.Json.{
  Json, Fields, bool, float, text, obj, end, field, get, put, get_truthy, truthy,
}
use opspilot_sre_incident_re.Agent.Policy.{PolicyVerdict, execute, require_approval, evaluate}
use opspilot_sre_incident_re.Agent.Schemas.{
  SubmitDiagnosisArgs, RecommendedAction, rollback_deployment, restart_service, scale_service,
  toggle_feature_flag, action_name, Status, diagnosed, incomplete_step_ceiling,
  incomplete_cost_ceiling, incomplete_provider_error,
}
use opspilot_sre_incident_re.Agent.Remediation
use opspilot_sre_incident_re.Agent.Remediation.{
  RollbackDeploymentArgs, ToggleFeatureFlagArgs, default_scale, dump_rollback, dump_toggle,
}
use opspilot_sre_incident_re.Agent.Idempotency.{execute_idempotently}
use opspilot_sre_incident_re.Agent.State.{GraphState, Update, no_update, Runtime, NodeDeps, World}
use opspilot_sre_incident_re.Agent.Nodes.Gather.{NodeResult, returned, interrupted}

-- `_AUTO_EXECUTABLE`: what an action type runs, on the name of the service.
unfoldable pub auto_executor : RecommendedAction → Option (String → Fields)
auto_executor restart_service = some Remediation.restart_service
auto_executor scale_service = some (λ service. Remediation.scale_service service default_scale)
auto_executor _ = none

-- `{**result, "deduplicated": deduplicated}`
abbrev pub with_deduplicated : Fields → Bool → Fields
with_deduplicated result deduplicated = put "deduplicated" (bool deduplicated) result

-- `params or {}`
abbrev pub or_empty : Option Json → Json
or_empty none = obj end
or_empty (some v) = if truthy v then v else obj end

-- The validated parameters of an approved action, and what running it returns.
abbrev pub Approved : Type 0
Approved = Fields × Fields

module _ (rt : Runtime) where
  unfoldable pub rollback_with : String → Result String RollbackDeploymentArgs → Option Approved
  rollback_with service (err e) = none
  rollback_with service (ok args) =
      some (dump_rollback args, Remediation.rollback_deployment service args)

  unfoldable pub toggle_with : String → Result String ToggleFeatureFlagArgs → Option Approved
  toggle_with service (err e) = none
  toggle_with service (ok args) =
      some (dump_toggle args, Remediation.toggle_feature_flag service args)

  -- `_APPROVABLE_ACTIONS`: validation, and the handler on what it yields; `none` where the action
  -- is not approvable or its parameters are invalid.
  unfoldable pub approve_action : RecommendedAction → String → Json → Option Approved
  unfolding rollback_with toggle_with
  approve_action rollback_deployment service params =
      rollback_with service (rt.validate_rollback params)
  approve_action toggle_feature_flag service params =
      toggle_with service (rt.validate_toggle params)
  approve_action _ service params = none

  module _ {S : Type 0} (deps : NodeDeps S) where
    -- `execute_idempotently` on the committed table, for an executor that touches nothing else.
    unfoldable pub run_once :
        RecommendedAction → Fields → Fields → World S → Option Fields × World S
    run_once action params result world =
        let (recorded, deduplicated, rows, _) =
          execute_idempotently rt.sha256 {W = Unit {0}}
            (record {
              thread_id = deps.thread_id;
              action_type = action_name action;
              target = deps.scenario.service.name;
              params = params;
            })
            (λ w. (result, w)) world.now world.executions tt in
        (some (with_deduplicated recorded deduplicated), record world { executions = rows })

    unfoldable pub run_approved :
        RecommendedAction → Option Approved → World S → Option Fields × World S
    unfolding run_once
    run_approved act none world = (none, world)
    run_approved act (some (params, result)) world = run_once act params result world

    -- `_execute_approved_action`
    unfoldable pub execute_approved_action :
        RecommendedAction → Option Json → World S → Option Fields × World S
    unfolding approve_action run_approved
    execute_approved_action action params world =
        run_approved action (approve_action action deps.scenario.service.name (or_empty params))
          world

    unfoldable pub run_auto :
        RecommendedAction → Option (String → Fields) → World S → Option Fields × World S
    unfolding run_once
    run_auto act none world = (none, world)
    run_auto act (some executor) world =
        run_once act end (executor deps.scenario.service.name) world

    abbrev policy_update : PolicyVerdict → Option Fields → Option Fields → Update
    policy_update verdict result decision = record no_update {
      policy_verdict = some (some verdict);
      remediation_result = some result;
      approval_decision = some decision;
    }

    abbrev resolve_approval :
        SubmitDiagnosisArgs → Option Fields → World S → Option Fields × World S
    resolve_approval d none world = (none, world)
    resolve_approval d (some decision) world =
        if get_truthy "approved" decision
        then execute_approved_action d.recommended_action (get "params" decision) world
        else (none, world)

    -- `_resolve_verdict`
    unfoldable pub resolve_verdict :
        SubmitDiagnosisArgs → PolicyVerdict → Option Fields → World S → Update × World S
    unfolding execute_approved_action run_auto auto_executor
    resolve_verdict d require_approval decision world =
        let (result, world') = resolve_approval d decision world in
        (policy_update require_approval result decision, world')
    resolve_verdict d execute decision world =
        let (result, world') =
          run_auto d.recommended_action (auto_executor d.recommended_action) world in
        (policy_update execute result none, world')
    resolve_verdict d verdict decision world = (policy_update verdict none none, world)

    -- The payload of `interrupt`.
    pub approval_request : SubmitDiagnosisArgs → Fields
    approval_request d = field "action_type" (text (action_name d.recommended_action)) (
        field "service" (text deps.scenario.service.name)
          (field "diagnosis" (text d.diagnosis) (field "confidence" (float d.confidence) end)))

    abbrev verdict_on : SubmitDiagnosisArgs → PolicyVerdict
    verdict_on d = evaluate (record {
      action_type = action_name d.recommended_action;
      target = deps.scenario.service.name;
      params = end;
    })

    -- By the verdict and by whether `interrupt` has an answer: with none it pauses.
    unfoldable pub gate :
        SubmitDiagnosisArgs → PolicyVerdict → Option Fields → World S → NodeResult × World S
    unfolding resolve_verdict approval_request
    gate d require_approval none world = (interrupted (approval_request d), world)
    gate d require_approval (some decision) world =
        let (u, world') = resolve_verdict d require_approval (some decision) world in
        (returned u, world')
    gate d verdict resume world =
        let (u, world') = resolve_verdict d verdict none world in (returned u, world')

    -- The node, on the answer that a resume brings, if one does.
    unfoldable pub evaluate_policy :
        Option SubmitDiagnosisArgs → Option Fields → World S → NodeResult × World S
    unfolding gate
    evaluate_policy none resume world = (
      returned (record no_update {
        policy_verdict = some none;
        remediation_result = some none;
        approval_decision = some none;
      }),
      world,
    )
    evaluate_policy (some d) resume world = gate d (verdict_on d) resume world

    unfoldable pub decide_status : GraphState → Status
    decide_status state =
        if is_some state.provider_error
        then incomplete_provider_error
        else if is_some state.diagnosis
        then diagnosed
        else if ltb deps.max_cost_usd state.estimated_cost_usd
        then incomplete_cost_ceiling
        else incomplete_step_ceiling

    unfoldable pub decide : GraphState → Update
    unfolding decide_status
    decide state = record no_update { status = some (some (decide_status state)) }
