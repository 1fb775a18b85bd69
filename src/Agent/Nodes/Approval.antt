-- ===== src/Agent/Nodes/Approval.antt =====
-- What the policy gate of src/opspilot/agent/nodes.py lets happen: `evaluate_policy`, with the
-- table of executed remediations as the effect that counts.
use opspilot_sre_incident_re.Prelude.{
  ◌≡◌, refl, sym, ◌∙◌, ◌⊎◌, ◌↔◌, inl, inr, String, Bool, true, false, Option, none, some, List, ◌∷◌,
  arith, Option-cases, Bool-cases, is_some,
}
use opspilot_sre_incident_re.Json.{Fields, get, get_truthy, end}
use opspilot_sre_incident_re.Agent.Policy.{PolicyVerdict, execute, require_approval, evaluate}
use opspilot_sre_incident_re.Agent.Policy
use opspilot_sre_incident_re.Agent.Schemas.{
  SubmitDiagnosisArgs, RecommendedAction, rollback_deployment, restart_service, scale_service,
  toggle_feature_flag, escalate, no_action, delete_data, action_name,
}
use opspilot_sre_incident_re.Agent.Idempotency.{
  Action, RemediationExecution, existing, idempotency_key, execute_idempotently, execution_row,
}
use opspilot_sre_incident_re.Agent.State.{Runtime, NodeDeps, World}
use opspilot_sre_incident_re.Agent.Nodes.Gather.{interrupted}
use opspilot_sre_incident_re.Agent.Nodes.Gate.{
  auto_executor, approve_action, run_once, run_approved, run_auto, approval_request, gate,
  evaluate_policy, or_empty,
}

-- The actions that wait for a human.
abbrev pub needs_approval : RecommendedAction → Bool
needs_approval rollback_deployment = true
needs_approval toggle_feature_flag = true
needs_approval _ = false

-- The actions that run by themselves.
abbrev pub runs_alone : RecommendedAction → Bool
runs_alone restart_service = true
runs_alone scale_service = true
runs_alone _ = false

module _ (rt : Runtime) {S : Type 0} (deps : NodeDeps S) where
  -- Why a remediation for this diagnosis may run, given the answer that a resume brought.
  abbrev pub Authorised : SubmitDiagnosisArgs → Option Fields → Type 0
  Authorised d resume =
      (runs_alone d.recommended_action ≡ true)
      ⊎ ((decision : Fields) × (resume ≡ some decision)
          × (needs_approval d.recommended_action ≡ true)
          × (get_truthy "approved" decision ≡ true)
          × (is_some (
                approve_action rt d.recommended_action deps.scenario.service.name
                  (or_empty (get "params" decision)))
              ≡ true))

  -- The table is as it was, or has one row more, which is of that action and authorised.
  abbrev pub Permitted :
      RecommendedAction → Type 0 → List RemediationExecution → List RemediationExecution → Type 0
  Permitted a Why rows rows' =
      (rows' ≡ rows)
      ⊎ (Why
          × ((row : RemediationExecution) × (rows' ≡ row ∷ rows)
              × (row.action_type ≡ action_name a)
              × (row.thread_id ≡ deps.thread_id)
              × (row.target ≡ deps.scenario.service.name)))

  abbrev pub action_of : RecommendedAction → Fields → Action
  action_of a params = record {
    thread_id = deps.thread_id;
    action_type = action_name a;
    target = deps.scenario.service.name;
    params = params;
  }

  run_once_rows :
      {Why : Type 0} (a : RecommendedAction) (params result : Fields) (w : World S)
      → Why
      → Permitted a Why w.executions (run_once rt deps a params result w).1.executions
  unfolding run_once execute_idempotently
  run_once_rows a params result w why =
      elim (Option-cases (existing (idempotency_key rt.sha256 (action_of a params)) w.executions)) [
        | inl new ↦
            rw (new, execute_idempotently)
              (inr (
                why,
                (execution_row rt.sha256 (action_of a params) result w.now, refl, refl, refl, refl),
              ))
        | inr (row, e) ↦ rw (e, execute_idempotently) (inl refl)
      ]

  run_approved_rows :
      (a : RecommendedAction) (o : Option (Fields × Fields)) (w : World S)
      → Permitted a (is_some o ≡ true) w.executions (run_approved rt deps a o w).1.executions
  unfolding run_approved
  run_approved_rows a none w = inl refl
  run_approved_rows a (some (params, result)) w = run_once_rows a params result w refl

  run_auto_rows :
      (a : RecommendedAction) (o : Option (String → Fields)) (w : World S)
      → Permitted a (is_some o ≡ true) w.executions (run_auto rt deps a o w).1.executions
  unfolding run_auto
  run_auto_rows a none w = inl refl
  run_auto_rows a (some f) w = run_once_rows a end (f deps.scenario.service.name) w refl

  auto_executor-runs_alone : (a : RecommendedAction) → is_some (auto_executor a) ≡ runs_alone a
  unfolding auto_executor
  auto_executor-runs_alone restart_service = refl
  auto_executor-runs_alone scale_service = refl
  auto_executor-runs_alone _ = refl

  evaluate-approval :
      (a : RecommendedAction) (params : Fields) (target : String)
      → evaluate (record { action_type = action_name a; target = target; params = params })
        ≡ require_approval
      → needs_approval a ≡ true
  unfolding evaluate
  evaluate-approval rollback_deployment p t h = refl
  evaluate-approval toggle_feature_flag p t h = refl
  evaluate-approval restart_service p t h = cc
  evaluate-approval scale_service p t h = cc
  evaluate-approval escalate p t h = cc
  evaluate-approval no_action p t h = cc
  evaluate-approval delete_data p t h = cc

  weaken :
      {P Q : Type 0} (a : RecommendedAction) (rows rows' : List RemediationExecution)
      → (P → Q)
      → Permitted a P rows rows'
      → Permitted a Q rows rows'
  weaken a rows rows' f (inl same) = inl same
  weaken a rows rows' f (inr (why, more)) = inr (f why, more)

  gate_rows :
      (d : SubmitDiagnosisArgs) (verdict : PolicyVerdict) (resume : Option Fields) (w : World S)
      → (verdict ≡ require_approval → needs_approval d.recommended_action ≡ true)
      → Permitted d.recommended_action
          (Authorised d resume)
          w.executions
          (gate rt deps d verdict resume w).1.executions
  unfolding gate
  gate_rows d require_approval none w h = inl refl
  gate_rows d require_approval (some decision) w h =
      elim (Bool-cases (get_truthy "approved" decision)) [
        | inl approved ↦ rw approved (
            weaken d.recommended_action _ _ (λ e. inr (decision, refl, h refl, approved, e))
              (run_approved_rows d.recommended_action
                (approve_action rt d.recommended_action deps.scenario.service.name
                  (or_empty (get "params" decision)))
                w))
        | inr denied ↦ rw denied (inl refl)
      ]
  gate_rows d execute resume w h =
      weaken d.recommended_action _ _
        (λ e. inl (sym (auto_executor-runs_alone d.recommended_action) ∙ e))
        (run_auto_rows d.recommended_action (auto_executor d.recommended_action) w)
  gate_rows d Policy.block resume w h = inl refl
  gate_rows d Policy.escalate resume w h = inl refl

  -- The gate holds: whatever the model diagnosed, whatever a resume answers and in whatever world,
  -- the table of executed remediations stays as it is, or gains one row, which names the diagnosed
  -- action, this thread and this service; and then the action is one of the two that run by
  -- themselves, or it is one of the two that need approval, the answer approves it, and its
  -- parameters were validated.
  pub evaluate_policy-Permitted :
      (d : SubmitDiagnosisArgs) (resume : Option Fields) (w : World S)
      → Permitted d.recommended_action
          (Authorised d resume)
          w.executions
          (evaluate_policy rt deps (some d) resume w).1.executions
  unfolding evaluate_policy
  evaluate_policy-Permitted d resume w =
      gate_rows d _ resume w (evaluate-approval d.recommended_action end deps.scenario.service.name)

  -- The verdict on a recommended action, by action.
  pub evaluate_policy-verdict :
      (a : RecommendedAction) (params : Fields) (target : String)
      → needs_approval a ≡ true
      → evaluate (record { action_type = action_name a; target = target; params = params })
        ≡ require_approval
  unfolding evaluate
  evaluate_policy-verdict rollback_deployment p t h = refl
  evaluate_policy-verdict toggle_feature_flag p t h = refl
  evaluate_policy-verdict restart_service p t h = cc
  evaluate_policy-verdict scale_service p t h = cc
  evaluate_policy-verdict escalate p t h = cc
  evaluate_policy-verdict no_action p t h = cc
  evaluate_policy-verdict delete_data p t h = cc

  gate-pauses :
      (d : SubmitDiagnosisArgs) (verdict : PolicyVerdict) (w w' : World S) (payload : Fields)
      → gate rt deps d verdict none w ≡ (interrupted payload, w')
      → (verdict ≡ require_approval) × (payload ≡ approval_request rt deps d) × (w' ≡ w)
  unfolding gate
  gate-pauses d require_approval w w' payload h = (refl, ground arith, ground arith)
  gate-pauses d execute w w' payload h = absurd (ground arith)
  gate-pauses d Policy.block w w' payload h = absurd (ground arith)
  gate-pauses d Policy.escalate w w' payload h = absurd (ground arith)

  -- What a pause of a first visit shows.
  pub pauses_with :
      (d : SubmitDiagnosisArgs) (w w' : World S) (payload : Fields)
      → evaluate_policy rt deps (some d) none w ≡ (interrupted payload, w')
      → (needs_approval d.recommended_action ≡ true) × (payload ≡ approval_request rt deps d)
  unfolding evaluate_policy
  pauses_with d w w' payload h =
      let (v, p, same) = gate-pauses d _ w w' payload h in
      (evaluate-approval d.recommended_action end deps.scenario.service.name v, p)

  -- A first visit of the gate pauses, with the request for approval as its payload and the world
  -- left as it was, exactly if the diagnosed action needs approval.
  pub evaluate_policy-pauses :
      (d : SubmitDiagnosisArgs) (w : World S)
      → (needs_approval d.recommended_action ≡ true)
        ↔ (evaluate_policy rt deps (some d) none w ≡ (interrupted (approval_request rt deps d), w))
  unfolding evaluate_policy
  evaluate_policy-pauses d w = (
    λ needs.
        rw
          (evaluate_policy-verdict d.recommended_action end deps.scenario.service.name needs, gate),
    λ h. (pauses_with d w w (approval_request rt deps d) h).0,
  )
