-- ===== src/Agent/Nodes/Replay.antt =====
-- A resume may enter `evaluate_policy` (src/opspilot/agent/nodes.py) from the top again, after a
-- crash between its effect and its checkpoint.
use text.Mathlib.TextPositions.{eq_refl}
use opspilot_sre_incident_re.Prelude.{
  ◌≡◌, refl, ap, inl, inr, String, true, false, Option, none, some, Option-cases, Bool-cases,
  str_eq,
}
use opspilot_sre_incident_re.Json.{Json, Fields, bool, get, get_truthy, put, end, field}
use opspilot_sre_incident_re.Agent.Policy.{PolicyVerdict, execute, require_approval}
use opspilot_sre_incident_re.Agent.Policy
use opspilot_sre_incident_re.Agent.Schemas.{SubmitDiagnosisArgs, RecommendedAction, action_name}
use opspilot_sre_incident_re.Agent.Idempotency.{existing, idempotency_key, execute_idempotently}
use opspilot_sre_incident_re.Agent.State.{Runtime, NodeDeps, World}
use opspilot_sre_incident_re.Agent.Nodes.Gather.{
  NodeResult, returned, interrupted, raised, diverged,
}
use opspilot_sre_incident_re.Agent.Nodes.Gate.{
  auto_executor, approve_action, run_once, run_approved, run_auto, gate, evaluate_policy, or_empty,
}

abbrev flag : Option Fields → Option Fields
flag none = none
flag (some result) = some (put "deduplicated" (bool true) result)

abbrev flag_update : Option (Option Fields) → Option (Option Fields)
flag_update none = none
flag_update (some r) = some (flag r)

-- The same outcome, with its remediation flagged as deduplicated.
abbrev pub replayed : NodeResult → NodeResult
replayed (returned u) =
    returned (record u { remediation_result = flag_update u.remediation_result })
replayed (interrupted payload) = interrupted payload
replayed (raised e) = raised e
replayed diverged = diverged

put-put : (k : String) (v w : Json) (d : Fields) → put k v (put k w d) ≡ put k v d
put-put k v w end = rw (eq_refl k)
put-put k v w (field j u d) = elim (Bool-cases (str_eq j k)) [
  | inl hit ↦ rw hit (rw hit)
  | inr miss ↦ rw miss (rw miss (ap (field j u) (put-put k v w d)))
]

module _ (rt : Runtime) {S : Type 0} (deps : NodeDeps S) where
  abbrev key_of : RecommendedAction → Fields → String
  key_of a params = idempotency_key rt.sha256 (record {
    thread_id = deps.thread_id;
    action_type = action_name a;
    target = deps.scenario.service.name;
    params = params;
  })

  run_once_again :
      (a : RecommendedAction) (params result : Fields) (w : World S)
      → let (r, w') = run_once rt deps a params result w in
        run_once rt deps a params result w' ≡ (flag r, w')
  unfolding run_once existing execute_idempotently
  run_once_again a params result w = elim (Option-cases (existing (key_of a params) w.executions)) [
    | inl new ↦
        rw (new, execute_idempotently)
          (rw (eq_refl (key_of a params), execute_idempotently)
            (rw (new, execute_idempotently)
              (rw (put-put "deduplicated" (bool true) (bool false) result))))
    | inr (row, e) ↦
        rw (e, execute_idempotently)
          (rw (e, execute_idempotently)
            (rw (e, execute_idempotently)
              (rw (put-put "deduplicated" (bool true) (bool true) row.result))))
  ]

  run_approved_again :
      (a : RecommendedAction) (o : Option (Fields × Fields)) (w : World S)
      → let (r, w') = run_approved rt deps a o w in run_approved rt deps a o w' ≡ (flag r, w')
  unfolding run_approved
  run_approved_again a none w = refl
  run_approved_again a (some (params, result)) w = run_once_again a params result w

  run_auto_again :
      (a : RecommendedAction) (o : Option (String → Fields)) (w : World S)
      → let (r, w') = run_auto rt deps a o w in run_auto rt deps a o w' ≡ (flag r, w')
  unfolding run_auto
  run_auto_again a none w = refl
  run_auto_again a (some f) w = run_once_again a end (f deps.scenario.service.name) w

  gate_again :
      (d : SubmitDiagnosisArgs) (verdict : PolicyVerdict) (resume : Option Fields) (w : World S)
      → let (r, w') = gate rt deps d verdict resume w in
        gate rt deps d verdict resume w' ≡ (replayed r, w')
  unfolding gate
  gate_again d require_approval none w = refl
  gate_again d require_approval (some decision) w =
      elim (Bool-cases (get_truthy "approved" decision)) [
        | inl approved ↦ rw approved (
            rw (
              run_approved_again d.recommended_action
                (approve_action rt d.recommended_action deps.scenario.service.name
                  (or_empty (get "params" decision)))
                w))
        | inr denied ↦ rw denied
      ]
  gate_again d execute resume w =
      rw (run_auto_again d.recommended_action (auto_executor d.recommended_action) w)
  gate_again d Policy.block resume w = refl
  gate_again d Policy.escalate resume w = refl

  -- Entering the gate a second time with the same diagnosis and the same answer, in the world that
  -- the first visit left, leaves that world as it is and ends as the first visit did, with the
  -- remediation's result, if there is one, flagged as deduplicated.
  pub evaluate_policy-again :
      (d : Option SubmitDiagnosisArgs) (resume : Option Fields) (w : World S)
      → let (r, w') = evaluate_policy rt deps d resume w in
        evaluate_policy rt deps d resume w' ≡ (replayed r, w')
  unfolding evaluate_policy
  evaluate_policy-again none resume w = refl
  evaluate_policy-again (some d) resume w = gate_again d _ resume w
