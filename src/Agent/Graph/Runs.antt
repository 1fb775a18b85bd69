-- ===== src/Agent/Graph/Runs.antt =====
-- The ways in which the nodes of src/opspilot/agent/graph.py end, for the runs of the graph.
use opspilot_sre_incident_re.Prelude.{◌+◌, ◌<◌, ◌≡◌, refl, Option, none, some, List, [], ◌∷◌, arith}
use opspilot_sre_incident_re.Json.{Fields}
use opspilot_sre_incident_re.Agent.Policy.{PolicyVerdict, execute, require_approval}
use opspilot_sre_incident_re.Agent.Policy
use opspilot_sre_incident_re.Agent.Schemas.{SubmitDiagnosisArgs}
use opspilot_sre_incident_re.Agent.Client.{
  Attempt, response, transient, failure, ModelResponse, ChatRequest,
}
use opspilot_sre_incident_re.Agent.Client.Retries.{call_with_retries-Ended}
use opspilot_sre_incident_re.Agent.State.{GraphState, Runtime, NodeDeps, World}
use opspilot_sre_incident_re.Agent.Support.{system_prompt}
use opspilot_sre_incident_re.Agent.Nodes.Gather.{
  NodeResult, returned, interrupted, raised, diverged, Block, tool_use_blocks, round, answered,
  gather_context, go_on, route_after_gather_context,
}
use opspilot_sre_incident_re.Agent.Nodes.Gate.{gate, evaluate_policy}

module _ (rt : Runtime) {S : Type 0} (deps : NodeDeps S) where
  -- A visit of `gather_context` counts one step, and touches no remediation and no verdict.
  abbrev pub Gathered : GraphState → World S → NodeResult × World S → Type 0
  Gathered s w (returned u, w') =
      (u.steps_used ≡ some (s.steps_used + 1))
      × (w'.executions ≡ w.executions)
      × (u.status ≡ none)
      × (u.policy_verdict ≡ none)
      × (u.remediation_result ≡ none)
  Gathered s w (interrupted payload, w') = ⊥
  Gathered s w (raised e, w') = w'.executions ≡ w.executions
  Gathered s w (diverged, w') = ⊥

  round-Gathered :
      (s : GraphState) (w w' : World S) (r : ModelResponse) (blocks : List Block)
      → w'.executions ≡ w.executions
      → Gathered s w (returned (round rt deps s r blocks), w')
  unfolding round
  round-Gathered s w w' r [] same = (refl, same, refl, refl, refl)
  round-Gathered s w w' r (b ∷ blocks) same = (refl, same, refl, refl, refl)

  answered-Gathered :
      (s : GraphState) (w w' : World S) (o : Attempt)
      → w'.executions ≡ w.executions
      → Gathered s w (answered rt deps s o, w')
  unfolding answered
  answered-Gathered s w w' (response r) same =
      round-Gathered s w w' r (tool_use_blocks r.content) same
  answered-Gathered s w w' (transient e) same = (refl, same, refl, refl, refl)
  answered-Gathered s w w' (failure e) same = same

  abbrev request_of : GraphState → ChatRequest
  request_of s = record {
    messages = s.messages;
    tools = rt.tool_definitions;
    system = system_prompt deps.scenario deps.memory_context;
  }

  pub gather_context-Gathered :
      (s : GraphState) (w : World S) → Gathered s w (gather_context rt deps s w)
  unfolding gather_context
  gather_context-Gathered s w =
      let h =
        call_with_retries-Ended deps.chat_fn rt.max_retries rt.backoff (request_of s) w.provider in
      rw (h.returned, gather_context)
        (answered-Gathered s w (record w { provider = h.after }) h.outcome refl)

  -- The gate returns or pauses.
  abbrev pub Settles : NodeResult × World S → Type 0
  Settles (returned u, w') = (u.status ≡ none) × (u.steps_used ≡ none)
  Settles (interrupted payload, w') = Unit
  Settles (raised e, w') = ⊥
  Settles (diverged, w') = ⊥

  gate-Settles :
      (d : SubmitDiagnosisArgs) (verdict : PolicyVerdict) (resume : Option Fields) (w : World S)
      → Settles (gate rt deps d verdict resume w)
  unfolding gate
  gate-Settles d require_approval none w = tt
  gate-Settles d require_approval (some decision) w = (refl, refl)
  gate-Settles d execute resume w = (refl, refl)
  gate-Settles d Policy.block resume w = (refl, refl)
  gate-Settles d Policy.escalate resume w = (refl, refl)

  pub evaluate_policy-Settles :
      (d : Option SubmitDiagnosisArgs) (resume : Option Fields) (w : World S)
      → Settles (evaluate_policy rt deps d resume w)
  unfolding evaluate_policy
  evaluate_policy-Settles none resume w = (refl, refl)
  evaluate_policy-Settles (some d) resume w = gate-Settles d _ resume w

  -- The self-loop is taken below the step ceiling only.
  pub go_on-lt :
      (s : GraphState)
      → route_after_gather_context rt deps s ≡ go_on
      → s.steps_used < deps.max_steps
  unfolding route_after_gather_context
  go_on-lt s h = ground arith
