-- ===== src/Agent/Graph/Outage.antt =====
-- A run of the graph of src/opspilot/agent/graph.py while the provider is down.
use opspilot_sre_incident_re.Prelude.{
  ℕ, suc, ◌+◌, ◌≡◌, refl, sym, ap, ◌∙◌, String, Bool, true, false, Option, none, some, ok,
}
use opspilot_sre_incident_re.Models.{Scenario}
use opspilot_sre_incident_re.Agent.Schemas.{incomplete_provider_error, InvestigationResult}
use opspilot_sre_incident_re.Agent.Client.{
  Attempt, response, transient, failure, ChatRequest, ChatFn,
}
use opspilot_sre_incident_re.Agent.Client.Retries.{call_with_retries-Ended}
use opspilot_sre_incident_re.Agent.State.{
  GraphState, initial_state, Update, no_update, merge, Runtime, NodeDeps, World,
}
use opspilot_sre_incident_re.Agent.Support.{system_prompt}
use opspilot_sre_incident_re.Agent.Nodes.Gather.{
  returned, gather_context, answered, route_after_gather_context,
}
use opspilot_sre_incident_re.Agent.Nodes.Gate
use opspilot_sre_incident_re.Agent.Graph.{
  decide, finished, Run, moves, ends, result_from_state, round_cost,
}
use opspilot_sre_incident_re.Agent.Graph

abbrev pub is_transient : Attempt → Bool
is_transient (transient e) = true
is_transient _ = false

-- Every call fails transiently.
abbrev pub IsDown : {S : Type 0} → ChatFn S → Type 0
IsDown {S} chat_fn = (request : ChatRequest) (s : S) → is_transient (chat_fn request s).0 ≡ true

failed_with : (o : Attempt) → is_transient o ≡ true → (e : String) × (o ≡ transient e)
failed_with (response r) h = cc
failed_with (transient e) h = (e, refl)
failed_with (failure e) h = cc

module _ (rt : Runtime) {S : Type 0} (deps : NodeDeps S) (down : IsDown deps.chat_fn) where
  -- What a visit of the gathering node returns.
  abbrev pub given_up : GraphState → String → Update
  given_up s e = record no_update {
    steps_used = some (s.steps_used + 1);
    provider_error = some (some e);
  }

  gather_context-down :
      (s : GraphState) (w : World S)
      → (e : String) × (w' : World S) × (gather_context rt deps s w ≡ (returned (given_up s e), w'))
        × (w'.executions ≡ w.executions)
        × (w'.now ≡ w.now)
  unfolding gather_context answered
  gather_context-down s w =
      let request : ChatRequest = record {
        messages = s.messages;
        tools = rt.tool_definitions;
        system = system_prompt deps.scenario deps.memory_context;
      } in
      let run = call_with_retries-Ended deps.chat_fn rt.max_retries rt.backoff request w.provider in
      let (e, failed) =
        failed_with run.outcome
          (sym (ap (λ x. is_transient x.0) run.last) ∙ down request run.before) in
      (
        e,
        record w { provider = run.after },
        rw (run.returned, gather_context)
            (ap (λ o. (answered rt deps s o, record w { provider = run.after })) failed),
        refl,
        refl,
      )

  -- The state in which the run ends.
  abbrev pub down_end : GraphState → String → GraphState
  down_end s e = merge (merge s (given_up s e)) (Gate.decide rt deps (merge s (given_up s e)))

  pub down-Run :
      (l : ℕ) (s : GraphState) (w : World S)
      → (e : String) × (w' : World S) × Run rt deps
          (suc (suc l))
          Graph.gather_context
          none
          s
          w
          (finished (down_end s e))
          w'
        × (w'.executions ≡ w.executions)
  unfolding route_after_gather_context
  down-Run l s w =
      let (e, w', visit, same, now) = gather_context-down s w in
      (e, w', moves decide (given_up s e) visit refl (ends _ refl refl), same)

  -- The result of an investigation while the provider is down: one step, no cost, no diagnosis.
  pub down_result :
      (scenario : Scenario) (trace : Option String) (e : String)
      → (r : InvestigationResult) × (result_from_state scenario
            (finished (down_end initial_state e))
            trace
          ≡ ok r)
        × (r.status ≡ incomplete_provider_error)
        × (r.steps_used ≡ 1)
        × (r.estimated_cost_usd ≡ 0)
        × (r.diagnosis ≡ none)
  unfolding result_from_state Gate.decide Gate.decide_status round_cost
  down_result scenario trace e = (_, refl, refl, refl, refl, refl)
