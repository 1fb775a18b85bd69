-- ===== src/Agent/Graph/Crashes.antt =====
-- Why a run of the graph of src/opspilot/agent/graph.py can end in an exception.
use opspilot_sre_incident_re.Prelude.{
  ℕ, ◌≡◌, refl, sym, ap, ◌∙◌, subst, String, Option, none, arith,
}
use opspilot_sre_incident_re.Json.{Fields}
use opspilot_sre_incident_re.Agent.Client.{
  Attempt, response, transient, failure, ChatRequest, ChatFn,
}
use opspilot_sre_incident_re.Agent.Client.Retries.{call_with_retries-Ended}
use opspilot_sre_incident_re.Agent.State.{GraphState, Runtime, NodeDeps, World}
use opspilot_sre_incident_re.Agent.Support.{system_prompt}
use opspilot_sre_incident_re.Agent.Nodes.Gather
use opspilot_sre_incident_re.Agent.Nodes.Gather.{NodeResult, returned, raised, answered}
use opspilot_sre_incident_re.Agent.Graph.{
  NodeName, gather_context, hypothesize, classify_risk, evaluate_policy, decide, Outcome, crashed,
  run_node, Run, ends, moves, pauses, raises,
}
use opspilot_sre_incident_re.Agent.Graph.Runs.{Settles, evaluate_policy-Settles}

-- Some call of the model fails in a way that is not retried.
abbrev pub FailsForGood : {S : Type 0} → ChatFn S → Type 0
FailsForGood {S} chat_fn =
    (request : ChatRequest) × (s : S) × (e : String) × ((chat_fn request s).0 ≡ failure e)

module _ (rt : Runtime) {S : Type 0} (deps : NodeDeps S) where
  -- An exception of a run is one of the model's.
  abbrev pub IsExplained : Outcome → Type 0
  IsExplained (crashed e) = FailsForGood deps.chat_fn
  IsExplained _ = Unit

  raised_by :
      (s : GraphState) (o : Attempt) (x : String)
      → answered rt deps s o ≡ raised x
      → (e : String) × (o ≡ failure e)
  unfolding answered
  raised_by s (response r) x h = cc
  raised_by s (transient e) x h = cc
  raised_by s (failure e) x h = (e, refl)

  gathering-FailsForGood :
      (s : GraphState) (w w' : World S) (x : String)
      → Gather.gather_context rt deps s w ≡ (raised x, w')
      → FailsForGood deps.chat_fn
  unfolding Gather.gather_context
  gathering-FailsForGood s w w' x h =
      let request : ChatRequest = record {
        messages = s.messages;
        tools = rt.tool_definitions;
        system = system_prompt deps.scenario deps.memory_context;
      } in
      let run = call_with_retries-Ended deps.chat_fn rt.max_retries rt.backoff request w.provider in
      let reached : Gather.gather_context rt deps s w
          ≡ (answered rt deps s run.outcome, record w { provider = run.after }) =
        rw (run.returned, Gather.gather_context) refl in
      let (e, failed) = raised_by s run.outcome x (ap (λ y. y.0) (sym reached ∙ h)) in
      (request, run.before, e, ap (λ y. y.0) run.last ∙ failed)

  raises-FailsForGood :
      (n : NodeName) (r : Option Fields) (s : GraphState) (w w' : World S) (x : String)
      → run_node rt deps n r s w ≡ (raised x, w')
      → FailsForGood deps.chat_fn
  raises-FailsForGood gather_context r s w w' x h = gathering-FailsForGood s w w' x h
  raises-FailsForGood hypothesize r s w w' x h = absurd (ground arith)
  raises-FailsForGood classify_risk r s w w' x h = absurd (ground arith)
  raises-FailsForGood evaluate_policy r s w w' x h =
      absurd (subst (λ y. Settles rt deps y) h (evaluate_policy-Settles rt deps s.diagnosis r w))
  raises-FailsForGood decide r s w w' x h = absurd (ground arith)

  -- A run ends in an exception only if some call of the model fails for good.
  pub Run-IsExplained :
      (l : ℕ) (n : NodeName) (r : Option Fields) (s : GraphState) (w w' : World S) (o : Outcome)
      → Run rt deps l n r s w o w'
      → IsExplained o
  Run-IsExplained l n r s w w' o (ends u e f) = tt
  Run-IsExplained l n r s w w' o (moves {l = k} {w' = v} m u e f more) =
      Run-IsExplained k m none _ v w' o more
  Run-IsExplained l n r s w w' o (pauses payload e) = tt
  Run-IsExplained l n r s w w' o (raises x e) = raises-FailsForGood n r s w w' x e
