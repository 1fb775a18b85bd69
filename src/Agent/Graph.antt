-- ===== src/Agent/Graph.antt =====
-- src/opspilot/agent/graph.py: the nodes and edges of the graph, the dependencies, and how an
-- investigation is run and resumed. LangGraph is a parameter, `Engine`: what the code relies on is
-- `IsEngine`, by which the engine follows the nodes and edges, as `Run` says, within its recursion
-- limit, saves the place of a pause under the thread, and resumes there. `result_from_state` rounds
-- the cost to 10⁻⁶ USD. Trace ids are an argument.
pub mod Runs
pub mod Total
pub mod Outcomes
pub mod Effects
pub mod Outage
pub mod Pauses
pub mod Crashes
use opspilot_sre_incident_re.Prelude.{
  ℕ, suc, ◌+◌, ◌*◌, ◌/◌, ◌%◌, ◌≡◌, String, Bool, true, Option, none, some, Result, ok, err, ltb,
  get_or, if◌then◌else◌,
}
use opspilot_sre_incident_re.Json.{Fields}
use opspilot_sre_incident_re.Models.{Scenario}
use opspilot_sre_incident_re.Config.{Settings}
use opspilot_sre_incident_re.Memory.{
  MemoryTable, MemoryOrder, memory_context_limit, retrieve_relevant_memory,
  format_memory_for_prompt,
}
use opspilot_sre_incident_re.Agent.Client.{ChatFn}
use opspilot_sre_incident_re.Agent.Schemas.{InvestigationResult, Status, awaiting_approval}
use opspilot_sre_incident_re.Agent.Tools.{Environment}
use opspilot_sre_incident_re.Agent.State.{
  GraphState, initial_state, Update, merge, Runtime, NodeDeps, World,
}
use opspilot_sre_incident_re.Agent.Nodes.Gather
use opspilot_sre_incident_re.Agent.Nodes.Gather.{
  NodeResult, returned, interrupted, raised, Route, go_on, to_diagnosed, to_ceiling,
}
use opspilot_sre_incident_re.Agent.Nodes.Ground
use opspilot_sre_incident_re.Agent.Nodes.Gate

-- The nodes that `build_graph` adds.
pub data NodeName : Type 0 where
  gather_context hypothesize classify_risk evaluate_policy decide : NodeName

-- Where an edge leads.
pub data Target : Type 0 where
  to : NodeName → Target
  finish : Target

-- The map of the conditional edges behind `gather_context`.
abbrev pub route_target : Route → Target
route_target go_on = to gather_context
route_target to_diagnosed = to hypothesize
route_target to_ceiling = to decide

-- How running a graph ends.
pub data Outcome : Type 0 where
  finished : GraphState → Outcome
  paused : NodeName → GraphState → Fields → Outcome
  crashed : String → Outcome

module _ (rt : Runtime) {S : Type 0} (deps : NodeDeps S) where
  -- The function of each node, with the answer that a resume brings to the node it enters.
  abbrev pub run_node : NodeName → Option Fields → GraphState → World S → NodeResult × World S
  run_node gather_context resume s w = Gather.gather_context rt deps s w
  run_node hypothesize resume s w = (returned (Ground.hypothesize s), w)
  run_node classify_risk resume s w = (returned (Ground.classify_risk s), w)
  run_node evaluate_policy resume s w = Gate.evaluate_policy rt deps s.diagnosis resume w
  run_node decide resume s w = (returned (Gate.decide rt deps s), w)

  -- The edges, on the state behind the node.
  abbrev pub next_node : NodeName → GraphState → Target
  next_node gather_context s = route_target (Gather.route_after_gather_context rt deps s)
  next_node hypothesize s = to classify_risk
  next_node classify_risk s = to evaluate_policy
  next_node evaluate_policy s = to decide
  next_node decide s = finish

  -- Runs of the graph from a node, within a number of node visits: each visit merges the node's
  -- update and follows the edge; a pause or an exception ends the run.
  pub data Run
      : ℕ → NodeName → Option Fields → GraphState → World S → Outcome → World S → Type 0 where
    ends :
        {l : ℕ} {n : NodeName} {r : Option Fields} {s : GraphState} {w w' : World S} (u : Update)
        → run_node n r s w ≡ (returned u, w')
        → next_node n (merge s u) ≡ finish
        → Run (suc l) n r s w (finished (merge s u)) w'
    moves :
        {l : ℕ} {n : NodeName} {r : Option Fields} {s : GraphState} {w w' w'' : World S}
        {o : Outcome} (m : NodeName) (u : Update)
        → run_node n r s w ≡ (returned u, w')
        → next_node n (merge s u) ≡ to m
        → Run l m none (merge s u) w' o w''
        → Run (suc l) n r s w o w''
    pauses :
        {l : ℕ} {n : NodeName} {r : Option Fields} {s : GraphState} {w w' : World S}
        (payload : Fields)
        → run_node n r s w ≡ (interrupted payload, w')
        → Run (suc l) n r s w (paused n s payload) w'
    raises :
        {l : ℕ} {n : NodeName} {r : Option Fields} {s : GraphState} {w w' : World S} (e : String)
        → run_node n r s w ≡ (raised e, w')
        → Run (suc l) n r s w (crashed e) w'

-- What `compiled.invoke` is given: a new state, or the decision of `Command(resume=...)`.
pub data Input : Type 0 where
  start : GraphState → Input
  resume : Fields → Input

-- LangGraph with its checkpointer, whose tables are `C`: `invoke`, on the recursion limit, the
-- thread and the input; the node and state at which a thread is paused; and whether a thread is
-- unused, which is that no checkpoint is stored under it.
pub record Engine (S C : Type 0) : Type 0 where
  pub invoke : NodeDeps S → ℕ → String → Input → C → World S → Outcome × C × World S
  pub saved : C → String → Option (NodeName × GraphState)
  pub unused : C → String → Bool

-- Where a run leaves its thread.
abbrev pub place_of : Outcome → Option (NodeName × GraphState)
place_of (paused n s payload) = some (n, s)
place_of _ = none

-- LangGraph's contract: a run that the nodes and edges allow within the limit is the run that is
-- made, and its end is durable. A start is one on an unused thread; on a used one the input would be
-- merged into the stored state. A resume enters the paused node from the top with the decision.
pub record IsEngine (rt : Runtime) {S C : Type 0} (engine : Engine S C) : Type 0 where
  pub invoke_start :
      (deps : NodeDeps S) (limit : ℕ) (thread : String) (s : GraphState) (c : C) (w w' : World S)
      (o : Outcome)
      → engine.unused c thread ≡ true
      → Run rt deps limit gather_context none s w o w'
      → (c' : C) × (engine.invoke deps limit thread (start s) c w ≡ (o, c', w'))
        × (engine.saved c' thread ≡ place_of o)
  pub invoke_resume :
      (deps : NodeDeps S) (limit : ℕ) (thread : String) (decision : Fields) (n : NodeName)
      (s : GraphState) (c : C) (w w' : World S) (o : Outcome)
      → engine.saved c thread ≡ some (n, s)
      → Run rt deps limit n (some decision) s w o w'
      → (c' : C) × (engine.invoke deps limit thread (resume decision) c w ≡ (o, c', w'))
        × (engine.saved c' thread ≡ place_of o)

-- `round(cost, 6)`, ties to the even neighbour.
unfoldable pub round_cost : ℕ → ℕ
round_cost c =
    let q = c / 100 in
    let r = c % 100 in
    if ltb r 50 then q * 100 else if ltb 50 r then (q + 1) * 100 else (q + q % 2) * 100

-- The fields that both branches of `_result_from_state` take from the state.
result_fields : Scenario → Status → GraphState → Option String → InvestigationResult
unfolding round_cost
result_fields scenario status s trace_id = record {
  scenario_key = scenario.key;
  status = status;
  diagnosis = s.diagnosis;
  evidence_trail = s.evidence_trail;
  steps_used = s.steps_used;
  estimated_cost_usd = round_cost s.estimated_cost_usd;
  total_input_tokens = s.total_input_tokens;
  total_output_tokens = s.total_output_tokens;
  evidence_grounded = s.evidence_grounded;
  ungrounded_evidence = s.ungrounded_evidence;
  risk_tier = s.risk_tier;
  policy_verdict = none;
  remediation_result = none;
  pending_approval = none;
  approval_decision = none;
  langfuse_trace_id = trace_id;
}

-- `_result_from_state`; a final state with no status fails the result's validation.
unfoldable pub result_from_state :
    Scenario → Outcome → Option String → Result String InvestigationResult
unfolding result_fields
result_from_state scenario (paused n s payload) trace_id =
    ok (record (result_fields scenario awaiting_approval s trace_id) {
      pending_approval = some payload;
    })
result_from_state scenario (finished s) trace_id = elim s.status [
  | none ↦ err "ValidationError: status"
  | some status ↦ ok (record (result_fields scenario status s trace_id) {
    policy_verdict = s.policy_verdict;
    remediation_result = s.remediation_result;
    approval_decision = s.approval_decision;
  })
]
result_from_state scenario (crashed e) trace_id = err e

-- `_build_deps`, on the memory that the session sees.
unfoldable pub build_deps :
    {S : Type 0}
    → Settings
    → MemoryOrder
    → Environment
    → MemoryTable
    → Scenario
    → ChatFn S
    → Option ℕ
    → Option ℕ
    → String
    → Bool
    → NodeDeps S
build_deps settings order session memory scenario chat_fn max_steps max_cost_usd thread_id
      memory_enabled =
    record {
      session = session;
      scenario = scenario;
      chat_fn = chat_fn;
      max_steps = get_or max_steps settings.agent_max_steps;
      max_cost_usd = get_or max_cost_usd settings.agent_max_cost_usd;
      thread_id = thread_id;
      memory_context =
          if memory_enabled
          then format_memory_for_prompt
              (retrieve_relevant_memory order memory scenario.service_id memory_context_limit)
          else "";
    }

-- The recursion limit that both entry points pass.
abbrev pub recursion_limit : {S : Type 0} → NodeDeps S → ℕ
recursion_limit deps = deps.max_steps + 10

module _ {S C : Type 0} (engine : Engine S C) where
  -- `run_investigation`, on the dependencies that `build_deps` made.
  unfoldable pub run_investigation :
      NodeDeps S → Option String → C → World S → Result String InvestigationResult × C × World S
  run_investigation deps trace_id c w =
      let (o, c', w') =
        engine.invoke deps (recursion_limit deps) deps.thread_id (start initial_state) c w in
      (result_from_state deps.scenario o trace_id, c', w')

  -- `resume_investigation`, with a decision.
  unfoldable pub resume_investigation :
      NodeDeps S
      → Fields
      → Option String
      → C
      → World S
      → Result String InvestigationResult × C × World S
  resume_investigation deps decision trace_id c w =
      let (o, c', w') =
        engine.invoke deps (recursion_limit deps) deps.thread_id (resume decision) c w in
      (result_from_state deps.scenario o trace_id, c', w')
