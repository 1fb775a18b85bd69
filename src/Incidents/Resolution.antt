-- ===== src/Incidents/Resolution.antt =====
-- The pause of an incident resolved from end to end: the handlers of src/opspilot/routers/incidents.py
-- over the graph of src/opspilot/agent/graph.py, with an engine that keeps LangGraph's contract.
use opspilot_sre_incident_re.Prelude.{
  ℕ, suc, ◌+◌, ◌≡◌, refl, ap, ◌∙◌, subst, String, true, false, Option, none, some, ok, arith,
}
use opspilot_sre_incident_re.Json.{Fields, end}
use opspilot_sre_incident_re.Models.{Scenario, Incident}
use opspilot_sre_incident_re.Agent.Policy.{require_approval}
use opspilot_sre_incident_re.Agent.Schemas.{SubmitDiagnosisArgs, diagnosed, InvestigationResult}
use opspilot_sre_incident_re.Agent.State.{GraphState, Update, merge, Runtime, NodeDeps, World}
use opspilot_sre_incident_re.Agent.Nodes.Gather.{returned}
use opspilot_sre_incident_re.Agent.Nodes.Gate
use opspilot_sre_incident_re.Agent.Nodes.Gate.{resolve_verdict, gate, decide_status}
use opspilot_sre_incident_re.Agent.Nodes.Approval.{needs_approval, evaluate_policy-verdict}
use opspilot_sre_incident_re.Agent.Graph.{
  evaluate_policy, decide, finished, Run, moves, ends, Engine, IsEngine, recursion_limit,
  result_from_state, resume_investigation, build_deps,
}
use opspilot_sre_incident_re.Incidents.Applying.{Db, thread_id, App}
use opspilot_sre_incident_re.Incidents.Timeout.{deps_for, resumed, investigated}

module _ (rt : Runtime) {S : Type 0} (deps : NodeDeps S) where
  -- What the gate makes of an answer, for a diagnosis whose action needs approval.
  abbrev pub answer_of : SubmitDiagnosisArgs → Fields → World S → Update × World S
  answer_of d decision w = resolve_verdict rt deps d require_approval (some decision) w

  -- The state in which the answered investigation ends.
  abbrev pub end_of : GraphState → Update → GraphState
  end_of s u = merge (merge s u) (Gate.decide rt deps (merge s u))

  gate_answered :
      (d : SubmitDiagnosisArgs) (decision : Fields) (w : World S)
      → needs_approval d.recommended_action ≡ true
      → Gate.evaluate_policy rt deps (some d) (some decision) w
        ≡ (returned (answer_of d decision w).0, (answer_of d decision w).1)
  unfolding Gate.evaluate_policy gate
  gate_answered d decision w needs =
      rw
        (
          evaluate_policy-verdict rt deps d.recommended_action end deps.scenario.service.name needs,
          gate,
        )
        refl

  answered-Run :
      (l : ℕ) (d : SubmitDiagnosisArgs) (decision : Fields) (s : GraphState) (w : World S)
      → needs_approval d.recommended_action ≡ true
      → s.diagnosis ≡ some d
      → let (u, w') = answer_of d decision w in
        Run rt deps (suc (suc l)) evaluate_policy (some decision) s w (finished (end_of s u)) w'
  answered-Run l d decision s w needs known =
      moves decide (answer_of d decision w).0
        (ap (λ o. Gate.evaluate_policy rt deps o (some decision) w) known
          ∙ gate_answered d decision w needs)
        refl (ends _ refl refl)

  -- The result of an answered investigation.
  concluded_result :
      (scenario : Scenario) (d : SubmitDiagnosisArgs) (decision : Fields) (s : GraphState)
      (w : World S) (trace : Option String)
      → s.provider_error ≡ none
      → s.diagnosis ≡ some d
      → (r : InvestigationResult) × (result_from_state scenario
            (finished (end_of s (answer_of d decision w).0))
            trace
          ≡ ok r)
        × (r.status ≡ diagnosed)
        × (r.diagnosis ≡ some d)
  unfolding result_from_state Gate.decide decide_status resolve_verdict
  concluded_result scenario d decision s w trace healthy known =
      (_, refl, rw healthy (rw known refl), known)

-- A thread that waits at the gate, on a diagnosis whose action needs approval.
pub record WaitsFor {S C : Type 0} (engine : Engine S C) (c : C) (thread : String)
    (d : SubmitDiagnosisArgs) (s : GraphState) : Type 0 where
  pub saved_at : engine.saved c thread ≡ some (evaluate_policy, s)
  pub known : s.diagnosis ≡ some d
  pub needs : needs_approval d.recommended_action ≡ true
  pub healthy : s.provider_error ≡ none

module _ {S C : Type 0} (app : App S C) where
  -- A resume that ended: its result, the checkpoints, and what holds of them.
  pub record Ended (scenario : Scenario) (i : Incident) (d : SubmitDiagnosisArgs)
      (decision : Fields) (trace : Option String) (db : Db S C) : Type 0 where
    pub result : InvestigationResult
    pub checkpoints : C
    pub comes_back : resumed app scenario i decision trace db ≡ (
      ok result,
      record db {
        checkpoints = checkpoints;
        world = (answer_of app.rt (deps_for app false scenario i db) d decision db.world).1;
      },
    )
    pub concluded : result.status ≡ diagnosed
    pub diagnosis : result.diagnosis ≡ some d
    pub thread_done : app.engine.saved checkpoints (thread_id i.id) ≡ none

module _ {S C : Type 0} (app : App S C) (lawful : IsEngine app.rt app.engine) where
  -- A resume of a thread that waits at the gate ends.
  pub ended :
      (scenario : Scenario) (i : Incident) (d : SubmitDiagnosisArgs) (s : GraphState)
      (decision : Fields) (trace : Option String) (db : Db S C)
      → WaitsFor app.engine db.checkpoints (thread_id i.id) d s
      → Ended app scenario i d decision trace db
  unfolding resumed resume_investigation result_from_state build_deps
  ended scenario i d s decision trace db waits =
      let deps = deps_for app false scenario i db in
      let (u, w') = answer_of app.rt deps d decision db.world in
      let enough : suc (suc (8 + deps.max_steps)) ≡ recursion_limit deps = omega arith in
      let last = end_of app.rt deps s u in
      let run : Run app.rt deps (recursion_limit deps) evaluate_policy (some decision) s db.world
          (finished last) w' =
        subst (λ l. Run app.rt deps l evaluate_policy (some decision) s db.world (finished last) w')
          enough
          (answered-Run app.rt deps (8 + deps.max_steps) d decision s db.world waits.needs
            waits.known) in
      let (c', e, p) =
        lawful.invoke_resume deps (recursion_limit deps) (thread_id i.id) decision evaluate_policy s
          db.checkpoints db.world w' (finished last) waits.saved_at run in
      let (r, gives, closes, explains) =
        concluded_result app.rt deps scenario d decision s db.world trace waits.healthy
          waits.known in
      record {
        result = r;
        checkpoints = c';
        comes_back =
            ap (λ x. investigated app (result_from_state scenario x.0 trace, x.1, x.2) db) e
            ∙ ap (λ x. (x, record db { checkpoints = c'; world = w' })) gives;
        concluded = closes;
        diagnosis = explains;
        thread_done = p;
      }
