-- ===== src/Agent/Graph/Outcomes.antt =====
-- What every run of the graph of src/opspilot/agent/graph.py comes to, by induction on the run.
use opspilot_sre_incident_re.Prelude.{
  ℕ, ◌≡◌, refl, ap, subst, true, Option, none, some, arith, get_or,
}
use opspilot_sre_incident_re.Json.{Fields}
use opspilot_sre_incident_re.Agent.Schemas.{SubmitDiagnosisArgs}
use opspilot_sre_incident_re.Agent.State.{
  GraphState, Update, no_update, merge, Runtime, NodeDeps, World,
}
use opspilot_sre_incident_re.Agent.Nodes.Gather.{
  NodeResult, returned, interrupted, Route, go_on, to_diagnosed, to_ceiling,
}
use opspilot_sre_incident_re.Agent.Nodes.Gate
use opspilot_sre_incident_re.Agent.Nodes.Gate.{decide_status, approval_request}
use opspilot_sre_incident_re.Agent.Nodes.Approval.{needs_approval, pauses_with}
use opspilot_sre_incident_re.Agent.Graph.{
  NodeName, gather_context, hypothesize, classify_risk, evaluate_policy, decide, finish,
  route_target, Outcome, finished, paused, crashed, run_node, next_node, Run, ends, moves, pauses,
  raises,
}
use opspilot_sre_incident_re.Agent.Graph.Runs.{Gathered, gather_context-Gathered}

module _ (rt : Runtime) {S : Type 0} (deps : NodeDeps S) where
  -- What an outcome must be.
  abbrev pub IsSound : Outcome → Type 0
  IsSound (finished s) = s.status ≡ some (decide_status rt deps s)
  IsSound (paused n s payload) =
      (n ≡ evaluate_policy)
      × ((d : SubmitDiagnosisArgs) × (s.diagnosis ≡ some d)
          × (needs_approval d.recommended_action ≡ true)
          × (payload ≡ approval_request rt deps d))
  IsSound (crashed e) = Unit

  route-ne-finish : (r : Route) → route_target r ≡ finish → ⊥
  route-ne-finish go_on h = cc
  route-ne-finish to_diagnosed h = cc
  route-ne-finish to_ceiling h = cc

  abbrev returned_or_none : NodeResult → Option Update
  returned_or_none (returned u) = some u
  returned_or_none _ = none

  decided :
      (s : GraphState) (u : Update)
      → some (Gate.decide rt deps s) ≡ some u
      → (merge s u).status ≡ some (decide_status rt deps (merge s u))
  unfolding Gate.decide decide_status
  decided s u e = subst (λ x. IsSound (finished (merge s x))) (ap (λ x. get_or x no_update) e) refl

  -- Only `decide` ends a run by its edge.
  ends-IsSound :
      (n : NodeName) (r : Option Fields) (s : GraphState) (w w' : World S) (u : Update)
      → run_node rt deps n r s w ≡ (returned u, w')
      → next_node rt deps n (merge s u) ≡ finish
      → IsSound (finished (merge s u))
  ends-IsSound gather_context r s w w' u e f = absurd (route-ne-finish _ f)
  ends-IsSound hypothesize r s w w' u e f = cc
  ends-IsSound classify_risk r s w w' u e f = cc
  ends-IsSound evaluate_policy r s w w' u e f = cc
  ends-IsSound decide r s w w' u e f = decided s u (ap returned_or_none (ap (λ x. x.0) e))

  gate_paused :
      (o : Option SubmitDiagnosisArgs) (w w' : World S) (p : Fields)
      → Gate.evaluate_policy rt deps o none w ≡ (interrupted p, w')
      → (d : SubmitDiagnosisArgs) × (o ≡ some d)
        × (needs_approval d.recommended_action ≡ true)
        × (p ≡ approval_request rt deps d)
  unfolding Gate.evaluate_policy
  gate_paused none w w' p e = absurd (ground arith)
  gate_paused (some d) w w' p e =
      let (needs, asked) = pauses_with rt deps d w w' p e in (d, refl, needs, asked)

  pauses-IsSound :
      (n : NodeName) (s : GraphState) (w w' : World S) (payload : Fields)
      → run_node rt deps n none s w ≡ (interrupted payload, w')
      → IsSound (paused n s payload)
  pauses-IsSound gather_context s w w' p e =
      absurd (subst (λ x. Gathered rt deps s w x) e (gather_context-Gathered rt deps s w))
  pauses-IsSound hypothesize s w w' p e = absurd (ground arith)
  pauses-IsSound classify_risk s w w' p e = absurd (ground arith)
  pauses-IsSound decide s w w' p e = absurd (ground arith)
  pauses-IsSound evaluate_policy s w w' p e = (refl, gate_paused s.diagnosis w w' p e)

  -- Every run that starts without an answer is sound: finished, its status is the one that `decide`
  -- computes from the final state; paused, it is so at the gate, on a diagnosis whose action needs
  -- approval, with the request for that approval as its payload.
  pub Run-IsSound :
      (l : ℕ) (n : NodeName) (s : GraphState) (w w' : World S) (o : Outcome)
      → Run rt deps l n none s w o w'
      → IsSound o
  Run-IsSound l n s w w' o (ends u e f) = ends-IsSound n none s w w' u e f
  Run-IsSound l n s w w' o (moves {l = k} {w' = v} m u e f more) =
      Run-IsSound k m (merge s u) v w' o more
  Run-IsSound l n s w w' o (pauses payload e) = pauses-IsSound n s w w' payload e
  Run-IsSound l n s w w' o (raises x e) = tt
