-- ===== src/Agent/Graph/Pauses.antt =====
-- The state in which a run of the graph of src/opspilot/agent/graph.py pauses.
use opspilot_sre_incident_re.Prelude.{
  ℕ, ◌≡◌, refl, sym, ap, ◌∙◌, subst, Option, none, Option-cases, inl, inr, arith,
}
use opspilot_sre_incident_re.Json.{Fields}
use opspilot_sre_incident_re.Agent.State.{
  GraphState, Update, no_update, merge, Runtime, NodeDeps, World,
}
use opspilot_sre_incident_re.Agent.Nodes.Gather.{
  NodeResult, returned, interrupted, route_after_gather_context,
}
use opspilot_sre_incident_re.Agent.Nodes.Ground
use opspilot_sre_incident_re.Agent.Graph.{
  NodeName, gather_context, hypothesize, classify_risk, evaluate_policy, decide, Target, to, finish,
  route_target, Outcome, paused, run_node, next_node, Run, ends, moves, pauses, raises,
}

-- No provider error on the way to the gate.
abbrev pub Clear : NodeName → GraphState → Type 0
Clear decide s = Unit
Clear _ s = s.provider_error ≡ none

Clear-none : (m : NodeName) (s : GraphState) → s.provider_error ≡ none → Clear m s
Clear-none gather_context s h = h
Clear-none hypothesize s h = h
Clear-none classify_risk s h = h
Clear-none evaluate_policy s h = h
Clear-none decide s h = tt

abbrev name_of : Target → NodeName
name_of (to m) = m
name_of finish = decide

abbrev update_of : NodeResult → Update
update_of (returned u) = u
update_of _ = no_update

-- A pause is one without a provider error.
abbrev pub IsHealthy : Outcome → Type 0
IsHealthy (paused n s payload) = s.provider_error ≡ none
IsHealthy _ = Unit

module _ (rt : Runtime) {S : Type 0} (deps : NodeDeps S) where
  routed-Clear :
      (m : NodeName) (s : GraphState)
      → route_target (route_after_gather_context rt deps s) ≡ to m
      → Clear m s
  unfolding route_after_gather_context
  routed-Clear m s e = elim (Option-cases s.provider_error) [
    | inl healthy ↦ Clear-none m s healthy
    | inr (x, failed) ↦
        let there : route_target (route_after_gather_context rt deps s) ≡ to decide =
          rw (failed, route_after_gather_context) refl in
        subst (λ k. Clear k s) (ap name_of (sym there ∙ e)) tt
  ]

  hypothesize_keeps : (s : GraphState) → (Ground.hypothesize s).provider_error ≡ none
  unfolding Ground.hypothesize Ground.grounding_of
  hypothesize_keeps s = elim (Option-cases s.diagnosis) [
    | inl e ↦ rw (e, Ground.hypothesize) refl
    | inr (d, e) ↦ rw (e, Ground.hypothesize) refl
  ]

  classify_risk_keeps : (s : GraphState) → (Ground.classify_risk s).provider_error ≡ none
  unfolding Ground.classify_risk
  classify_risk_keeps s = refl

  kept :
      (s : GraphState) (u v : Update)
      → v.provider_error ≡ none
      → v ≡ u
      → s.provider_error ≡ none
      → (merge s u).provider_error ≡ none
  kept s u v quiet same h = subst (λ x. (merge s x).provider_error ≡ none) same (rw quiet h)

  moves-Clear :
      (n m : NodeName) (r : Option Fields) (s : GraphState) (w w' : World S) (u : Update)
      → run_node rt deps n r s w ≡ (returned u, w')
      → next_node rt deps n (merge s u) ≡ to m
      → Clear n s
      → Clear m (merge s u)
  moves-Clear gather_context m r s w w' u e f h = routed-Clear m (merge s u) f
  moves-Clear hypothesize m r s w w' u e f h =
      Clear-none m (merge s u)
        (kept s u (Ground.hypothesize s) (hypothesize_keeps s) (ap (λ x. update_of x.0) e) h)
  moves-Clear classify_risk m r s w w' u e f h =
      Clear-none m (merge s u)
        (kept s u (Ground.classify_risk s) (classify_risk_keeps s) (ap (λ x. update_of x.0) e) h)
  moves-Clear evaluate_policy m r s w w' u e f h =
      subst (λ k. Clear k (merge s u)) (ap name_of f) tt
  moves-Clear decide m r s w w' u e f h = cc

  pauses-Clear :
      (n : NodeName) (r : Option Fields) (s : GraphState) (w w' : World S) (p : Fields)
      → run_node rt deps n r s w ≡ (interrupted p, w')
      → Clear n s
      → s.provider_error ≡ none
  pauses-Clear gather_context r s w w' p e h = h
  pauses-Clear hypothesize r s w w' p e h = h
  pauses-Clear classify_risk r s w w' p e h = h
  pauses-Clear evaluate_policy r s w w' p e h = h
  pauses-Clear decide r s w w' p e h = absurd (ground arith)

  -- A run on which no provider error stands pauses without one.
  pub Run-IsHealthy :
      (l : ℕ) (n : NodeName) (r : Option Fields) (s : GraphState) (w w' : World S) (o : Outcome)
      → Run rt deps l n r s w o w'
      → Clear n s
      → IsHealthy o
  Run-IsHealthy l n r s w w' o (ends u e f) h = tt
  Run-IsHealthy l n r s w w' o (moves {l = k} {w' = v} m u e f more) h =
      Run-IsHealthy k m none (merge s u) v w' o more (moves-Clear n m r s w v u e f h)
  Run-IsHealthy l n r s w w' o (pauses payload e) h = pauses-Clear n r s w w' payload e h
  Run-IsHealthy l n r s w w' o (raises x e) h = tt
