-- ===== src/Agent/Graph/Effects.antt =====
-- What a run of the graph of src/opspilot/agent/graph.py may do to the table of executed remediations.
use opspilot_sre_incident_re.Prelude.{
  ℕ, ◌≡◌, refl, sym, ap, subst, ◌∙◌, ◌⊎◌, inl, inr, true, Option, none, some, List, In, arith,
}
use opspilot_sre_incident_re.Json.{Fields}
use opspilot_sre_incident_re.Agent.Schemas.{SubmitDiagnosisArgs, RecommendedAction, action_name}
use opspilot_sre_incident_re.Agent.Idempotency.{RemediationExecution}
use opspilot_sre_incident_re.Agent.State.{GraphState, merge, Runtime, NodeDeps, World}
use opspilot_sre_incident_re.Agent.Nodes.Gather.{
  NodeResult, returned, interrupted, raised, diverged,
}
use opspilot_sre_incident_re.Agent.Nodes.Gate
use opspilot_sre_incident_re.Agent.Nodes.Approval.{
  runs_alone, Authorised, Permitted, evaluate_policy-Permitted,
}
use opspilot_sre_incident_re.Agent.Graph.{
  NodeName, gather_context, hypothesize, classify_risk, evaluate_policy, decide, Outcome, run_node,
  Run, ends, moves, pauses, raises,
}
use opspilot_sre_incident_re.Agent.Graph.Runs.{Gathered, gather_context-Gathered}

-- The row is of an action that runs by itself.
abbrev pub IsAlone : RemediationExecution → Type 0
IsAlone row = (a : RecommendedAction) × (row.action_type ≡ action_name a) × (runs_alone a ≡ true)

-- Each row of the second table is of the first, or of an action that runs by itself.
abbrev AddsAlone : List RemediationExecution → List RemediationExecution → Type 0
AddsAlone rows rows' = (row : RemediationExecution) → In row rows' → In row rows ⊎ IsAlone row

same-AddsAlone : (rows rows' : List RemediationExecution) → rows' ≡ rows → AddsAlone rows rows'
same-AddsAlone rows rows' e row i = inl (subst (In row) e i)

AddsAlone-trans :
    (a b c : List RemediationExecution) → AddsAlone a b → AddsAlone b c → AddsAlone a c
AddsAlone-trans a b c f g row i = elim (g row i) [ inl j ↦ f row j | inr alone ↦ inr alone ]

module _ (rt : Runtime) {S : Type 0} (deps : NodeDeps S) where
  added-AddsAlone :
      (d : SubmitDiagnosisArgs) (rows rows' : List RemediationExecution)
      → Permitted rt deps d.recommended_action (Authorised rt deps d none) rows rows'
      → AddsAlone rows rows'
  added-AddsAlone d rows rows' (inl same) row i = inl (subst (In row) same i)
  added-AddsAlone d rows rows' (inr (inr (decision, e, m1, m2, m3), added)) row i =
      absurd (ground arith)
  added-AddsAlone d rows rows' (inr (inl alone, (new, e, at, more, rest))) row i =
      elim (subst (In row) e i) [
        | inl same ↦ inr (d.recommended_action, ap (λ x. x.action_type) same ∙ at, alone)
        | inr old ↦ inl old
      ]

  gate-AddsAlone :
      (o : Option SubmitDiagnosisArgs) (w : World S)
      → AddsAlone w.executions (Gate.evaluate_policy rt deps o none w).1.executions
  unfolding Gate.evaluate_policy
  gate-AddsAlone none w = same-AddsAlone w.executions w.executions refl
  gate-AddsAlone (some d) w = added-AddsAlone d _ _ (evaluate_policy-Permitted rt deps d none w)

  Gathered-same :
      (s : GraphState) (w : World S) (x : NodeResult × World S)
      → Gathered rt deps s w x
      → x.1.executions ≡ w.executions
  Gathered-same s w (returned u, w') g = g.1
  Gathered-same s w (interrupted p, w') g = absurd g
  Gathered-same s w (raised e, w') g = g
  Gathered-same s w (diverged, w') g = absurd g

  node-AddsAlone :
      (n : NodeName) (s : GraphState) (w : World S)
      → AddsAlone w.executions (run_node rt deps n none s w).1.executions
  node-AddsAlone gather_context s w =
      same-AddsAlone _ _ (Gathered-same s w _ (gather_context-Gathered rt deps s w))
  node-AddsAlone hypothesize s w = same-AddsAlone _ _ refl
  node-AddsAlone classify_risk s w = same-AddsAlone _ _ refl
  node-AddsAlone evaluate_policy s w = gate-AddsAlone s.diagnosis w
  node-AddsAlone decide s w = same-AddsAlone _ _ refl

  visit-AddsAlone :
      (n : NodeName) (s : GraphState) (w w' : World S) (r : NodeResult)
      → run_node rt deps n none s w ≡ (r, w')
      → AddsAlone w.executions w'.executions
  visit-AddsAlone n s w w' r e =
      subst (λ x. AddsAlone w.executions x.1.executions) e (node-AddsAlone n s w)

  Run-AddsAlone :
      (l : ℕ) (n : NodeName) (s : GraphState) (w w' : World S) (o : Outcome)
      → Run rt deps l n none s w o w'
      → AddsAlone w.executions w'.executions
  Run-AddsAlone l n s w w' o (ends u e f) = visit-AddsAlone n s w w' _ e
  Run-AddsAlone l n s w w' o (moves {l = k} {w' = v} m u e f more) =
      AddsAlone-trans _ _ _ (visit-AddsAlone n s w v _ e)
        (Run-AddsAlone k m (merge s u) v w' o more)
  Run-AddsAlone l n s w w' o (pauses payload e) = visit-AddsAlone n s w w' _ e
  Run-AddsAlone l n s w w' o (raises x e) = visit-AddsAlone n s w w' _ e

  -- A run without an answer from a human, from whatever node, state and world, and however it
  -- ends, adds no row to the table of executed remediations but for the actions that run by
  -- themselves: each row behind the run was there before it, or is of such an action.
  pub Run-IsAlone :
      (l : ℕ) (n : NodeName) (s : GraphState) (w w' : World S) (o : Outcome)
      (row : RemediationExecution)
      → Run rt deps l n none s w o w'
      → In row w'.executions
      → In row w.executions ⊎ IsAlone row
  Run-IsAlone l n s w w' o row run i = Run-AddsAlone l n s w w' o run row i

  decide-same :
      (l : ℕ) (s : GraphState) (w w' : World S) (o : Outcome)
      → Run rt deps l decide none s w o w'
      → w'.executions ≡ w.executions
  decide-same l s w w' o (ends u e f) = ap (λ x. x.1.executions) (sym e)
  decide-same l s w w' o (moves m u e f more) = absurd (ground arith)
  decide-same l s w w' o (pauses payload e) = absurd (ground arith)
  decide-same l s w w' o (raises x e) = absurd (ground arith)

  answered_visit :
      (s : GraphState) (d : SubmitDiagnosisArgs) (decision : Fields) (w w' : World S)
      (r : NodeResult)
      → s.diagnosis ≡ some d
      → run_node rt deps evaluate_policy (some decision) s w ≡ (r, w')
      → Permitted rt deps d.recommended_action
          (Authorised rt deps d (some decision))
          w.executions
          w'.executions
  answered_visit s d decision w w' r has e =
      subst
        (λ x.
          Permitted rt deps d.recommended_action (Authorised rt deps d (some decision)) w.executions
            x.1.executions)
        (sym (ap (λ x. Gate.evaluate_policy rt deps x (some decision) w) has) ∙ e)
        (evaluate_policy-Permitted rt deps d (some decision) w)

  -- A run that a human's answer resumes at the gate, on a diagnosis, leaves the table of executed
  -- remediations as it was, or adds one row, which is of the diagnosed action on this service and
  -- thread and authorised: the action runs by itself, or it needs approval, the answer approves it,
  -- and its parameters were validated.
  pub resumed-Permitted :
      (l : ℕ) (s : GraphState) (d : SubmitDiagnosisArgs) (decision : Fields) (w w' : World S)
      (o : Outcome)
      → s.diagnosis ≡ some d
      → Run rt deps l evaluate_policy (some decision) s w o w'
      → Permitted rt deps d.recommended_action
          (Authorised rt deps d (some decision))
          w.executions
          w'.executions
  resumed-Permitted l s d decision w w' o has (ends u e f) =
      answered_visit s d decision w w' _ has e
  resumed-Permitted l s d decision w w' o has (moves {l = k} {w' = v} m u e f more) =
      let at_decide : m ≡ decide = ground arith in
      let left : w'.executions ≡ v.executions =
        decide-same k (merge s u) v w' o
          (subst (λ x. Run rt deps k x none (merge s u) v o w') at_decide more) in
      subst
        (λ x.
          Permitted rt deps d.recommended_action (Authorised rt deps d (some decision)) w.executions
            x)
        (sym left) (answered_visit s d decision w v _ has e)
  resumed-Permitted l s d decision w w' o has (pauses payload e) =
      answered_visit s d decision w w' _ has e
  resumed-Permitted l s d decision w w' o has (raises x e) =
      answered_visit s d decision w w' _ has e
