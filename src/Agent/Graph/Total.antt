-- ===== src/Agent/Graph/Total.antt =====
-- The runs of the graph of src/opspilot/agent/graph.py and the recursion limit that the code passes.
use opspilot_sre_incident_re.Prelude.{
  true, ℕ, zero, suc, ◌+◌, ◌≤◌, ◌≡◌, refl, ap, String, Option, none, some, arith, get_or,
}
use opspilot_sre_incident_re.Json.{Fields}
use opspilot_sre_incident_re.Agent.State.{
  GraphState, initial_state, Update, merge, Runtime, NodeDeps, World,
}
use opspilot_sre_incident_re.Agent.Nodes.Gather.{
  NodeResult, returned, interrupted, raised, diverged, Route, go_on, to_diagnosed, to_ceiling,
  route_after_gather_context,
}
use opspilot_sre_incident_re.Agent.Graph.{
  NodeName, gather_context, hypothesize, classify_risk, evaluate_policy, decide, to, route_target,
  Outcome, run_node, next_node, Run, ends, moves, pauses, raises, Engine, IsEngine, start, resume,
  recursion_limit, place_of,
}
use opspilot_sre_incident_re.Agent.Graph.Runs.{
  Gathered, gather_context-Gathered, Settles, evaluate_policy-Settles, go_on-lt,
}

module _ (rt : Runtime) {S : Type 0} (deps : NodeDeps S) where
  -- Some run, within the limit.
  abbrev pub Runs : ℕ → NodeName → Option Fields → GraphState → World S → Type 0
  Runs l n r s w = (o : Outcome) × (w' : World S) × Run rt deps l n r s w o w'

  moves_on :
      {l : ℕ} {n : NodeName} {r : Option Fields} {s : GraphState} {w w' : World S} (m : NodeName)
      (u : Update)
      → run_node rt deps n r s w ≡ (returned u, w')
      → next_node rt deps n (merge s u) ≡ to m
      → Runs l m none (merge s u) w'
      → Runs (suc l) n r s w
  moves_on m u e step (o, w'', run) = (o, w'', moves m u e step run)

  decide-Runs : (l : ℕ) (s : GraphState) (w : World S) → Runs (suc l) decide none s w
  decide-Runs l s w = (_, _, ends _ refl refl)

  settled-Runs :
      (l : ℕ) (r : Option Fields) (s : GraphState) (w : World S) (result : NodeResult × World S)
      → run_node rt deps evaluate_policy r s w ≡ result
      → Settles rt deps result
      → Runs (suc (suc l)) evaluate_policy r s w
  settled-Runs l r s w (returned u, w') e h =
      moves_on decide u e refl (decide-Runs l (merge s u) w')
  settled-Runs l r s w (interrupted payload, w') e h = (_, _, pauses payload e)
  settled-Runs l r s w (raised m, w') e h = absurd h
  settled-Runs l r s w (diverged, w') e h = absurd h

  pub policy-Runs :
      (l : ℕ) (r : Option Fields) (s : GraphState) (w : World S)
      → Runs (suc (suc l)) evaluate_policy r s w
  policy-Runs l r s w =
      settled-Runs l r s w _ refl (evaluate_policy-Settles rt deps s.diagnosis r w)

  diagnosed-Runs :
      (l : ℕ) (s : GraphState) (w : World S) → Runs (suc (suc (suc (suc l)))) hypothesize none s w
  diagnosed-Runs l s w =
      moves_on classify_risk _ refl refl
        (moves_on evaluate_policy _ refl refl (policy-Runs l none _ w))

  routed-Runs :
      (l : ℕ) (s : GraphState) (w w' : World S) (u : Update) (route : Route)
      → run_node rt deps gather_context none s w ≡ (returned u, w')
      → route_after_gather_context rt deps (merge s u) ≡ route
      → (route ≡ go_on → Runs (suc (suc (suc (suc l)))) gather_context none (merge s u) w')
      → Runs (suc (suc (suc (suc (suc l))))) gather_context none s w
  routed-Runs l s w w' u go_on e step again =
      moves_on gather_context u e (ap route_target step) (again refl)
  routed-Runs l s w w' u to_diagnosed e step again =
      moves_on hypothesize u e (ap route_target step) (diagnosed-Runs l (merge s u) w')
  routed-Runs l s w w' u to_ceiling e step again =
      moves_on decide u e (ap route_target step) (decide-Runs (suc (suc (suc l))) (merge s u) w')

  Gathered-Runs :
      (l : ℕ) (s : GraphState) (w : World S) (result : NodeResult × World S)
      → run_node rt deps gather_context none s w ≡ result
      → Gathered rt deps s w result
      → ((s' : GraphState) (w' : World S)
          → s'.steps_used ≡ s.steps_used + 1
          → route_after_gather_context rt deps s' ≡ go_on
          → Runs (suc (suc (suc (suc l)))) gather_context none s' w')
      → Runs (suc (suc (suc (suc (suc l))))) gather_context none s w
  Gathered-Runs l s w (returned u, w') e h again =
      routed-Runs l s w w' u _ e refl
        (again (merge s u) w' (ap (λ (x : Option ℕ). get_or x s.steps_used) h.0))
  Gathered-Runs l s w (interrupted payload, w') e h again = absurd h
  Gathered-Runs l s w (raised m, w') e h again = (_, _, raises m e)
  Gathered-Runs l s w (diverged, w') e h again = absurd h

  -- With `k` steps to the ceiling, `k` + 5 visits are enough.
  pub gather-Runs :
      (k : ℕ) (s : GraphState) (w : World S)
      → deps.max_steps ≤ s.steps_used + k
      → (l : ℕ) → Runs (suc (suc (suc (suc (suc (l + k)))))) gather_context none s w
  gather-Runs zero s w near l =
      Gathered-Runs (l + 0) s w _ refl (gather_context-Gathered rt deps s w)
        (λ s' w' e go. absurd (omega (arith, go_on-lt rt deps s' go)))
  gather-Runs (suc k) s w near l =
      Gathered-Runs (l + suc k) s w _ refl (gather_context-Gathered rt deps s w) (λ s' w' e go.
        let shift : l + suc k ≡ suc (l + k) = omega arith in
        rw shift (gather-Runs k s' w' (omega arith) l))

  -- An investigation has a run from the initial state, and an approved pause one from the gate.
  start-Runs : (w : World S) → Runs (recursion_limit deps) gather_context none initial_state w
  start-Runs w =
      let enough : deps.max_steps + 10 ≡ suc (suc (suc (suc (suc (5 + deps.max_steps))))) =
        omega arith in
      rw enough (gather-Runs deps.max_steps initial_state w (omega arith) 5)

  resume-Runs :
      (decision : Fields) (s : GraphState) (w : World S)
      → Runs (recursion_limit deps) evaluate_policy (some decision) s w
  resume-Runs decision s w =
      let enough : deps.max_steps + 10 ≡ suc (suc (8 + deps.max_steps)) = omega arith in
      rw enough (policy-Runs (8 + deps.max_steps) (some decision) s w)

module _ (rt : Runtime) {S C : Type 0} (engine : Engine S C) (lawful : IsEngine rt engine)
    (deps : NodeDeps S) where
  -- With any engine that keeps LangGraph's contract, starting an investigation on an unused
  -- thread ends: the engine
  -- returns the outcome of a run of the nodes and edges from the initial state that fits into the
  -- recursion limit `max_steps` + 10, so the engine's own guard never fires; and a pause is saved
  -- under the thread.
  pub invoke_start-ends :
      (thread : String) (c : C) (w : World S)
      → engine.unused c thread ≡ true
      → (o : Outcome) × (c' : C) × (w' : World S) × (engine.invoke deps
            (recursion_limit deps)
            thread
            (start initial_state)
            c
            w
          ≡ (o, c', w'))
        × Run rt deps (recursion_limit deps) gather_context none initial_state w o w'
        × (engine.saved c' thread ≡ place_of o)
  invoke_start-ends thread c w new =
      let (o, w', run) = start-Runs rt deps w in
      let (c', e, p) =
        lawful.invoke_start deps (recursion_limit deps) thread initial_state c w w' o new run in
      (o, c', w', e, run, p)

  -- Resuming a thread that is paused at the gate ends too, within the same limit, whatever the
  -- decision.
  pub invoke_resume-ends :
      (thread : String) (decision : Fields) (s : GraphState) (c : C) (w : World S)
      → engine.saved c thread ≡ some (evaluate_policy, s)
      → (o : Outcome) × (c' : C) × (w' : World S) × (engine.invoke deps
            (recursion_limit deps)
            thread
            (resume decision)
            c
            w
          ≡ (o, c', w'))
        × Run rt deps (recursion_limit deps) evaluate_policy (some decision) s w o w'
        × (engine.saved c' thread ≡ place_of o)
  invoke_resume-ends thread decision s c w at =
      let (o, w', run) = resume-Runs rt deps decision s w in
      let (c', e, p) =
        lawful.invoke_resume deps (recursion_limit deps) thread decision evaluate_policy s c w w' o
          at run in
      (o, c', w', e, run, p)
