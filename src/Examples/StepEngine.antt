-- ===== src/Examples/StepEngine.antt =====
-- An executable engine that keeps the contract which src/opspilot/agent/graph.py relies on: it runs
-- the nodes and edges on its recursion limit, and saves pauses under their threads.
use opspilot_sre_incident_re.Prelude.{
  ℕ, zero, suc, ◌≡◌, refl, ap, ◌∙◌, String, Option, none, some, str_eq, is_none, if◌then◌else◌,
}
use text.Mathlib.TextPositions.{eq_refl}
use opspilot_sre_incident_re.Json.{Fields}
use opspilot_sre_incident_re.Agent.State.{GraphState, merge, Runtime, NodeDeps, World}
use opspilot_sre_incident_re.Agent.Nodes.Gather.{
  NodeResult, returned, interrupted, raised, diverged,
}
use opspilot_sre_incident_re.Agent.Graph.{
  NodeName, gather_context, Target, to, finish, Outcome, finished, paused, crashed, run_node,
  next_node, Run, ends, moves, pauses, raises, Input, start, resume, Engine, place_of, IsEngine,
}

-- For each thread that was used, the place where it is paused, if it is.
abbrev pub Checkpoints : Type 0
Checkpoints = String → Option (Option (NodeName × GraphState))

abbrev pub save : String → Option (NodeName × GraphState) → Checkpoints → Checkpoints
save thread place c t = if str_eq t thread then some place else c t

abbrev pub place_in : Option (Option (NodeName × GraphState)) → Option (NodeName × GraphState)
place_in none = none
place_in (some place) = place

save-here :
    (thread : String) (place : Option (NodeName × GraphState)) (c : Checkpoints)
    → place_in (save thread place c thread) ≡ place
save-here thread place c = rw (eq_refl thread) refl

module _ (rt : Runtime) {S : Type 0} (deps : NodeDeps S) where
  abbrev follow :
      (NodeName → GraphState → World S → Outcome × World S)
      → GraphState
      → World S
      → Target
      → Outcome × World S
  follow again s w (to m) = again m s w
  follow again s w finish = (finished s, w)

  abbrev behind :
      (NodeName → GraphState → World S → Outcome × World S)
      → NodeName
      → GraphState
      → NodeResult × World S
      → Outcome × World S
  behind again n s (returned u, w) = follow again (merge s u) w (next_node rt deps n (merge s u))
  behind again n s (interrupted payload, w) = (paused n s payload, w)
  behind again n s (raised e, w) = (crashed e, w)
  behind again n s (diverged, w) = (crashed "diverged", w)

  abbrev execute_from : ℕ → NodeName → Option Fields → GraphState → World S → Outcome × World S
  execute_from zero n r s w = (crashed "GraphRecursionError", w)
  execute_from (suc l) n r s w = behind (λ m. execute_from l m none) n s (run_node rt deps n r s w)

  run-execute_from :
      (l : ℕ) (n : NodeName) (r : Option Fields) (s : GraphState) (w w' : World S) (o : Outcome)
      → Run rt deps l n r s w o w'
      → execute_from l n r s w ≡ (o, w')
  run-execute_from l n r s w w' o (ends {l = k} u e f) =
      ap (behind (λ m. execute_from k m none) n s) e
      ∙ ap (follow (λ m. execute_from k m none) (merge s u) w') f
  run-execute_from l n r s w w' o (moves {l = k} {w' = v} m u e f more) =
      ap (behind (λ m. execute_from k m none) n s) e
      ∙ ap (follow (λ m. execute_from k m none) (merge s u) v) f
      ∙ run-execute_from k m none (merge s u) v w' o more
  run-execute_from l n r s w w' o (pauses {l = k} payload e) =
      ap (behind (λ m. execute_from k m none) n s) e
  run-execute_from l n r s w w' o (raises {l = k} x e) =
      ap (behind (λ m. execute_from k m none) n s) e

module _ (rt : Runtime) {S : Type 0} where
  abbrev settled : String → Checkpoints → Outcome × World S → Outcome × Checkpoints × World S
  settled thread c (o, w) = (o, save thread (place_of o) c, w)

  abbrev resumed_at :
      NodeDeps S
      → ℕ
      → String
      → Fields
      → Checkpoints
      → World S
      → Option (NodeName × GraphState)
      → Outcome × Checkpoints × World S
  resumed_at deps limit thread decision c w none = (crashed "no checkpoint", c, w)
  resumed_at deps limit thread decision c w (some (n, s)) =
      settled thread c (execute_from rt deps limit n (some decision) s w)

  abbrev pub step_invoke :
      NodeDeps S → ℕ → String → Input → Checkpoints → World S → Outcome × Checkpoints × World S
  step_invoke deps limit thread (start s) c w =
      settled thread c (execute_from rt deps limit gather_context none s w)
  step_invoke deps limit thread (resume decision) c w =
      resumed_at deps limit thread decision c w (place_in (c thread))

  abbrev pub step_engine : Engine S Checkpoints
  step_engine = record {
    invoke = step_invoke;
    saved = λ c t. place_in (c t);
    unused = λ c t. is_none (c t);
  }

  pub step_engine-IsEngine : IsEngine rt step_engine
  step_engine-IsEngine = record {
    invoke_start = λ deps limit thread s c w w' o new run. (
      save thread (place_of o) c,
      ap (settled thread c) (run-execute_from rt deps limit gather_context none s w w' o run),
      save-here thread (place_of o) c,
    );
    invoke_resume = λ deps limit thread decision n s c w w' o at run. (
      save thread (place_of o) c,
      ap (resumed_at deps limit thread decision c w) at
          ∙ ap (settled thread c) (run-execute_from rt deps limit n (some decision) s w w' o run),
      save-here thread (place_of o) c,
    );
  }
