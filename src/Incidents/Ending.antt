-- ===== src/Incidents/Ending.antt =====
-- Every incident that is run comes to its end: `run_incident` and `get_incident` of
-- src/opspilot/routers/incidents.py, over the graph.
use opspilot_sre_incident_re.Prelude.{
  ℕ, ◌-◌, ◌+◌, ◌≤◌, arith, ◌≡◌, refl, sym, ap, ◌∙◌, subst, String, true, false, is_some, Bool-cases,
  Option, none, some, str_eq, ltb, ◌⊎◌, inl, inr, Result, ok, err,
}
use opspilot_sre_incident_re.Models.{Scenario, Incident}
use opspilot_sre_incident_re.Agent.Schemas.{
  SubmitDiagnosisArgs, awaiting_approval, InvestigationResult,
}
use opspilot_sre_incident_re.Agent.State.{GraphState, initial_state, NodeDeps, Runtime}
use opspilot_sre_incident_re.Agent.Nodes.Gate.{decide_status}
use opspilot_sre_incident_re.Agent.Graph.{
  gather_context, Outcome, finished, paused, crashed, IsEngine, place_of, run_investigation,
  result_from_state, build_deps,
}
use opspilot_sre_incident_re.Agent.Graph.Total.{invoke_start-ends}
use opspilot_sre_incident_re.Agent.Graph.Outcomes.{IsSound, Run-IsSound}
use opspilot_sre_incident_re.Agent.Graph.Crashes.{FailsForGood, IsExplained, Run-IsExplained}
use opspilot_sre_incident_re.Agent.Graph.Pauses.{IsHealthy, Run-IsHealthy}
use opspilot_sre_incident_re.Incidents.Applying.{
  Db, Reply, broken, thread_id, put_incident, App, updated, awaits,
}
use opspilot_sre_incident_re.Incidents.Timeout.{
  running, scenario_of, find_incident, apply_result, deps_for, investigated, investigate, overdue,
}
use opspilot_sre_incident_re.Incidents.{get_incident, run_incident, run_in, answered_with}
use opspilot_sre_incident_re.Incidents.Lifecycle.{find-id, find-put, updated-id}
use opspilot_sre_incident_re.Incidents.Phases.{over, phase, phase_of, Life-over, status_name-over}
use opspilot_sre_incident_re.Incidents.Refinement.{reading, handle, view, handle-Life}
use opspilot_sre_incident_re.Incidents.Resolution.{WaitsFor}
use opspilot_sre_incident_re.Incidents.Settling.{IsClosed, get_incident-settles}

-- The request ended in an exception.
abbrev pub IsBroken : {A : Type 0} → Reply A → Type 0
IsBroken (broken e) = Unit
IsBroken _ = ⊥

-- The same store at another time.
abbrev pub at_time : {S C : Type 0} → ℕ → Db S C → Db S C
at_time now db = record db { world = record db.world { now = now } }

decide_status-awaits :
    (rt : Runtime) {S : Type 0} (deps : NodeDeps S) (s : GraphState)
    → awaits (decide_status rt deps s) ≡ false
unfolding decide_status
decide_status-awaits rt deps s = elim (Bool-cases (is_some s.provider_error)) [
  | inl failed ↦ rw failed refl
  | inr a ↦ elim (Bool-cases (is_some s.diagnosis)) [
    | inl known ↦ rw a (rw known refl)
    | inr b ↦ elim (Bool-cases (ltb deps.max_cost_usd s.estimated_cost_usd)) [
      | inl dear ↦ rw a (rw b (rw dear refl))
      | inr c ↦ rw a (rw b (rw c refl))
    ]
  ]
]

module _ {S C : Type 0} (app : App S C) (n now : ℕ) (later : Option String) where
  -- Behind a request on the incident: it broke, and the model can fail for good, or a read at the
  -- later time leaves the incident over.
  abbrev pub EndsOver : Reply Incident × Db S C → Type 0
  EndsOver (reply, db) =
      (IsBroken reply × FailsForGood app.chat_fn)
      ⊎ (view app n (get_incident app n later (at_time now db)).1 ≡ over)

  closed-EndsOver :
      (scenario : Scenario) (i : Incident) (r : InvestigationResult) (db : Db S C)
      → find_incident n db ≡ some i
      → awaits r.status ≡ false
      → EndsOver (answered_with app scenario i (ok r, db))
  unfolding apply_result updated handle
  closed-EndsOver scenario i r db found closed =
      let i' = updated i r db.world.now in
      let kept =
        find-put n db.incidents i i' found
          (updated-id i r db.world.now ∙ find-id n db.incidents i found) in
      let ended : phase i'.status ≡ over = rw closed (status_name-over r.status closed) in
      let after = at_time now (apply_result app scenario i r db).1 in
      let seen : view app n after ≡ over = ap phase_of kept ∙ ended in
      inr (Life-over _ _ (handle-Life app (reading n) later after tt n) seen)

module _ {S C : Type 0} (app : App S C) (lawful : IsEngine app.rt app.engine) (n now : ℕ)
    (later : Option String) where
  IsClosed-over :
      (thread : String) (x : Reply Incident × Db S C)
      → IsClosed app n thread x
      → view app n x.1 ≡ over
  IsClosed-over thread x (i, shows, closed, kept, done) = ap phase_of kept ∙ ap phase closed

  paused-EndsOver :
      (scenario : Scenario) (i : Incident) (r : InvestigationResult) (d : SubmitDiagnosisArgs)
      (s : GraphState) (db : Db S C)
      → find_incident n db ≡ some i
      → scenario_of i db ≡ some scenario
      → r.status ≡ awaiting_approval
      → WaitsFor app.engine db.checkpoints (thread_id i.id) d s
      → ltb (now - db.world.now) app.settings.approval_sla_seconds ≡ false
      → EndsOver app n now later (answered_with app scenario i (ok r, db))
  unfolding apply_result updated
  paused-EndsOver scenario i r d s db found known pause waits expired =
      let i' = updated i r db.world.now in
      let same = updated-id i r db.world.now in
      let kept = find-put n db.incidents i i' found (same ∙ find-id n db.incidents i found) in
      let late : overdue app i' now ≡ true = rw pause (rw expired refl) in
      let of : scenario_of i' db ≡ some scenario = rw pause known in
      let still =
        subst (λ x. WaitsFor app.engine db.checkpoints (thread_id x) d s) (sym same) waits in
      let after = at_time now (apply_result app scenario i r db).1 in
      inr (
        IsClosed-over (thread_id i'.id) (get_incident app n later after)
          (get_incident-settles app lawful n scenario i' d s later after kept late of still).0)

  -- What an investigation ends with, in a store.
  outcome-EndsOver :
      (scenario : Scenario) (i : Incident) (trace : Option String) (db : Db S C) (o : Outcome)
      → find_incident n db ≡ some i
      → scenario_of i db ≡ some scenario
      → IsSound app.rt (deps_for app true scenario i db) o
      → IsHealthy o
      → IsExplained app.rt (deps_for app true scenario i db) o
      → app.engine.saved db.checkpoints (thread_id i.id) ≡ place_of o
      → ltb (now - db.world.now) app.settings.approval_sla_seconds ≡ false
      → EndsOver app n now later
          (answered_with app scenario i (result_from_state scenario o trace, db))
  unfolding result_from_state build_deps
  outcome-EndsOver scenario i trace db (finished s) found known sound healthy why place expired =
      rw sound (
        closed-EndsOver app n now later scenario i _ db found
          (decide_status-awaits app.rt (deps_for app true scenario i db) s))
  outcome-EndsOver scenario i trace db (paused m s payload) found known
        (gate, (d, explained, needs, asks)) healthy why place expired =
      let waits : WaitsFor app.engine db.checkpoints (thread_id i.id) d s = record {
        saved_at = place ∙ ap (λ x. some (x, s)) gate;
        known = explained;
        needs = needs;
        healthy = healthy;
      } in
      paused-EndsOver scenario i _ d s db found known refl waits expired
  outcome-EndsOver scenario i trace db (crashed e) found known sound healthy why place expired =
      inl (tt, why)

  answered_with-world :
      (scenario : Scenario) (i : Incident) (r : Result String InvestigationResult) (db : Db S C)
      → (answered_with app scenario i (r, db)).1.world ≡ db.world
  unfolding apply_result
  answered_with-world scenario i (ok r) db = refl
  answered_with-world scenario i (err e) db = refl

  ltb-elapsed : (start sla : ℕ) → start + sla ≤ now → ltb (now - start) sla ≡ false
  ltb-elapsed start sla enough = ground arith

  -- Every incident that is run comes to its end: with an engine that keeps LangGraph's contract, an
  -- open incident whose thread is unused is run; then either a read of the incident, once the approval SLA has passed since
  -- the run, leaves it over, in a final status, or the request was answered by an exception, and then
  -- the model's provider can fail in a way that is not retried. It is so whether the run came to a
  -- diagnosis, to a ceiling or to a transient failure, or paused for an approval that nobody gave.
  pub run_incident-EndsOver :
      (scenario : Scenario) (i : Incident) (trace : Option String) (db : Db S C)
      → find_incident n db ≡ some i
      → str_eq i.status "open" ≡ true
      → scenario_of i db ≡ some scenario
      → app.engine.unused db.checkpoints (thread_id i.id) ≡ true
      → (run_incident app n trace db).1.world.now + app.settings.approval_sla_seconds ≤ now
      → EndsOver app n now later (run_incident app n trace db)
  unfolding run_incident investigate run_investigation build_deps
  run_incident-EndsOver scenario i trace db found new known unstarted waited =
      let i' = running i db.world.now in
      let db' : Db S C = record db { incidents = put_incident i' db.incidents } in
      let deps = deps_for app true scenario i' db' in
      let (o, c', w', e, run, place) =
        invoke_start-ends app.rt app.engine lawful deps (thread_id i'.id) db'.checkpoints db'.world
          unstarted in
      let end_db : Db S C = record db' { checkpoints = c'; world = w' } in
      let r = result_from_state scenario o trace in
      let reached : run_incident app n trace db ≡ answered_with app scenario i' (r, end_db) =
        rw (found, run_incident) (rw (new, run_incident) (ap (λ o. run_in app o i trace db) known))
        ∙ ap
            (λ x.
              answered_with app scenario i'
                (investigated app (result_from_state scenario x.0 trace, x.1, x.2) db'))
            e in
      let start : (run_incident app n trace db).1.world.now ≡ w'.now =
        ap (λ x. x.1.world.now) reached
        ∙ ap (λ x. x.now) (answered_with-world scenario i' r end_db) in
      let expired =
        ltb-elapsed w'.now app.settings.approval_sla_seconds
          (subst (λ x. x + app.settings.approval_sla_seconds ≤ now) start waited) in
      let kept = find-put n db.incidents i i' found (find-id n db.incidents i found) in
      subst (EndsOver app n now later) (sym reached) (
        outcome-EndsOver scenario i' trace end_db o kept known
          (Run-IsSound app.rt deps _ gather_context initial_state db'.world w' o run)
          (Run-IsHealthy app.rt deps _ gather_context none initial_state db'.world w' o run refl)
          (Run-IsExplained app.rt deps _ gather_context none initial_state db'.world w' o run) place
          expired)
