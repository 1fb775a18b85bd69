-- ===== src/Incidents/Outage.antt =====
-- Running an incident while the provider is down, by `run_incident` of
-- src/opspilot/routers/incidents.py.
use opspilot_sre_incident_re.Prelude.{
  ℕ, suc, ◌+◌, ◌≡◌, refl, sym, ap, ◌∙◌, subst, String, true, Option, none, some, str_eq, ok, arith,
}
use opspilot_sre_incident_re.Models.{Scenario, Incident}
use opspilot_sre_incident_re.Agent.Schemas.{incomplete_provider_error, InvestigationResult}
use opspilot_sre_incident_re.Agent.State.{initial_state, World}
use opspilot_sre_incident_re.Agent.Graph.{
  gather_context, finished, Run, IsEngine, recursion_limit, run_investigation, result_from_state,
  build_deps,
}
use opspilot_sre_incident_re.Agent.Graph.Outage.{IsDown, down_end, down-Run, down_result}
use opspilot_sre_incident_re.Incidents.Applying.{
  Db, Reply, shown, thread_id, put_incident, App, updated,
}
use opspilot_sre_incident_re.Incidents.Timeout.{
  running, scenario_of, find_incident, apply_result, deps_for, investigated, investigate,
}
use opspilot_sre_incident_re.Incidents.{run_incident, run_in, answered_with}
use opspilot_sre_incident_re.Incidents.Lifecycle.{find-id, find-put, updated-id}

module _ {S C : Type 0} (app : App S C) where
  -- The reply shows the incident closed for a failure of the provider, after one step and at no
  -- cost, and the store keeps it so.
  abbrev pub IsGivenUp : ℕ → Reply Incident × Db S C → Type 0
  IsGivenUp n (reply, db) =
      (i : Incident) × (reply ≡ shown i)
      × (i.status ≡ "incomplete_provider_error")
      × (i.steps_used ≡ some 1)
      × (i.estimated_cost_usd ≡ some 0)
      × (i.diagnosis ≡ none)
      × (find_incident n db ≡ some i)

  updated-IsGivenUp :
      (n : ℕ) (scenario : Scenario) (i : Incident) (r : InvestigationResult) (db : Db S C)
      → find_incident n db ≡ some i
      → r.status ≡ incomplete_provider_error
      → r.steps_used ≡ 1
      → r.estimated_cost_usd ≡ 0
      → r.diagnosis ≡ none
      → let (i', db') = apply_result app scenario i r db in IsGivenUp n (shown i', db')
  unfolding apply_result updated
  updated-IsGivenUp n scenario i r db found failed steps cost unknown =
      let i' = updated i r db.world.now in
      (
        i',
        refl,
        rw failed refl,
        rw failed (ap some steps),
        rw failed (ap some cost),
        rw failed (rw unknown refl),
        find-put n db.incidents i i' found
            (updated-id i r db.world.now ∙ find-id n db.incidents i found),
      )

module _ {S C : Type 0} (app : App S C) (lawful : IsEngine app.rt app.engine)
    (down : IsDown app.chat_fn) where
  -- What running comes to.
  record GivenUp (scenario : Scenario) (i : Incident) (trace : Option String) (db : Db S C)
      : Type 0 where
    result : InvestigationResult
    checkpoints : C
    world : World S
    comes_back :
        investigate app scenario i trace db
        ≡ (ok result, record db { checkpoints = checkpoints; world = world })
    failed : result.status ≡ incomplete_provider_error
    steps : result.steps_used ≡ 1
    cost : result.estimated_cost_usd ≡ 0
    unknown : result.diagnosis ≡ none
    untouched : world.executions ≡ db.world.executions

  given_up :
      (scenario : Scenario) (i : Incident) (trace : Option String) (db : Db S C)
      → app.engine.unused db.checkpoints (thread_id i.id) ≡ true
      → GivenUp scenario i trace db
  unfolding investigate run_investigation result_from_state build_deps
  given_up scenario i trace db unstarted =
      let deps = deps_for app true scenario i db in
      let enough : suc (suc (8 + deps.max_steps)) ≡ recursion_limit deps = omega arith in
      let (e, w', run, same) =
        down-Run app.rt deps down (8 + deps.max_steps) initial_state db.world in
      let (c', ran, p) =
        lawful.invoke_start deps (recursion_limit deps) (thread_id i.id) initial_state
          db.checkpoints db.world w' (finished (down_end app.rt deps down initial_state e))
          unstarted
          (subst
            (λ l.
              Run app.rt deps l gather_context none initial_state db.world
                (finished (down_end app.rt deps down initial_state e)) w')
            enough run) in
      let (r, gives, failed, steps, cost, unknown) =
        down_result app.rt deps down scenario trace e in
      record {
        result = r;
        checkpoints = c';
        world = w';
        comes_back =
            ap (λ x. investigated app (result_from_state scenario x.0 trace, x.1, x.2) db) ran
            ∙ ap (λ x. (x, record db { checkpoints = c'; world = w' })) gives;
        failed = failed;
        steps = steps;
        cost = cost;
        unknown = unknown;
        untouched = same;
      }

  -- A provider that is down does not break a run: if every call of the model fails transiently,
  -- then, with an engine that keeps LangGraph's contract, running an open incident whose thread
  -- is unused ends. The reply
  -- shows the incident closed for the failure of the provider, after one step, at no cost and with
  -- no diagnosis, the store keeps it so, and no remediation was executed.
  pub run_incident-IsGivenUp :
      (n : ℕ) (scenario : Scenario) (i : Incident) (trace : Option String) (db : Db S C)
      → find_incident n db ≡ some i
      → str_eq i.status "open" ≡ true
      → scenario_of i db ≡ some scenario
      → app.engine.unused db.checkpoints (thread_id i.id) ≡ true
      → IsGivenUp app n (run_incident app n trace db)
        × ((run_incident app n trace db).1.world.executions ≡ db.world.executions)
  unfolding run_incident apply_result
  run_incident-IsGivenUp n scenario i trace db found new known unstarted =
      let i' = running i db.world.now in
      let db' : Db S C = record db { incidents = put_incident i' db.incidents } in
      let g = given_up scenario i' trace db' unstarted in
      let end_db : Db S C = record db' { checkpoints = g.checkpoints; world = g.world } in
      let started : run_incident app n trace db
          ≡ answered_with app scenario i' (investigate app scenario i' trace db') =
        rw (found, run_incident)
          (rw (new, run_incident) (ap (λ o. run_in app o i trace db) known)) in
      let reached : run_incident app n trace db
          ≡ answered_with app scenario i' (ok g.result, end_db) =
        started ∙ ap (answered_with app scenario i') g.comes_back in
      let kept = find-put n db.incidents i i' found (find-id n db.incidents i found) in
      subst (λ x. IsGivenUp app n x × (x.1.world.executions ≡ db.world.executions)) (sym reached)
        (
          updated-IsGivenUp app n scenario i' g.result end_db kept g.failed g.steps g.cost
              g.unknown,
          g.untouched,
        )
