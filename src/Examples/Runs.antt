-- ===== src/Examples/Runs.antt =====
-- The properties of the graph of src/opspilot/agent/graph.py, applied to the example.
use opspilot_sre_incident_re.Prelude.{ℕ, ◌≡◌, ◌⊎◌, refl, inl, none, some, In}
use opspilot_sre_incident_re.Json.{end}
use opspilot_sre_incident_re.Agent.Idempotency.{
  execute_idempotently, execution_row, RemediationExecution,
}
use opspilot_sre_incident_re.Agent.Policy.{evaluate}
use opspilot_sre_incident_re.Agent.Remediation
use opspilot_sre_incident_re.Agent.State.{
  GraphState, initial_state, Update, merge, no_update, World,
}
use opspilot_sre_incident_re.Agent.Nodes.Gather.{NodeResult, returned}
use opspilot_sre_incident_re.Agent.Nodes.Gate
use opspilot_sre_incident_re.Agent.Nodes.Gate.{approval_request}
use opspilot_sre_incident_re.Agent.Nodes.Approval.{Authorised, Permitted, evaluate_policy-pauses}
use opspilot_sre_incident_re.Agent.Graph.{
  gather_context, evaluate_policy, decide, Outcome, finished, paused, Run, ends, moves, pauses,
  start, resume, recursion_limit, place_of,
}
use opspilot_sre_incident_re.Agent.Graph.Total.{invoke_start-ends, invoke_resume-ends}
use opspilot_sre_incident_re.Agent.Graph.Outcomes.{IsSound, Run-IsSound}
use opspilot_sre_incident_re.Agent.Graph.Effects.{IsAlone, Run-IsAlone, resumed-Permitted}
use opspilot_sre_incident_re.Examples.{bad_deploy, stuck_worker, rt, deps, world, approval, at_gate}
use opspilot_sre_incident_re.Examples.StepEngine.{Checkpoints, step_engine, step_engine-IsEngine}

abbrev no_threads : Checkpoints
no_threads t = none

invoke_start-ends_example :
    (o : Outcome) × (c' : Checkpoints) × (w' : World ℕ) × ((step_engine rt {S = ℕ}).invoke deps
        (recursion_limit deps)
        "incident-1"
        (start initial_state)
        no_threads
        world
      ≡ (o, c', w'))
    × Run rt deps (recursion_limit deps) gather_context none initial_state world o w'
    × ((step_engine rt {S = ℕ}).saved c' "incident-1" ≡ place_of o)
invoke_start-ends_example =
    invoke_start-ends rt (step_engine rt {S = ℕ}) (step_engine-IsEngine rt {S = ℕ}) deps
      "incident-1" no_threads world refl

abbrev one_thread : Checkpoints
one_thread t = some (some (evaluate_policy, at_gate))

invoke_resume-ends_example :
    (o : Outcome) × (c' : Checkpoints) × (w' : World ℕ) × ((step_engine rt {S = ℕ}).invoke deps
        (recursion_limit deps)
        "incident-1"
        (resume approval)
        one_thread
        world
      ≡ (o, c', w'))
    × Run rt deps (recursion_limit deps) evaluate_policy (some approval) at_gate world o w'
    × ((step_engine rt {S = ℕ}).saved c' "incident-1" ≡ place_of o)
invoke_resume-ends_example =
    invoke_resume-ends rt (step_engine rt {S = ℕ}) (step_engine-IsEngine rt {S = ℕ}) deps
      "incident-1" approval at_gate one_thread world refl

-- The run that asks for approval.
asks :
    Run rt deps 1 evaluate_policy none at_gate world
      (paused evaluate_policy at_gate (approval_request rt deps bad_deploy))
      world
asks =
    pauses (approval_request rt deps bad_deploy)
      ((evaluate_policy-pauses rt deps bad_deploy world).0 refl)

Run-IsSound_example :
    IsSound rt deps (paused evaluate_policy at_gate (approval_request rt deps bad_deploy))
Run-IsSound_example =
    Run-IsSound rt deps 1 evaluate_policy at_gate world world
      (paused evaluate_policy at_gate (approval_request rt deps bad_deploy)) asks

-- A worker that is restarted without an answer: the gate's visit, and what it leaves.
abbrev at_restart : GraphState
at_restart = record initial_state { diagnosis = some stuck_worker }

abbrev update_of : NodeResult → Update
update_of (returned u) = u
update_of _ = no_update

abbrev restarted : NodeResult × World ℕ
restarted = Gate.evaluate_policy rt deps (some stuck_worker) none world

abbrev after_restart : GraphState
after_restart = merge at_restart (update_of restarted.0)

restart_visit :
    Gate.evaluate_policy rt deps (some stuck_worker) none world
    ≡ (returned (update_of restarted.0), restarted.1)
unfolding Gate.evaluate_policy evaluate
restart_visit = refl

restarts :
    Run rt deps 2 evaluate_policy none at_restart world
      (finished (merge after_restart (Gate.decide rt deps after_restart)))
      restarted.1
restarts =
    moves decide (update_of restarted.0) restart_visit refl
      (ends (Gate.decide rt deps after_restart) refl refl)

abbrev restart_row : RemediationExecution
restart_row =
    execution_row rt.sha256
      (record {
        thread_id = "incident-1";
        action_type = "restart_service";
        target = "checkout-api";
        params = end;
      })
      (Remediation.restart_service "checkout-api") 100060

restart_recorded : In restart_row restarted.1.executions
unfolding Gate.evaluate_policy evaluate execute_idempotently
restart_recorded = inl refl

Run-IsAlone_example : In restart_row world.executions ⊎ IsAlone restart_row
Run-IsAlone_example =
    Run-IsAlone rt deps 2 evaluate_policy at_restart world restarted.1
      (finished (merge after_restart (Gate.decide rt deps after_restart))) restart_row restarts
      restart_recorded

abbrev rolled_back : NodeResult × World ℕ
rolled_back = Gate.evaluate_policy rt deps (some bad_deploy) (some approval) world

abbrev after_rollback : GraphState
after_rollback = merge at_gate (update_of rolled_back.0)

rollback_visit :
    Gate.evaluate_policy rt deps (some bad_deploy) (some approval) world
    ≡ (returned (update_of rolled_back.0), rolled_back.1)
unfolding Gate.evaluate_policy evaluate
rollback_visit = refl

rolls_back :
    Run rt deps 2 evaluate_policy
      (some approval)
      at_gate
      world
      (finished (merge after_rollback (Gate.decide rt deps after_rollback)))
      rolled_back.1
rolls_back =
    moves decide (update_of rolled_back.0) rollback_visit refl
      (ends (Gate.decide rt deps after_rollback) refl refl)

resumed-Permitted_example :
    Permitted rt deps bad_deploy.recommended_action
      (Authorised rt deps bad_deploy (some approval))
      world.executions
      rolled_back.1.executions
resumed-Permitted_example =
    resumed-Permitted rt deps 2 at_gate bad_deploy approval world rolled_back.1
      (finished (merge after_rollback (Gate.decide rt deps after_rollback))) refl rolls_back
