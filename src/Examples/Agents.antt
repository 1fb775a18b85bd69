-- ===== src/Examples/Agents.antt =====
-- The properties of the nodes, the tools and the gate of src/opspilot/agent, applied to the example.
use opspilot_sre_incident_re.Prelude.{
  ℕ, ◌≡◌, ◌↔◌, ◌⊎◌, ◌≤◌, refl, true, false, none, some, List, [], ◌∷◌, codes, All, In,
}
use opspilot_sre_incident_re.Json.{end, field, num, text}
use opspilot_sre_incident_re.Agent.Policy.{ProposedAction, evaluate}
use opspilot_sre_incident_re.Agent.Policy.Gate.{class_of, evaluate-class_of}
use opspilot_sre_incident_re.Agent.Client.{ChatRequest, call_with_retries}
use opspilot_sre_incident_re.Agent.Client.Retries.{Ended, call_with_retries-Ended}
use opspilot_sre_incident_re.Agent.Idempotency.{Action, existing, idempotency_key}
use opspilot_sre_incident_re.Agent.Idempotency.Once.{
  Call, runs, log_of, serve, recorded, runs-le-one, replies-recorded,
}
use opspilot_sre_incident_re.Agent.Idempotency.Race
use opspilot_sre_incident_re.Agent.Idempotency.Race.{play, both_enter, overlap_runs_twice}
use opspilot_sre_incident_re.Agent.Tools.{ToolContext, metric_rows, passes}
use opspilot_sre_incident_re.Agent.Tools.Scope.{IsReader, InWindow, metric_rows_iff}
use opspilot_sre_incident_re.Agent.Nodes.Gather.{Block, interrupted, process_blocks}
use opspilot_sre_incident_re.Agent.Nodes.Gate.{evaluate_policy, approval_request}
use opspilot_sre_incident_re.Agent.Nodes.Ground.{looks_grounded}
use opspilot_sre_incident_re.Agent.Nodes.Grounding.{Occurs, IsLong, looks_grounded_iff}
use opspilot_sre_incident_re.Agent.Nodes.Evidence.{
  AllRows, last_or, submissions, process_blocks-rows, process_blocks-last_or,
}
use opspilot_sre_incident_re.Agent.Nodes.Approval.{
  needs_approval, Authorised, Permitted, evaluate_policy-Permitted, evaluate_policy-pauses,
}
use opspilot_sre_incident_re.Agent.Nodes.Replay.{replayed, evaluate_policy-again}
use opspilot_sre_incident_re.Examples.{
  outage, point, tables, identity_reader, bad_deploy, stuck_worker, rt, scripted, deps, world,
  approval,
}

evaluate_policy-Permitted_example :
    Permitted rt deps bad_deploy.recommended_action
      (Authorised rt deps bad_deploy (some approval))
      world.executions
      (evaluate_policy rt deps (some bad_deploy) (some approval) world).1.executions
evaluate_policy-Permitted_example =
    evaluate_policy-Permitted rt deps bad_deploy (some approval) world

evaluate_policy-pauses_example : (needs_approval bad_deploy.recommended_action ≡ true) ↔ (
    evaluate_policy rt deps (some bad_deploy) none world
    ≡ (interrupted (approval_request rt deps bad_deploy), world))
evaluate_policy-pauses_example = evaluate_policy-pauses rt deps bad_deploy world

evaluate_policy-again_example :
    evaluate_policy rt deps
      (some stuck_worker)
      none
      (evaluate_policy rt deps (some stuck_worker) none world).1
    ≡ (
      replayed (evaluate_policy rt deps (some stuck_worker) none world).0,
      (evaluate_policy rt deps (some stuck_worker) none world).1,
    )
evaluate_policy-again_example = evaluate_policy-again rt deps (some stuck_worker) none world

abbrev wipe : ProposedAction
wipe = record { action_type = "delete_data"; target = "checkout-api"; params = end }

evaluate-class_of_example : evaluate wipe ≡ class_of "delete_data"
evaluate-class_of_example = evaluate-class_of wipe

abbrev request : ChatRequest
request = record { messages = []; tools = []; system = "" }

call_with_retries-Ended_example :
    Ended scripted 2 1 request 0 0 (call_with_retries scripted 2 1 request 0)
call_with_retries-Ended_example = call_with_retries-Ended scripted 2 1 request 0

abbrev restart : Action
restart = record {
  thread_id = "incident-1";
  action_type = "restart_service";
  target = "checkout-api";
  params = end;
}

-- An executor that counts its runs in the world.
abbrev restart_call : Call ℕ
restart_call = record { action = restart; executor = λ w. (field "run" (num w) end, w); now = 7 }

runs-le-one_example :
    runs
      (idempotency_key rt.sha256 restart)
      (log_of rt.sha256 (restart_call ∷ restart_call ∷ []) [] ([], 0))
    ≤ 1
runs-le-one_example =
    runs-le-one rt.sha256 (idempotency_key rt.sha256 restart) (restart_call ∷ restart_call ∷ []) []
      0

replies-recorded_example :
    All
      (λ r.
        recorded (existing r.key (serve rt.sha256 (restart_call ∷ restart_call ∷ []) [] 0).1)
        ≡ some r.result)
      (serve rt.sha256 (restart_call ∷ restart_call ∷ []) [] 0).0
replies-recorded_example = replies-recorded rt.sha256 (restart_call ∷ restart_call ∷ []) [] 0

nothing_there : existing (idempotency_key rt.sha256 restart) [] ≡ none
unfolding existing
nothing_there = refl

overlap_runs_twice_example :
    let end' =
      play rt.sha256 restart end 7
        (true ∷ false ∷ true ∷ false ∷ true ∷ false ∷ [])
        (both_enter rt.sha256 restart end 7 []) in
    (end'.runs ≡ 2) × (end'.first ≡ Race.returned end false) × (end'.second ≡ Race.conflict)
overlap_runs_twice_example = overlap_runs_twice rt.sha256 restart end 7 [] nothing_there

identity_reader-IsReader : IsReader identity_reader
identity_reader-IsReader = record {
  metrics_keep = λ r rows. (λ h. h, λ h. h);
  logs_keep = λ r rows. (λ h. h, λ h. h);
}

abbrev ctx : ToolContext
ctx = record { session = tables; scenario = outage }

metric_rows_iff_example : In point (metric_rows identity_reader ctx none 60) ↔ (
    (point.scenario_id ≡ 1)
    × InWindow outage 60 point.timestamp
    × (passes none point.metric_name ≡ true)
    × In point tables.metric_points)
metric_rows_iff_example = metric_rows_iff identity_reader identity_reader-IsReader ctx none 60 point

looks_grounded_iff_example :
    (looks_grounded "metrics:error_rate" (codes "error_rate 180") ≡ true) ↔ (
      (¬ ((t : List ℕ) × IsLong "metrics:error_rate" t))
      ⊎ ((t : List ℕ) × IsLong "metrics:error_rate" t × Occurs t (codes "error_rate 180")))
looks_grounded_iff_example = looks_grounded_iff "metrics:error_rate" (codes "error_rate 180")

abbrev blocks : List Block
blocks =
    record { id = "t1"; name = "get_metrics"; input = end }
    ∷ record { id = "t2"; name = "submit_diagnosis"; input = field "diagnosis" (text "pool") end }
    ∷ []

process_blocks-rows_example : AllRows 1 blocks (process_blocks rt 1 ctx blocks none).1
process_blocks-rows_example = process_blocks-rows rt ctx 1 blocks none

process_blocks-last_or_example :
    (process_blocks rt 1 ctx blocks none).2 ≡ last_or none (submissions rt blocks)
process_blocks-last_or_example = process_blocks-last_or rt ctx 1 blocks none
