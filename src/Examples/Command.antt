-- ===== src/Examples/Command.antt =====
-- The command line of src/opspilot/eval/__main__.py, applied to the example.
use opspilot_sre_incident_re.Prelude.{
  ℕ, String, ◌≡◌, refl, is_none, true, some, [], ◌∷◌, Result, ok, err,
}
use opspilot_sre_incident_re.Agent.Schemas.{incomplete_step_ceiling}
use opspilot_sre_incident_re.Agent.State.{initial_state}
use opspilot_sre_incident_re.Agent.Graph.{Engine, finished, run_investigation, result_from_state}
use opspilot_sre_incident_re.Eval.Aggregate.{EvalRun}
use opspilot_sre_incident_re.Eval.Runner.{EvalApp, run_scenario, run_specs, run_eval}
use opspilot_sre_incident_re.Eval.Scorecard.{format_scorecard}
use opspilot_sre_incident_re.Eval.Storage.{RunCodec, save_run}
use opspilot_sre_incident_re.Eval.CommandLine.{
  CommandLine, given, scenario_keys, saved_line, configured, main,
}
use opspilot_sre_incident_re.Eval.CommandLine.Baselines.{still_text, main-own_label}
use opspilot_sre_incident_re.Examples.{scripted, world}
use opspilot_sre_incident_re.Examples.StepEngine.{Checkpoints, place_in}
use opspilot_sre_incident_re.Examples.Evaluated.{eval_app, no_threads, empty_run, runs_dir}

-- An engine on which every investigation comes back at its step ceiling.
abbrev brief_engine : Engine ℕ Checkpoints
brief_engine = record {
  invoke = λ deps limit thread input c w.
      (finished (record initial_state { status = some incomplete_step_ceiling }), c, w);
  saved = λ c thread. place_in (c thread);
  unused = λ c thread. is_none (c thread);
}

abbrev brief_app : EvalApp ℕ Checkpoints
brief_app = record eval_app { engine = brief_engine }

abbrev against_itself : CommandLine
against_itself = record {
  scenarios = some "checkout-deploy-outage";
  label = "before";
  no_judge = true;
  compare_to = some "before";
  no_memory = true;
}

abbrev evaluated : Result String EvalRun
evaluated =
    (run_eval (configured brief_app "key" scripted against_itself)
      (scenario_keys (given against_itself.scenarios)) "before" no_threads world).0

abbrev run_in : Result String EvalRun → EvalRun
run_in (ok run) = run
run_in (err e) = empty_run

evaluated-run : evaluated ≡ ok (run_in evaluated)
unfolding run_eval run_specs run_scenario run_investigation result_from_state
evaluated-run = refl

-- A codec that has seen that run.
abbrev one_run : RunCodec
one_run = record {
  model_dump_json = λ run. "{}";
  model_validate_json = λ content. ok (run_in evaluated);
}

main-own_label_example :
    (main brief_app "key" scripted one_run 5 against_itself runs_dir no_threads world).0 ≡ record {
      result = ok tt;
      printed =
          format_scorecard (run_in evaluated)
          ∷ saved_line (run_in evaluated)
          ∷ ""
          ∷ still_text "before"
          ∷ [];
      runs_dir = save_run one_run 5 (run_in evaluated) runs_dir;
    }
main-own_label_example =
    main-own_label brief_app "key" scripted one_run 5 against_itself runs_dir no_threads world
      (run_in evaluated) refl evaluated-run refl
