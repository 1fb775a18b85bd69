-- ===== src/Eval/CommandLine.antt =====
-- `main` of src/opspilot/eval/__main__.py: an evaluation from the command line. The arguments are parsed
-- by argparse; what is printed is a list with a text for each `print`. The provider's key and its
-- client make the chat function.
pub mod Baselines
use opspilot_sre_incident_re.Prelude.{
  ℕ, String, Bool, not, Option, none, some, List, [], ◌∷◌, ◌++◌, str_eq, if◌then◌else◌, concat,
  split, Result, ok, err,
}
use opspilot_sre_incident_re.Agent.Client.{ChatFn}
use opspilot_sre_incident_re.Agent.Client.Anthropic.{lazy_chat_fn}
use opspilot_sre_incident_re.Agent.State.{World}
use opspilot_sre_incident_re.Eval.{compare_runs}
use opspilot_sre_incident_re.Eval.Aggregate.{EvalRun}
use opspilot_sre_incident_re.Eval.Runner.{EvalApp, run_eval}
use opspilot_sre_incident_re.Eval.Scorecard.{format_scorecard, format_regression_report}
use opspilot_sre_incident_re.Eval.Storage.{RunsDir, RunCodec, save_run, load_run}

-- The parsed arguments; an option that was not given is none.
pub record CommandLine : Type 0 where
  pub scenarios : Option String
  pub label : String
  pub no_judge : Bool
  pub compare_to : Option String
  pub no_memory : Bool

-- The default threshold of `compare_runs`, 0.05, in ten-thousandths.
abbrev pub default_threshold : ℕ
default_threshold = 500

-- An option that was given an empty text counts as not given.
abbrev pub given : Option String → Option String
given none = none
given (some s) = if str_eq s "" then none else some s

-- `args.scenarios.split(",") if args.scenarios else None`
abbrev pub scenario_keys : Option String → Option (List String)
scenario_keys none = none
scenario_keys (some s) = some (split b',' s)

-- What the command left behind: how it ended, what it printed, and the directory of runs.
pub record Done : Type 0 where
  pub result : Result {0, 0} String Unit
  pub printed : List String
  pub runs_dir : RunsDir

abbrev pub saved_line : EvalRun → String
saved_line run = concat ("\nSaved to eval_runs/" ∷ run.run_label ∷ ".json" ∷ [])

module _ (codec : RunCodec) where
  -- The report on a baseline that was read, behind what was printed before.
  abbrev pub with_report : EvalRun → List String → RunsDir → Result String EvalRun → Done
  with_report run printed runs_dir (err e) = record {
    result = err e;
    printed = printed;
    runs_dir = runs_dir;
  }
  with_report run printed runs_dir (ok baseline) = record {
    result = ok tt;
    printed =
        printed
        ++ ("" ∷ format_regression_report (compare_runs default_threshold baseline run) ∷ []);
    runs_dir = runs_dir;
  }

  abbrev pub compared : EvalRun → List String → RunsDir → Option String → Done
  compared run printed runs_dir none = record {
    result = ok tt;
    printed = printed;
    runs_dir = runs_dir;
  }
  compared run printed runs_dir (some label) =
      with_report run printed runs_dir (load_run codec label runs_dir)

  -- Behind the evaluation: the scorecard is printed, the run saved, and only then the baseline read.
  abbrev pub finish : ℕ → CommandLine → RunsDir → Result String EvalRun → Done
  finish now args runs_dir (err e) = record { result = err e; printed = []; runs_dir = runs_dir }
  finish now args runs_dir (ok run) =
      compared run (format_scorecard run ∷ saved_line run ∷ []) (save_run codec now run runs_dir)
        (given args.compare_to)

module _ {S C : Type 0} (app : EvalApp S C) (api_key : String) (client : ChatFn S) where
  -- The evaluation that the arguments ask for.
  abbrev pub configured : CommandLine → EvalApp S C
  configured args =
      let chat_fn : ChatFn S = lazy_chat_fn api_key client in
      record app {
        agent_chat_fn = chat_fn;
        judge_chat_fn = if args.no_judge then none else some chat_fn;
        max_steps = none;
        max_cost_usd = none;
        memory_enabled = not args.no_memory;
      }

module _ {S C : Type 0} (app : EvalApp S C) (api_key : String) (client : ChatFn S)
    (codec : RunCodec) where
  -- `main`; a run is saved at the time `now`.
  unfoldable pub main : ℕ → CommandLine → RunsDir → C → World S → Done × C × World S
  unfolding run_eval save_run load_run format_scorecard format_regression_report compare_runs
  main now args runs_dir c w =
      let (result, c', w') =
        run_eval (configured app api_key client args) (scenario_keys (given args.scenarios))
          args.label c w in
      (finish codec now args runs_dir result, c', w')
