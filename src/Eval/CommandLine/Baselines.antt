-- ===== src/Eval/CommandLine/Baselines.antt =====
-- The baseline that `main` of src/opspilot/eval/__main__.py compares a run with.
use opspilot_sre_incident_re.Prelude.{
  ℕ, ◌+◌, ◌≡◌, refl, sym, ap, eq_iff, keep, ◌∙◌, subst, String, true, false, Option, none, some,
  List, [], ◌∷◌, leb, str_eq, concat, join, Result, ok, err, arith,
}
use opspilot_sre_incident_re.Agent.Client.{ChatFn}
use opspilot_sre_incident_re.Agent.State.{World}
use opspilot_sre_incident_re.Seed.Spec.{ScenarioSpec}
use opspilot_sre_incident_re.Seed.{all_scenarios}
use opspilot_sre_incident_re.Eval.{
  Metric, higher_is_better, RegressionReport, add_metric, compare_metrics, compare_runs,
}
use opspilot_sre_incident_re.Eval.Aggregate.{ScenarioEvalResult, EvalRun}
use opspilot_sre_incident_re.Eval.Runner.{EvalApp, wanted, eval_run, run_selected, run_eval}
use opspilot_sre_incident_re.Eval.Scorecard.{format_scorecard, format_regression_report}
use opspilot_sre_incident_re.Eval.Storage.Reading.{read-write}
use opspilot_sre_incident_re.Eval.Storage.{
  File, files_of, RunsDir, RunCodec, ReadsBack, save_run, load_run,
}
use opspilot_sre_incident_re.Eval.CommandLine.{
  CommandLine, default_threshold, given, scenario_keys, saved_line, finish, configured, main,
}

-- A report on two runs of these labels in which nothing moved.
record IsStill (baseline candidate : String) (report : RegressionReport) : Type 0 where
  from : report.baseline_label ≡ baseline
  towards : report.candidate_label ≡ candidate
  no_regression : report.regressions ≡ []
  no_improvement : report.improvements ≡ []

add_metric-IsStill :
    (name : String) (o : Option ℕ) (b c : String) (report : RegressionReport)
    → IsStill b c report
    → IsStill b c (add_metric default_threshold name o o report)
unfolding add_metric
add_metric-IsStill name none b c report still = still
add_metric-IsStill name (some v) b c report still =
    let level : leb (v + 500) v ≡ false = ground arith in
    rw level (record {
      from = still.from;
      towards = still.towards;
      no_regression = still.no_regression;
      no_improvement = still.no_improvement;
    })

metrics-IsStill :
    (run : EvalRun) (metrics : List Metric)
    → IsStill run.run_label run.run_label (compare_metrics default_threshold run run metrics)
unfolding compare_metrics
metrics-IsStill run [] = record {
  from = refl;
  towards = refl;
  no_regression = refl;
  no_improvement = refl;
}
metrics-IsStill run ((name, value) ∷ metrics) =
    add_metric-IsStill name (value run.aggregate) run.run_label run.run_label _
      (metrics-IsStill run metrics)

-- The text of a report in which nothing moved.
abbrev pub still_text : String → String
still_text label = join "\n" (
    concat ("=== Regression: " ∷ label ∷ " -> " ∷ label ∷ " ===" ∷ [])
    ∷ "No metric moved by more than the threshold."
    ∷ [])

own_report :
    (run : EvalRun)
    → format_regression_report (compare_runs default_threshold run run) ≡ still_text run.run_label
unfolding compare_runs format_regression_report
own_report run =
    let still = metrics-IsStill run higher_is_better in
    rw still.from (rw still.towards (rw still.no_regression (rw still.no_improvement refl)))

load-save :
    (codec : RunCodec) (now : ℕ) (run : EvalRun) (runs_dir : RunsDir)
    → ReadsBack codec run
    → load_run codec run.run_label (save_run codec now run runs_dir) ≡ ok run
unfolding load_run save_run
load-save codec now run runs_dir lawful =
    let file : File = record {
      label = run.run_label;
      mtime = now;
      content = codec.model_dump_json run;
    } in
    let same : str_eq run.run_label run.run_label ≡ true =
      (eq_iff run.run_label run.run_label).1 refl in
    rw (read-write run.run_label file (files_of runs_dir), load_run) (rw same lawful)

module _ {S C : Type 0} (app : EvalApp S C) where
  abbrev IsLabelled : String → Result String EvalRun → Type 0
  IsLabelled label (ok run) = run.run_label ≡ label
  IsLabelled label (err e) = Unit

  eval_run-label :
      (label : String) (specs : List ScenarioSpec)
      (x : Result String (List ScenarioEvalResult) × C × World S)
      → IsLabelled label (eval_run app label specs x).0
  eval_run-label label specs (ok results, c, w) = refl
  eval_run-label label specs (err e, c, w) = tt

  run_selected-label :
      (label : String) (specs : List ScenarioSpec) (c : C) (w : World S)
      → IsLabelled label (run_selected app label specs c w).0
  run_selected-label label [] c w = tt
  run_selected-label label (spec ∷ specs) c w = eval_run-label label (spec ∷ specs) _

  -- A run has the label that it was asked for.
  run_eval-label :
      (keys : Option (List String)) (label : String) (c : C) (w : World S) (run : EvalRun)
      → (run_eval app keys label c w).0 ≡ ok run
      → run.run_label ≡ label
  unfolding run_eval
  run_eval-label keys label c w run e =
      subst (IsLabelled label) e
        (run_selected-label label (keep (wanted app keys) all_scenarios) c w)

module _ {S C : Type 0} (app : EvalApp S C) (api_key : String) (client : ChatFn S)
    (codec : RunCodec) where
  finish-own_label :
      (now : ℕ) (args : CommandLine) (runs_dir : RunsDir) (run : EvalRun)
      → given args.compare_to ≡ some run.run_label
      → ReadsBack codec run
      → finish codec now args runs_dir (ok run) ≡ record {
        result = ok tt;
        printed = format_scorecard run ∷ saved_line run ∷ "" ∷ still_text run.run_label ∷ [];
        runs_dir = save_run codec now run runs_dir;
      }
  finish-own_label now args runs_dir run same lawful =
      rw same (rw (load-save codec now run runs_dir lawful) (rw (own_report run) refl))

  -- Comparing a new run with a saved run of the same label compares it with itself: whatever the
  -- directory held under the label, and whatever the evaluation gave, a run that ends is saved over
  -- it, and the report behind the scorecard says that no metric moved, if the codec reads back what
  -- it writes for the run.
  pub main-own_label :
      (now : ℕ) (args : CommandLine) (runs_dir : RunsDir) (c : C) (w : World S) (run : EvalRun)
      → given args.compare_to ≡ some args.label
      → (run_eval
          (configured app api_key client args)
          (scenario_keys (given args.scenarios))
          args.label
          c
          w).0
        ≡ ok run
      → ReadsBack codec run
      → (main app api_key client codec now args runs_dir c w).0 ≡ record {
        result = ok tt;
        printed = format_scorecard run ∷ saved_line run ∷ "" ∷ still_text args.label ∷ [];
        runs_dir = save_run codec now run runs_dir;
      }
  unfolding main
  main-own_label now args runs_dir c w run same e lawful =
      let named : run.run_label ≡ args.label =
        run_eval-label (configured app api_key client args) (scenario_keys (given args.scenarios))
          args.label c w run e in
      ap (finish codec now args runs_dir) e
      ∙ finish-own_label now args runs_dir run (same ∙ ap some (sym named)) lawful
      ∙ ap
          (λ label. record {
            result = ok tt;
            printed = format_scorecard run ∷ saved_line run ∷ "" ∷ still_text label ∷ [];
            runs_dir = save_run codec now run runs_dir;
          })
          named
