-- ===== src/Examples/Services.antt =====
-- The properties of the memory, the comparison of runs, the rate limit and the seeding, applied to the example.
use opspilot_sre_incident_re.Prelude.{
  ℕ, Option, List, String, ◌≡◌, ◌↔◌, ◌≤◌, ◌<◌, refl, inl, arith, none, some, [], ◌∷◌, In, length,
}
use opspilot_sre_incident_re.Config.{default_settings}
use opspilot_sre_incident_re.Eval.{compare_runs}
use opspilot_sre_incident_re.Eval.Aggregate.{AggregateScores, EvalRun}
use opspilot_sre_incident_re.Eval.Comparison.{mirrored, compare_runs-mirrored}
use opspilot_sre_incident_re.Memory.{retrieve_relevant_memory, write_confirmed_memory}
use opspilot_sre_incident_re.Memory.Writing.{Outcome, write_confirmed_memory-Outcome}
use opspilot_sre_incident_re.Memory.Scoping.{IsMemoryOrder, retrieve_relevant_memory-scoped}
use opspilot_sre_incident_re.Memory.Consolidation.{
  occurrences, survivors, groups_of, consolidate-occurrences,
}
use opspilot_sre_incident_re.Auth.{RequestLog, allowed, require_api_key}
use opspilot_sre_incident_re.Auth.Window.{IsLog}
use opspilot_sre_incident_re.Auth.Limit.{
  in_window, granted, require_api_key-allowed, granted-in_window,
}
use opspilot_sre_incident_re.Seed.CheckoutFirst.{checkout_deploy_outage}
use opspilot_sre_incident_re.Seed.Generator.{SeedTables, seed_all}
use opspilot_sre_incident_re.Seed.Idempotence.{seed_all-again}
use opspilot_sre_incident_re.Examples.{memory, as_stored, remembered, close}

as_stored-IsMemoryOrder : IsMemoryOrder as_stored
as_stored-IsMemoryOrder = record {
  newest_keeps = λ r rows. (λ h. h, λ h. h);
  relevant_keeps = λ r rows. (λ h. h, λ h. h);
}

surfaced : In remembered (retrieve_relevant_memory as_stored memory 1 3)
unfolding retrieve_relevant_memory
surfaced = inl refl

retrieve_relevant_memory-scoped_example :
    (length (retrieve_relevant_memory as_stored memory 1 3) ≤ 3)
    × (remembered.service_id ≡ 1)
    × In remembered memory.rows
retrieve_relevant_memory-scoped_example =
    retrieve_relevant_memory-scoped as_stored as_stored-IsMemoryOrder memory 1 3 remembered surfaced

consolidate-occurrences_example :
    occurrences (survivors (groups_of memory.rows)) ≡ occurrences memory.rows
consolidate-occurrences_example = consolidate-occurrences memory.rows

write_confirmed_memory-Outcome_example :
    Outcome 600000 memory 9 1 1 close (write_confirmed_memory 600000 memory 9 1 1 close)
write_confirmed_memory-Outcome_example = write_confirmed_memory-Outcome 600000 memory 9 1 1 close

abbrev quiet : RequestLog
quiet key = 5 ∷ 10 ∷ []

quiet-IsLog : IsLog default_settings 10 quiet
quiet-IsLog identity =
    (((ground arith, tt), (tt, tt)), (ground arith, (ground arith, tt)), ground arith)

require_api_key-allowed_example :
    ((require_api_key default_settings 12 (some "wrong") quiet).0 ≡ allowed)
    ↔ (("wrong" ≡ default_settings.api_key) × (in_window 60 12 (quiet "wrong") < 100))
require_api_key-allowed_example =
    require_api_key-allowed default_settings 10 12 "wrong" quiet (ground arith) quiet-IsLog

-- Two requests in the same second, and one later without a key.
abbrev asked : List (ℕ × Option String)
asked =
    (5, some "change-me-to-a-real-secret")
    ∷ (5, some "change-me-to-a-real-secret")
    ∷ (70, none)
    ∷ []

granted-in_window_example : in_window 60 30 (granted default_settings [] asked (λ _. [])) ≤ 100
granted-in_window_example =
    granted-in_window default_settings asked 30 (ground arith, (ground arith, (ground arith, tt)))

abbrev no_rows : SeedTables
no_rows = record {
  services = [];
  scenarios = [];
  deployments = [];
  metric_points = [];
  log_entries = [];
  dependency_statuses = [];
  runbooks = [];
}

seed_all-again_example :
    seed_all (checkout_deploy_outage ∷ []) (seed_all (checkout_deploy_outage ∷ []) no_rows).1
    ≡ (0, (seed_all (checkout_deploy_outage ∷ []) no_rows).1)
seed_all-again_example = seed_all-again (checkout_deploy_outage ∷ []) no_rows

abbrev before_change : AggregateScores
before_change = record {
  scenario_count = 17;
  total_unnecessary_tool_calls = 0;
  total_argument_errors = 0;
  mean_steps_used = 30000;
  total_cost_usd = 0;
  total_input_tokens = 0;
  total_output_tokens = 0;
  mean_latency_seconds = 0;
  completion_rate = 10000;
  policy_verdict_accuracy = 9412;
  recommended_action_exact_match_rate = 8824;
  mean_tool_selection_score = 9000;
  mean_diagnosis_accuracy = none;
  mean_evidence_groundedness = none;
  mean_remediation_quality = none;
  escalation_correctness_rate = none;
}

abbrev after_change : AggregateScores
after_change = record before_change {
  policy_verdict_accuracy = 8235;
  mean_tool_selection_score = 9800;
}

abbrev run_of : String → AggregateScores → EvalRun
run_of label scores = record {
  run_label = label;
  started_at = 0;
  scenario_keys = [];
  scenarios = [];
  aggregate = scores;
}

compare_runs-mirrored_example :
    compare_runs 500 (run_of "after" after_change) (run_of "before" before_change)
    ≡ mirrored (compare_runs 500 (run_of "before" before_change) (run_of "after" after_change))
compare_runs-mirrored_example =
    compare_runs-mirrored 500 (ground arith) (run_of "before" before_change)
      (run_of "after" after_change)
