-- ===== src/Seed/PaymentsThird.antt =====
-- Scenarios of src/opspilot/seed/scenarios.py for the payments service.
use opspilot_sre_incident_re.Prelude.{[], ◌∷◌}
use opspilot_sre_incident_re.Seed.Spec.{ScenarioSpec, utc, ramp}

abbrev pub payments_legitimate_load_scale : ScenarioSpec
payments_legitimate_load_scale = record {
  key = "payments-legitimate-load-scale";
  service_name = "payments-api";
  service_description = "Authorizes and captures customer payments against the payments database.";
  title = "payments-api latency creeping up under sustained, genuine load growth";
  description =
      "payments-api latency has crept up steadily over three days of sustained above-baseline traffic, with error rate flat and all dependencies healthy.";
  injected_cause =
      "Sustained, genuine growth in request volume (not a spike, a multi-day trend) is gradually outpacing payments-api's current capacity.";
  incident_started_at = utc 2026 3 5 9 0 0;
  ground_truth = record {
    expected_evidence =
        ("metrics:payments-api:latency_ms" ∷ "logs:payments-api:sustained request volume"
          ∷ "dependency_status:postgres-payments:healthy" ∷ []);
    expected_diagnosis =
        "Latency has crept up steadily over several days alongside a logged, sustained rise in request volume, with flat error rate and healthy dependencies — a genuine capacity issue from real load growth, not a fault.";
    expected_action = "scale_service";
    expected_policy_verdict = "EXECUTE";
    notes = "";
  };
  deployments = [];
  metric_series =
      (record {
        metric_name = "latency_ms";
        start = utc 2026 3 2 9 0 0;
        step_minutes = 1440;
        values = ramp 110000 480000 4;
      }
        ∷ record {
          metric_name = "error_rate";
          start = utc 2026 3 2 9 0 0;
          step_minutes = 1440;
          values = (400 ∷ 400 ∷ 500 ∷ 400 ∷ []);
        }
        ∷ []);
  logs =
      (record {
        timestamp = utc 2026 3 4 9 0 0;
        level = "info";
        message = "sustained request volume 40% above baseline for 3 consecutive days";
      }
        ∷ []);
  dependency_statuses =
      (record {
        dependency_name = "postgres-payments";
        status = "healthy";
        checked_at = utc 2026 3 5 9 0 0;
      }
        ∷ []);
  runbooks =
      (record {
        symptom_keyword = "latency";
        content =
            "Symptom: latency creeping up over days, not minutes. Check request-volume logs for a sustained trend. If load is genuinely and durably elevated, scale out rather than treating it as a one-off incident.";
      }
        ∷ []);
}
