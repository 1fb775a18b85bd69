-- ===== src/Seed/CheckoutSecond.antt =====
-- Scenarios of src/opspilot/seed/scenarios.py for the checkout service.
use opspilot_sre_incident_re.Prelude.{[], ◌∷◌}
use opspilot_sre_incident_re.Seed.Spec.{ScenarioSpec, utc, ramp}

abbrev pub checkout_cpu_overload_traffic_spike : ScenarioSpec
checkout_cpu_overload_traffic_spike = record {
  key = "checkout-cpu-overload-traffic-spike";
  service_name = "checkout-api";
  service_description = "Handles cart finalization and payment authorization for web checkout.";
  title = "checkout-api CPU pegged under a genuine traffic spike";
  description =
      "checkout-api CPU utilization climbed to near-saturation alongside a real, sustained rise in request volume — no deployment, dependencies healthy.";
  injected_cause =
      "A genuine, sustained traffic spike (a promotional push) is driving CPU utilization toward saturation. checkout-api's current capacity is undersized for this load.";
  incident_started_at = utc 2026 2 14 12 0 0;
  ground_truth = record {
    expected_evidence =
        ("metrics:checkout-api:cpu_pct" ∷ "logs:checkout-api:high request volume"
          ∷ "deployment:checkout-api:none_recent" ∷ "dependency_status:postgres-checkout:healthy"
          ∷ []);
    expected_diagnosis =
        "CPU utilization is elevated with no deployment, healthy dependencies, and log evidence of a genuine, sustained increase in request volume — this is a capacity issue under real load, not a code or infrastructure fault.";
    expected_action = "scale_service";
    expected_policy_verdict = "EXECUTE";
    notes =
        "Distinguishing this from a leak/bug: request volume itself is elevated, not just resource usage.";
  };
  deployments = [];
  metric_series =
      (record {
        metric_name = "cpu_pct";
        start = utc 2026 2 14 11 45 0;
        step_minutes = 5;
        values = ramp 38000 96000 6;
      }
        ∷ record {
          metric_name = "error_rate";
          start = utc 2026 2 14 11 45 0;
          step_minutes = 5;
          values = (400 ∷ 500 ∷ 1200 ∷ 2800 ∷ 3500 ∷ 3900 ∷ []);
        }
        ∷ []);
  logs =
      (record {
        timestamp = utc 2026 2 14 11 58 0;
        level = "warn";
        message = "high request volume: 3200 req/min (baseline 800 req/min)";
      }
        ∷ record {
          timestamp = utc 2026 2 14 12 5 0;
          level = "warn";
          message = "high request volume: 3550 req/min (baseline 800 req/min)";
        }
        ∷ []);
  dependency_statuses =
      (record {
        dependency_name = "postgres-checkout";
        status = "healthy";
        checked_at = utc 2026 2 14 12 3 0;
      }
        ∷ record {
          dependency_name = "payments-gateway";
          status = "healthy";
          checked_at = utc 2026 2 14 12 3 0;
        }
        ∷ []);
  runbooks =
      (record {
        symptom_keyword = "high cpu";
        content =
            "Symptom: elevated CPU with no deploy and healthy dependencies. Check request volume in the logs. If volume is genuinely elevated, scale out rather than restart or roll back — restarting won't add capacity.";
      }
        ∷ []);
}

abbrev pub checkout_red_herring_correlation : ScenarioSpec
checkout_red_herring_correlation = record {
  key = "checkout-red-herring-correlation";
  service_name = "checkout-api";
  service_description = "Handles cart finalization and payment authorization for web checkout.";
  title = "checkout-api CPU rises right after a feature-flag rollout, not a load event";
  description =
      "checkout-api CPU utilization rose right after the 'checkout-flow-v2' feature flag was enabled at 100% rollout — no deployment, no unusual request volume.";
  injected_cause =
      "The 'checkout-flow-v2' feature flag enables a new, computationally inefficient code path. CPU usage rises because of the flag, not because of increased traffic.";
  incident_started_at = utc 2026 2 21 9 58 0;
  ground_truth = record {
    expected_evidence =
        ("logs:checkout-api:checkout-flow-v2" ∷ "metrics:checkout-api:cpu_pct"
          ∷ "logs:checkout-api:high request volume" ∷ []);
    expected_diagnosis =
        "CPU utilization rose immediately after the 'checkout-flow-v2' feature flag reached 100% rollout, with no corresponding rise in request volume — ruling out a genuine traffic-driven capacity issue. The flag's new code path is the cause.";
    expected_action = "toggle_feature_flag";
    expected_policy_verdict = "REQUIRE_APPROVAL";
    notes =
        "Deliberately similar surface symptom to checkout-cpu-overload-traffic-spike — the differentiator is the absence of an elevated-request-volume log line, and the presence of a flag-rollout log line instead.";
  };
  deployments = [];
  metric_series =
      (record {
        metric_name = "cpu_pct";
        start = utc 2026 2 21 9 48 0;
        step_minutes = 5;
        values = (35000 ∷ 36200 ∷ 34800 ∷ 82500 ∷ 88100 ∷ 89600 ∷ []);
      }
        ∷ record {
          metric_name = "error_rate";
          start = utc 2026 2 21 9 48 0;
          step_minutes = 5;
          values = (400 ∷ 400 ∷ 500 ∷ 600 ∷ 700 ∷ 600 ∷ []);
        }
        ∷ []);
  logs =
      (record {
        timestamp = utc 2026 2 21 9 58 0;
        level = "info";
        message = "Feature flag 'checkout-flow-v2' enabled at 100% rollout";
      }
        ∷ record {
          timestamp = utc 2026 2 21 10 3 0;
          level = "warn";
          message = "request volume: 810 req/min (baseline 800 req/min)";
        }
        ∷ []);
  dependency_statuses =
      (record {
        dependency_name = "postgres-checkout";
        status = "healthy";
        checked_at = utc 2026 2 21 10 0 0;
      }
        ∷ []);
  runbooks =
      (record {
        symptom_keyword = "cpu";
        content =
            "Symptom: elevated CPU. Before assuming a capacity/traffic issue, check for a recent feature-flag rollout in the logs and compare request volume against baseline. If volume is normal but a flag just rolled out, disabling the flag is the likely fix, not scaling.";
      }
        ∷ []);
}
