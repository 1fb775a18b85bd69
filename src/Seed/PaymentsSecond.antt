-- ===== src/Seed/PaymentsSecond.antt =====
-- Scenarios of src/opspilot/seed/scenarios.py for the payments service.
use opspilot_sre_incident_re.Prelude.{[], ◌∷◌}
use opspilot_sre_incident_re.Seed.Spec.{ScenarioSpec, utc}

abbrev pub payments_red_herring_deploy : ScenarioSpec
payments_red_herring_deploy = record {
  key = "payments-red-herring-deploy";
  service_name = "payments-api";
  service_description = "Authorizes and captures customer payments against the payments database.";
  title = "payments-api errors coincide with a deploy, but the deploy is unrelated";
  description =
      "payments-api errors began shortly after a deployment — but the deploy only changed receipt email copy, and the real cause is a degraded fraud-check-api dependency.";
  injected_cause =
      "The fraud-check-api dependency is degraded. Its timeouts are the actual cause of payments-api errors. A deployment happened around the same time by coincidence and only touched unrelated receipt-email copy.";
  incident_started_at = utc 2026 2 19 15 0 0;
  ground_truth = record {
    expected_evidence =
        ("deployment:payments-api:v4.4" ∷ "dependency_status:fraud-check-api:degraded"
          ∷ "logs:payments-api:FraudCheckTimeoutError" ∷ []);
    expected_diagnosis =
        "A deployment (v4.4) happened shortly before the incident, but its diff only touches receipt email copy — unrelated to payment processing. The actual cause is fraud-check-api reporting degraded, which correlates exactly with the FraudCheckTimeoutError log entries. The deploy's timing is coincidental, not causal.";
    expected_action = "escalate";
    expected_policy_verdict = "ESCALATE";
    notes =
        "The whole point of this scenario: a naive investigation would blame the deploy purely on timing. Checking the diff content and the dependency status both point away from the deploy and toward fraud-check-api.";
  };
  deployments =
      (record {
        version = "v4.4";
        deployed_at = utc 2026 2 19 14 55 0;
        diff_summary = "Update receipt email copy for gift-card purchases.";
      }
        ∷ []);
  metric_series =
      (record {
        metric_name = "error_rate";
        start = utc 2026 2 19 14 50 0;
        step_minutes = 5;
        values = (400 ∷ 500 ∷ 14200 ∷ 22800 ∷ 24100 ∷ []);
      }
        ∷ []);
  logs =
      (record {
        timestamp = utc 2026 2 19 14 56 0;
        level = "info";
        message = "payments-api deployment v4.4 rollout complete.";
      }
        ∷ record {
          timestamp = utc 2026 2 19 15 1 0;
          level = "error";
          message = "FraudCheckTimeoutError: no response from fraud-check-api after 15s";
        }
        ∷ record {
          timestamp = utc 2026 2 19 15 5 0;
          level = "error";
          message = "FraudCheckTimeoutError: no response from fraud-check-api after 15s";
        }
        ∷ []);
  dependency_statuses =
      (record {
        dependency_name = "fraud-check-api";
        status = "degraded";
        checked_at = utc 2026 2 19 15 3 0;
      }
        ∷ record {
          dependency_name = "postgres-payments";
          status = "healthy";
          checked_at = utc 2026 2 19 15 3 0;
        }
        ∷ []);
  runbooks =
      (record {
        symptom_keyword = "fraud check";
        content =
            "Symptom: FraudCheckTimeoutError. Don't assume a coincidentally-timed deploy is the cause without reading its diff. Check fraud-check-api's dependency_status — if degraded, escalate to that team regardless of what else deployed recently.";
      }
        ∷ []);
}

abbrev pub payments_ambiguous_symptoms : ScenarioSpec
payments_ambiguous_symptoms = record {
  key = "payments-ambiguous-symptoms";
  service_name = "payments-api";
  service_description = "Authorizes and captures customer payments against the payments database.";
  title = "payments-api errors with no single evidence source pointing to a clear cause";
  description =
      "payments-api error rate is mildly elevated on one endpoint. No deployment, dependencies healthy, and log messages are generic warnings unrelated to payment processing.";
  injected_cause =
      "A combination of minor, individually-inconclusive factors (a slightly slow but healthy dependency, unrelated warning-level log noise) with no single clear root cause identifiable from the available evidence.";
  incident_started_at = utc 2026 2 25 11 0 0;
  ground_truth = record {
    expected_evidence =
        ("metrics:payments-api:error_rate" ∷ "dependency_status:postgres-payments:healthy"
          ∷ "deployment:payments-api:none_recent" ∷ []);
    expected_diagnosis =
        "Error rate is mildly elevated on one endpoint, but there is no deployment, the database dependency is healthy, and the available log messages don't point to a specific cause. The evidence is contradictory/insufficient to confidently name a root cause.";
    expected_action = "escalate";
    expected_policy_verdict = "ESCALATE";
    notes =
        "No dramatic single symptom here on purpose — the correct call is recognizing ambiguity rather than forcing a confident-sounding but unsupported diagnosis.";
  };
  deployments = [];
  metric_series =
      (record {
        metric_name = "error_rate";
        start = utc 2026 2 25 10 45 0;
        step_minutes = 5;
        values = (400 ∷ 500 ∷ 2100 ∷ 2400 ∷ 2200 ∷ []);
      }
        ∷ []);
  logs =
      (record {
        timestamp = utc 2026 2 25 10 50 0;
        level = "warn";
        message = "cache miss rate above baseline for /health";
      }
        ∷ record {
          timestamp = utc 2026 2 25 11 2 0;
          level = "warn";
          message = "scheduled maintenance window begins in 4 hours";
        }
        ∷ []);
  dependency_statuses =
      (record {
        dependency_name = "postgres-payments";
        status = "healthy";
        checked_at = utc 2026 2 25 11 5 0;
      }
        ∷ []);
  runbooks = [];
}
