-- ===== src/Seed/PaymentsFirst.antt =====
-- Scenarios of src/opspilot/seed/scenarios.py for the payments service.
use opspilot_sre_incident_re.Prelude.{[], ◌∷◌}
use opspilot_sre_incident_re.Seed.Spec.{ScenarioSpec, utc, ramp}

abbrev pub payments_db_latency : ScenarioSpec
payments_db_latency = record {
  key = "payments-db-latency";
  service_name = "payments-api";
  service_description = "Authorizes and captures customer payments against the payments database.";
  title = "Elevated payments-api latency, no recent deploy";
  description =
      "payments-api p95 latency rose steadily over 30 minutes with no corresponding rise in error rate and no deployment in the preceding 5 days.";
  injected_cause =
      "The payments Postgres instance is under sustained high CPU load from an unrelated batch reporting job, degrading query latency for payments-api.";
  incident_started_at = utc 2026 1 20 9 15 0;
  ground_truth = record {
    expected_evidence =
        ("metrics:payments-api:latency_ms" ∷ "deployment:payments-api:none_recent"
          ∷ "dependency_status:postgres-payments:degraded" ∷ []);
    expected_diagnosis =
        "Elevated payments-api latency correlates with high CPU utilization on the payments database, with no recent deployment on payments-api itself. Root cause is infrastructure-level and outside the agent's remediation authority.";
    expected_action = "escalate";
    expected_policy_verdict = "ESCALATE";
    notes =
        "No remediation tool in the registry addresses database CPU contention — correct behavior is to escalate, not guess.";
  };
  deployments =
      (record {
        version = "v4.2";
        deployed_at = utc 2026 1 15 10 0 0;
        diff_summary = "Add idempotency-key support to capture endpoint.";
      }
        ∷ []);
  metric_series =
      (record {
        metric_name = "latency_ms";
        start = utc 2026 1 20 8 45 0;
        step_minutes = 5;
        values = ramp 90000 640000 6;
      }
        ∷ record {
          metric_name = "error_rate";
          start = utc 2026 1 20 8 45 0;
          step_minutes = 5;
          values = (300 ∷ 300 ∷ 400 ∷ 300 ∷ 400 ∷ 300 ∷ []);
        }
        ∷ []);
  logs =
      (record {
        timestamp = utc 2026 1 20 9 0 0;
        level = "warn";
        message = "Slow query detected: capture_payment (2.1s)";
      }
        ∷ record {
          timestamp = utc 2026 1 20 9 10 0;
          level = "warn";
          message = "Slow query detected: capture_payment (3.4s)";
        }
        ∷ []);
  dependency_statuses =
      (record {
        dependency_name = "postgres-payments";
        status = "degraded";
        checked_at = utc 2026 1 20 9 12 0;
      }
        ∷ []);
  runbooks =
      (record {
        symptom_keyword = "slow query";
        content =
            "Symptom: rising latency with flat error rate and no recent deploy. Check dependency_status for the backing database before assuming an application-level cause. If the database itself is degraded, this is outside checkout/payments service remediation scope — escalate to the infrastructure on-call.";
      }
        ∷ []);
}

abbrev pub payments_connection_leak : ScenarioSpec
payments_connection_leak = record {
  key = "payments-connection-leak";
  service_name = "payments-api";
  service_description = "Authorizes and captures customer payments against the payments database.";
  title = "Gradual payments-api connection exhaustion, no recent deploy";
  description =
      "payments-api error rate climbed slowly over roughly an hour, with no deployment in the preceding six days and the database dependency reporting healthy throughout.";
  injected_cause =
      "A slow connection leak in payments-api's capture-retry path gradually exhausts the DB connection pool over several hours. Restarting the process releases the leaked connections; the leak itself needs a code fix later.";
  incident_started_at = utc 2026 2 5 22 0 0;
  ground_truth = record {
    expected_evidence =
        ("deployment:payments-api:none_recent" ∷ "metrics:payments-api:error_rate"
          ∷ "logs:payments-api:connection pool exhausted"
          ∷ "dependency_status:postgres-payments:healthy" ∷ []);
    expected_diagnosis =
        "payments-api's connection pool is exhausted with no correlating deployment and a healthy database — consistent with a slow connection leak rather than a bad deploy or infrastructure fault. Restarting the service is the standard immediate mitigation.";
    expected_action = "restart_service";
    expected_policy_verdict = "EXECUTE";
    notes =
        "The differentiator from checkout-deploy-outage: identical symptom, but no deploy to roll back to.";
  };
  deployments =
      (record {
        version = "v4.3";
        deployed_at = utc 2026 1 30 9 0 0;
        diff_summary = "Add retry logic to payment capture on transient gateway errors.";
      }
        ∷ []);
  metric_series =
      (record {
        metric_name = "error_rate";
        start = utc 2026 2 5 21 0 0;
        step_minutes = 10;
        values = (400 ∷ 500 ∷ 600 ∷ 1800 ∷ 3900 ∷ 6200 ∷ 8500 ∷ []);
      }
        ∷ record {
          metric_name = "latency_ms";
          start = utc 2026 2 5 21 0 0;
          step_minutes = 10;
          values = ramp 95000 520000 7;
        }
        ∷ []);
  logs =
      (record {
        timestamp = utc 2026 2 5 21 40 0;
        level = "warn";
        message = "connection pool utilization at 92% (45/50)";
      }
        ∷ record {
          timestamp = utc 2026 2 5 21 55 0;
          level = "warn";
          message = "connection pool utilization at 98% (49/50)";
        }
        ∷ record {
          timestamp = utc 2026 2 5 22 0 0;
          level = "error";
          message = "psycopg.OperationalError: connection pool exhausted";
        }
        ∷ []);
  dependency_statuses =
      (record {
        dependency_name = "postgres-payments";
        status = "healthy";
        checked_at = utc 2026 2 5 22 0 0;
      }
        ∷ []);
  runbooks =
      (record {
        symptom_keyword = "connection pool";
        content =
            "Symptom: connection pool exhaustion. If it correlates with a recent deploy, roll back. If there's no recent deploy and the database itself is healthy, this is most likely a slow connection leak — restarting the service is the standard immediate mitigation while a permanent fix is scheduled.";
      }
        ∷ []);
}
