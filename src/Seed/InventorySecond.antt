-- ===== src/Seed/InventorySecond.antt =====
-- Scenarios of src/opspilot/seed/scenarios.py for the inventory service.
use opspilot_sre_incident_re.Prelude.{[], ◌∷◌}
use opspilot_sre_incident_re.Seed.Spec.{ScenarioSpec, utc, ramp}

abbrev pub inventory_memory_leak : ScenarioSpec
inventory_memory_leak = record {
  key = "inventory-memory-leak";
  service_name = "inventory-api";
  service_description = "Tracks and reserves stock levels across warehouses for the storefront.";
  title = "inventory-api memory climbing steadily, periodic OOM restarts";
  description =
      "inventory-api memory usage has climbed steadily over several hours with periodic out-of-memory restarts, no deployment, dependencies healthy.";
  injected_cause =
      "A slow memory leak in inventory-api's batch reconciliation job causes memory usage to climb until the container is OOM-killed and restarted, repeating on a cycle.";
  incident_started_at = utc 2026 2 17 4 0 0;
  ground_truth = record {
    expected_evidence =
        ("metrics:inventory-api:mem_pct" ∷ "logs:inventory-api:OOMKilled"
          ∷ "deployment:inventory-api:none_recent" ∷ []);
    expected_diagnosis =
        "Memory usage climbs steadily and is periodically reset by OOM kills, with no deployment to explain it — consistent with a slow memory leak. Restarting clears the immediate problem while a permanent fix for the leak is scheduled separately.";
    expected_action = "restart_service";
    expected_policy_verdict = "EXECUTE";
    notes =
        "Differentiates from checkout-cpu-overload: mem_pct is the elevated metric here, not request volume.";
  };
  deployments = [];
  metric_series =
      (record {
        metric_name = "mem_pct";
        start = utc 2026 2 17 2 0 0;
        step_minutes = 30;
        values = ramp 55000 97000 5;
      }
        ∷ record {
          metric_name = "error_rate";
          start = utc 2026 2 17 2 0 0;
          step_minutes = 30;
          values = (400 ∷ 500 ∷ 700 ∷ 2100 ∷ 4600 ∷ []);
        }
        ∷ []);
  logs =
      (record {
        timestamp = utc 2026 2 17 3 55 0;
        level = "error";
        message = "OOMKilled: container exceeded memory limit (512Mi)";
      }
        ∷ record {
          timestamp = utc 2026 2 17 3 56 0;
          level = "info";
          message = "container restarted by orchestrator";
        }
        ∷ []);
  dependency_statuses =
      (record {
        dependency_name = "warehouse-api";
        status = "healthy";
        checked_at = utc 2026 2 17 4 0 0;
      }
        ∷ []);
  runbooks =
      (record {
        symptom_keyword = "memory";
        content =
            "Symptom: memory climbing steadily with periodic OOM restarts and no recent deploy. Typically a slow leak — restart clears it temporarily; file a follow-up to find and fix the leak.";
      }
        ∷ []);
}

abbrev pub inventory_missing_logs : ScenarioSpec
inventory_missing_logs = record {
  key = "inventory-missing-logs";
  service_name = "inventory-api";
  service_description = "Tracks and reserves stock levels across warehouses for the storefront.";
  title = "inventory-api errors with the log forwarder down for the incident window";
  description =
      "inventory-api error rate rose, but the log forwarder was disconnected for most of the incident window, leaving very little log evidence to work from.";
  injected_cause =
      "An unrelated log-forwarder outage means most application logs from the incident window were never captured. The error-rate rise is real, but its cause can't be confirmed from available evidence.";
  incident_started_at = utc 2026 2 23 8 0 0;
  ground_truth = record {
    expected_evidence =
        ("metrics:inventory-api:error_rate" ∷ "logs:inventory-api:log forwarder disconnected" ∷ []);
    expected_diagnosis =
        "Error rate is genuinely elevated, but the log forwarder was disconnected for most of the incident window, leaving insufficient evidence to determine a root cause. Guessing at a specific cause here would not be evidence-grounded.";
    expected_action = "escalate";
    expected_policy_verdict = "ESCALATE";
    notes =
        "The correct behavior is explicitly to admit the evidence is insufficient, not to guess a plausible-sounding cause.";
  };
  deployments = [];
  metric_series =
      (record {
        metric_name = "error_rate";
        start = utc 2026 2 23 7 50 0;
        step_minutes = 5;
        values = (500 ∷ 600 ∷ 8900 ∷ 12400 ∷ 13000 ∷ []);
      }
        ∷ []);
  logs =
      (record {
        timestamp = utc 2026 2 23 8 0 0;
        level = "warn";
        message = "log forwarder disconnected at 08:00, logs unavailable until 08:45";
      }
        ∷ []);
  dependency_statuses =
      (record {
        dependency_name = "warehouse-api";
        status = "healthy";
        checked_at = utc 2026 2 23 8 10 0;
      }
        ∷ []);
  runbooks =
      (record {
        symptom_keyword = "log forwarder";
        content =
            "If the log forwarder was down for the incident window, do not guess a root cause from metrics alone — escalate and wait for logs to backfill or investigate through other means.";
      }
        ∷ []);
}
