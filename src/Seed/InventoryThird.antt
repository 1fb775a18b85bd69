-- ===== src/Seed/InventoryThird.antt =====
-- Scenarios of src/opspilot/seed/scenarios.py for the inventory service.
use opspilot_sre_incident_re.Prelude.{[], ◌∷◌}
use opspilot_sre_incident_re.Seed.Spec.{ScenarioSpec, utc}

abbrev pub inventory_bad_flag_rollout : ScenarioSpec
inventory_bad_flag_rollout = record {
  key = "inventory-bad-flag-rollout";
  service_name = "inventory-api";
  service_description = "Tracks and reserves stock levels across warehouses for the storefront.";
  title = "inventory-api miscounts stock after a feature-flag rollout";
  description =
      "inventory-api began reporting negative available-stock counts shortly after the 'new-stock-calc' feature flag was enabled — no deployment, resources normal.";
  injected_cause =
      "The 'new-stock-calc' feature flag changed how reserved stock is subtracted from available stock, introducing a double-subtraction bug that produces negative counts.";
  incident_started_at = utc 2026 3 1 9 0 0;
  ground_truth = record {
    expected_evidence =
        ("logs:inventory-api:new-stock-calc" ∷ "logs:inventory-api:StockMiscalculationError"
          ∷ "deployment:inventory-api:none_recent" ∷ []);
    expected_diagnosis =
        "Negative available-stock counts began immediately after the 'new-stock-calc' feature flag was enabled, with no deployment and normal CPU/memory — the flag's new calculation logic is the cause.";
    expected_action = "toggle_feature_flag";
    expected_policy_verdict = "REQUIRE_APPROVAL";
    notes = "";
  };
  deployments = [];
  metric_series =
      (record {
        metric_name = "error_rate";
        start = utc 2026 3 1 8 50 0;
        step_minutes = 5;
        values = (400 ∷ 500 ∷ 3800 ∷ 5100 ∷ 5400 ∷ []);
      }
        ∷ []);
  logs =
      (record {
        timestamp = utc 2026 3 1 9 0 0;
        level = "info";
        message = "Feature flag 'new-stock-calc' enabled at 100% rollout";
      }
        ∷ record {
          timestamp = utc 2026 3 1 9 4 0;
          level = "error";
          message = "StockMiscalculationError: negative available count detected for sku=WH-3390";
        }
        ∷ []);
  dependency_statuses =
      (record {
        dependency_name = "warehouse-api";
        status = "healthy";
        checked_at = utc 2026 3 1 9 5 0;
      }
        ∷ []);
  runbooks =
      (record {
        symptom_keyword = "miscalculation";
        content =
            "Symptom: StockMiscalculationError. Check for a recent feature-flag rollout before assuming a data or infrastructure problem — disabling the flag is the likely fix.";
      }
        ∷ []);
}

abbrev pub inventory_stuck_worker_process : ScenarioSpec
inventory_stuck_worker_process = record {
  key = "inventory-stuck-worker-process";
  service_name = "inventory-api";
  service_description = "Tracks and reserves stock levels across warehouses for the storefront.";
  title = "inventory-api reconciliation worker deadlocked, backlog growing";
  description =
      "inventory-api's background reconciliation worker stopped making progress, causing timeouts and a growing backlog — CPU and memory both normal, no deployment.";
  injected_cause =
      "The background reconciliation worker deadlocked on a stale lock and stopped making progress. Restarting the process clears the deadlock; CPU/memory are normal because the process is stuck, not overloaded.";
  incident_started_at = utc 2026 3 8 6 0 0;
  ground_truth = record {
    expected_evidence =
        ("logs:inventory-api:LockTimeoutError" ∷ "metrics:inventory-api:cpu_pct"
          ∷ "deployment:inventory-api:none_recent" ∷ []);
    expected_diagnosis =
        "The reconciliation worker has been unresponsive for over ten minutes with a lock held far longer than expected, while CPU and memory remain normal — consistent with a deadlocked process rather than resource exhaustion or a deploy-caused bug. Restarting the service clears the deadlock.";
    expected_action = "restart_service";
    expected_policy_verdict = "EXECUTE";
    notes =
        "Differentiates from inventory-memory-leak: mem_pct/cpu_pct stay normal here, the symptom is a stuck lock, not resource growth.";
  };
  deployments = [];
  metric_series =
      (record {
        metric_name = "cpu_pct";
        start = utc 2026 3 8 5 45 0;
        step_minutes = 5;
        values = (22000 ∷ 21500 ∷ 20800 ∷ 21000 ∷ 20500 ∷ []);
      }
        ∷ record {
          metric_name = "error_rate";
          start = utc 2026 3 8 5 45 0;
          step_minutes = 5;
          values = (400 ∷ 500 ∷ 4200 ∷ 7800 ∷ 9000 ∷ []);
        }
        ∷ []);
  logs =
      (record {
        timestamp = utc 2026 3 8 5 58 0;
        level = "warn";
        message = "worker process unresponsive for 12 minutes";
      }
        ∷ record {
          timestamp = utc 2026 3 8 6 1 0;
          level = "error";
          message = "LockTimeoutError: reconciliation_lock held longer than 600s";
        }
        ∷ []);
  dependency_statuses =
      (record {
        dependency_name = "warehouse-api";
        status = "healthy";
        checked_at = utc 2026 3 8 6 2 0;
      }
        ∷ []);
  runbooks =
      (record {
        symptom_keyword = "deadlock";
        content =
            "Symptom: worker unresponsive, lock held far longer than expected, CPU/memory normal. This is a stuck process, not resource exhaustion — restart clears it.";
      }
        ∷ []);
}
