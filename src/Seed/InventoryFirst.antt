-- ===== src/Seed/InventoryFirst.antt =====
-- Scenarios of src/opspilot/seed/scenarios.py for the inventory service.
use opspilot_sre_incident_re.Prelude.{[], ◌∷◌}
use opspilot_sre_incident_re.Seed.Spec.{ScenarioSpec, utc, ramp}

abbrev pub inventory_stale_cache_deploy : ScenarioSpec
inventory_stale_cache_deploy = record {
  key = "inventory-stale-cache-deploy";
  service_name = "inventory-api";
  service_description = "Tracks and reserves stock levels across warehouses for the storefront.";
  title = "Inventory mismatches following v3.4 cache-layer deploy";
  description =
      "inventory-api began serving incorrect (stale) stock counts and a rising rate of validation errors shortly after deployment v3.4 introduced a new caching layer.";
  injected_cause =
      "Deployment v3.4 added a Redis-backed cache in front of inventory reads. The cache invalidation path has a bug: warehouse stock updates don't reliably evict the cache, so reads serve stale counts.";
  incident_started_at = utc 2026 2 1 10 15 0;
  ground_truth = record {
    expected_evidence =
        ("deployment:inventory-api:v3.4" ∷ "dependency_status:redis-inventory-cache:degraded"
          ∷ "logs:inventory-api:InventoryMismatchError" ∷ []);
    expected_diagnosis =
        "Deployment v3.4 introduced a Redis-backed inventory cache with a broken invalidation path, causing stale stock counts and validation errors. The cache dependency's own degraded status corroborates the timing.";
    expected_action = "rollback_deployment";
    expected_policy_verdict = "REQUIRE_APPROVAL";
    notes =
        "Same shape as checkout-deploy-outage but via a new dependency the deploy itself introduced, not a config change.";
  };
  deployments =
      (record {
        version = "v3.3";
        deployed_at = utc 2026 1 25 11 0 0;
        diff_summary = "Add SKU barcode validation on intake.";
      }
        ∷ record {
          version = "v3.4";
          deployed_at = utc 2026 2 1 10 10 0;
          diff_summary = "Introduce Redis-backed cache layer in front of inventory reads.";
        }
        ∷ []);
  metric_series =
      (record {
        metric_name = "error_rate";
        start = utc 2026 2 1 9 55 0;
        step_minutes = 5;
        values = (300 ∷ 400 ∷ 300 ∷ 6500 ∷ 9800 ∷ 11200 ∷ []);
      }
        ∷ record {
          metric_name = "latency_ms";
          start = utc 2026 2 1 9 55 0;
          step_minutes = 5;
          values = ramp 80000 410000 6;
        }
        ∷ []);
  logs =
      (record {
        timestamp = utc 2026 2 1 10 11 0;
        level = "info";
        message = "inventory-api deployment v3.4 rollout complete.";
      }
        ∷ record {
          timestamp = utc 2026 2 1 10 18 0;
          level = "error";
          message = "InventoryMismatchError: cached count stale by 340 units for sku=WH-2291";
        }
        ∷ record {
          timestamp = utc 2026 2 1 10 24 0;
          level = "error";
          message = "InventoryMismatchError: cached count stale by 112 units for sku=WH-0087";
        }
        ∷ []);
  dependency_statuses =
      (record {
        dependency_name = "redis-inventory-cache";
        status = "degraded";
        checked_at = utc 2026 2 1 10 20 0;
      }
        ∷ record {
          dependency_name = "warehouse-api";
          status = "healthy";
          checked_at = utc 2026 2 1 10 20 0;
        }
        ∷ []);
  runbooks =
      (record {
        symptom_keyword = "stale";
        content =
            "Symptom: stock mismatch or 'stale' errors shortly after a deploy. Check whether the deploy introduced a new cache dependency and whether that dependency's status is degraded. Rollback is standard when a new cache layer's invalidation is broken.";
      }
        ∷ []);
}

abbrev pub inventory_warehouse_api_degraded : ScenarioSpec
inventory_warehouse_api_degraded = record {
  key = "inventory-warehouse-api-degraded";
  service_name = "inventory-api";
  service_description = "Tracks and reserves stock levels across warehouses for the storefront.";
  title = "inventory-api sync failures from a degraded warehouse-api dependency";
  description =
      "inventory-api stock-sync errors rose sharply with no deployment, correlating with warehouse-api reporting degraded.";
  injected_cause =
      "The warehouse-api dependency is degraded (partial/slow responses), causing inventory-api's sync job to fail intermittently.";
  incident_started_at = utc 2026 2 11 13 30 0;
  ground_truth = record {
    expected_evidence =
        ("dependency_status:warehouse-api:degraded" ∷ "logs:inventory-api:WarehouseSyncError"
          ∷ "deployment:inventory-api:none_recent" ∷ []);
    expected_diagnosis =
        "inventory-api sync failures correlate with warehouse-api reporting degraded, with no deployment on inventory-api itself — root cause is the upstream warehouse-api dependency.";
    expected_action = "escalate";
    expected_policy_verdict = "ESCALATE";
    notes = "";
  };
  deployments = [];
  metric_series =
      (record {
        metric_name = "error_rate";
        start = utc 2026 2 11 13 20 0;
        step_minutes = 5;
        values = (500 ∷ 600 ∷ 9400 ∷ 15700 ∷ 17200 ∷ []);
      }
        ∷ []);
  logs =
      (record {
        timestamp = utc 2026 2 11 13 31 0;
        level = "error";
        message = "WarehouseSyncError: partial response from warehouse-api (3 of 8 warehouses)";
      }
        ∷ record {
          timestamp = utc 2026 2 11 13 36 0;
          level = "error";
          message = "WarehouseSyncError: partial response from warehouse-api (2 of 8 warehouses)";
        }
        ∷ []);
  dependency_statuses =
      (record {
        dependency_name = "warehouse-api";
        status = "degraded";
        checked_at = utc 2026 2 11 13 33 0;
      }
        ∷ record {
          dependency_name = "redis-inventory-cache";
          status = "healthy";
          checked_at = utc 2026 2 11 13 33 0;
        }
        ∷ []);
  runbooks =
      (record {
        symptom_keyword = "sync";
        content =
            "Symptom: WarehouseSyncError. Check warehouse-api's dependency_status before assuming an inventory-api fault. If warehouse-api is degraded, escalate rather than restart — restarting inventory-api won't fix an upstream dependency.";
      }
        ∷ []);
}
