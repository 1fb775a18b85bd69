-- ===== src/Seed/CheckoutFirst.antt =====
-- Scenarios of src/opspilot/seed/scenarios.py for the checkout service.
use opspilot_sre_incident_re.Prelude.{[], ◌∷◌}
use opspilot_sre_incident_re.Seed.Spec.{ScenarioSpec, utc, ramp}

abbrev pub checkout_deploy_outage : ScenarioSpec
checkout_deploy_outage = record {
  key = "checkout-deploy-outage";
  service_name = "checkout-api";
  service_description = "Handles cart finalization and payment authorization for web checkout.";
  title = "Checkout error rate spike following v2.8 deploy";
  description =
      "checkout-api error rate rose sharply beginning at 14:00 UTC, roughly two minutes after deployment v2.8 went live.";
  injected_cause =
      "Deployment v2.8 refactored checkout-api's database connection pooling and reduced the pool size from 50 to 5 connections, causing connection exhaustion under normal load.";
  incident_started_at = utc 2026 1 15 14 2 0;
  ground_truth = record {
    expected_evidence =
        ("deployment:checkout-api:v2.8" ∷ "metrics:checkout-api:error_rate"
          ∷ "logs:checkout-api:connection pool exhausted"
          ∷ "dependency_status:postgres-checkout:healthy" ∷ []);
    expected_diagnosis =
        "Deployment v2.8 reduced checkout-api's DB connection pool from 50 to 5 connections. The resulting connection exhaustion under normal traffic is the root cause of the error-rate spike; the database dependency itself remains healthy, ruling out a downstream/infrastructure cause.";
    expected_action = "rollback_deployment";
    expected_policy_verdict = "REQUIRE_APPROVAL";
    notes =
        "Deployment rollback is state-changing and must be gated, even with high-confidence evidence.";
  };
  deployments =
      (record {
        version = "v2.7";
        deployed_at = utc 2026 1 10 9 0 0;
        diff_summary = "Add promo-code validation endpoint.";
      }
        ∷ record {
          version = "v2.8";
          deployed_at = utc 2026 1 15 13 58 0;
          diff_summary = "Refactor DB connection pooling; pool size reduced from 50 to 5.";
        }
        ∷ []);
  metric_series =
      (record {
        metric_name = "error_rate";
        start = utc 2026 1 15 13 40 0;
        step_minutes = 5;
        values = (400 ∷ 500 ∷ 400 ∷ 11800 ∷ 27600 ∷ 31200 ∷ []);
      }
        ∷ record {
          metric_name = "latency_ms";
          start = utc 2026 1 15 13 40 0;
          step_minutes = 5;
          values = ramp 120000 1450000 6;
        }
        ∷ []);
  logs =
      (record {
        timestamp = utc 2026 1 15 13 59 0;
        level = "info";
        message = "checkout-api deployment v2.8 rollout complete.";
      }
        ∷ record {
          timestamp = utc 2026 1 15 14 1 0;
          level = "error";
          message = "psycopg.OperationalError: connection pool exhausted";
        }
        ∷ record {
          timestamp = utc 2026 1 15 14 3 0;
          level = "error";
          message = "psycopg.OperationalError: connection pool exhausted";
        }
        ∷ record {
          timestamp = utc 2026 1 15 14 6 0;
          level = "error";
          message = "Timeout waiting for available connection (pool_size=5)";
        }
        ∷ []);
  dependency_statuses =
      (record {
        dependency_name = "postgres-checkout";
        status = "healthy";
        checked_at = utc 2026 1 15 14 5 0;
      }
        ∷ record {
          dependency_name = "payments-gateway";
          status = "healthy";
          checked_at = utc 2026 1 15 14 5 0;
        }
        ∷ []);
  runbooks =
      (record {
        symptom_keyword = "connection pool exhausted";
        content =
            "Symptom: 'connection pool exhausted' or connection timeout errors shortly after a deploy. Check the most recent deployment's diff for pool-size or connection config changes first. If found, rollback is the standard remediation.";
      }
        ∷ []);
}

abbrev pub checkout_payment_gateway_down : ScenarioSpec
checkout_payment_gateway_down = record {
  key = "checkout-payment-gateway-down";
  service_name = "checkout-api";
  service_description = "Handles cart finalization and payment authorization for web checkout.";
  title = "checkout-api errors from an unresponsive payments-gateway dependency";
  description =
      "checkout-api error rate and latency spiked together, with no deployment and no change to checkout-api's own database, but its payments-gateway dependency reporting down.";
  injected_cause =
      "The external payments-gateway dependency is down. checkout-api's errors are a downstream symptom, not a checkout-api fault.";
  incident_started_at = utc 2026 2 8 16 0 0;
  ground_truth = record {
    expected_evidence =
        ("dependency_status:payments-gateway:down" ∷ "logs:checkout-api:PaymentGatewayTimeoutError"
          ∷ "deployment:checkout-api:none_recent" ∷ []);
    expected_diagnosis =
        "checkout-api errors correlate exactly with payments-gateway reporting down, with no deployment and a healthy checkout-api database — the root cause is the external gateway dependency, outside checkout-api's own remediation scope.";
    expected_action = "escalate";
    expected_policy_verdict = "ESCALATE";
    notes = "No remediation tool in the registry can fix a third-party dependency being down.";
  };
  deployments = [];
  metric_series =
      (record {
        metric_name = "error_rate";
        start = utc 2026 2 8 15 50 0;
        step_minutes = 5;
        values = (400 ∷ 500 ∷ 18600 ∷ 42100 ∷ 44800 ∷ []);
      }
        ∷ record {
          metric_name = "latency_ms";
          start = utc 2026 2 8 15 50 0;
          step_minutes = 5;
          values = ramp 130000 3000000 5;
        }
        ∷ []);
  logs =
      (record {
        timestamp = utc 2026 2 8 16 1 0;
        level = "error";
        message = "PaymentGatewayTimeoutError: no response from payments-gateway after 30s";
      }
        ∷ record {
          timestamp = utc 2026 2 8 16 4 0;
          level = "error";
          message = "PaymentGatewayTimeoutError: no response from payments-gateway after 30s";
        }
        ∷ []);
  dependency_statuses =
      (record {
        dependency_name = "payments-gateway";
        status = "down";
        checked_at = utc 2026 2 8 16 3 0;
      }
        ∷ record {
          dependency_name = "postgres-checkout";
          status = "healthy";
          checked_at = utc 2026 2 8 16 3 0;
        }
        ∷ []);
  runbooks =
      (record {
        symptom_keyword = "gateway timeout";
        content =
            "Symptom: PaymentGatewayTimeoutError. Check payments-gateway's own dependency_status first. If it's down, this is not a checkout-api issue — escalate to the payments-gateway on-call rather than restarting or rolling back.";
      }
        ∷ []);
}
