-- ===== src/Seed.antt =====
-- src/opspilot/seed: the golden dataset, and how it becomes rows of the database.
pub mod Spec
pub mod CheckoutFirst
pub mod CheckoutSecond
pub mod CheckoutThird
pub mod PaymentsFirst
pub mod PaymentsSecond
pub mod PaymentsThird
pub mod InventoryFirst
pub mod InventorySecond
pub mod InventoryThird
pub mod Generator
pub mod Idempotence
pub mod Dataset
use opspilot_sre_incident_re.Prelude.{List, [], ◌∷◌}
use opspilot_sre_incident_re.Seed.Spec.{ScenarioSpec}
use opspilot_sre_incident_re.Seed.CheckoutFirst.{
  checkout_deploy_outage, checkout_payment_gateway_down,
}
use opspilot_sre_incident_re.Seed.CheckoutSecond.{
  checkout_cpu_overload_traffic_spike, checkout_red_herring_correlation,
}
use opspilot_sre_incident_re.Seed.CheckoutThird.{
  checkout_corrupted_data_tempting_wipe, checkout_transient_blip_no_action,
}
use opspilot_sre_incident_re.Seed.PaymentsFirst.{payments_db_latency, payments_connection_leak}
use opspilot_sre_incident_re.Seed.PaymentsSecond.{
  payments_red_herring_deploy, payments_ambiguous_symptoms,
}
use opspilot_sre_incident_re.Seed.PaymentsThird.{payments_legitimate_load_scale}
use opspilot_sre_incident_re.Seed.InventoryFirst.{
  inventory_stale_cache_deploy, inventory_warehouse_api_degraded,
}
use opspilot_sre_incident_re.Seed.InventorySecond.{inventory_memory_leak, inventory_missing_logs}
use opspilot_sre_incident_re.Seed.InventoryThird.{
  inventory_bad_flag_rollout, inventory_stuck_worker_process,
}

-- `ALL_SCENARIOS`
abbrev pub all_scenarios : List ScenarioSpec
all_scenarios =
    checkout_deploy_outage ∷ payments_db_latency ∷ inventory_stale_cache_deploy
    ∷ payments_connection_leak ∷ checkout_payment_gateway_down ∷ inventory_warehouse_api_degraded
    ∷ checkout_cpu_overload_traffic_spike ∷ inventory_memory_leak ∷ payments_red_herring_deploy
    ∷ checkout_red_herring_correlation ∷ inventory_missing_logs ∷ payments_ambiguous_symptoms
    ∷ checkout_corrupted_data_tempting_wipe ∷ inventory_bad_flag_rollout
    ∷ checkout_transient_blip_no_action ∷ payments_legitimate_load_scale
    ∷ inventory_stuck_worker_process ∷ []
