-- ===== src/Config.antt =====
-- src/opspilot/config.py: the settings that the modelled code reads, with the defaults that the class
-- declares. Loading them from the environment is not modelled. Costs are in 10⁻⁸ USD and
-- confidences in millionths.
use opspilot_sre_incident_re.Prelude.{ℕ, ◌*◌, String}

pub record Settings : Type 0 where
  pub api_key : String
  pub anthropic_model : String
  pub agent_max_steps : ℕ
  pub agent_max_cost_usd : ℕ
  pub rate_limit_max_requests : ℕ
  pub rate_limit_window_seconds : ℕ
  pub max_request_body_bytes : ℕ
  pub approval_sla_seconds : ℕ
  pub memory_write_min_confidence : ℕ

abbrev pub default_settings : Settings
default_settings = record {
  api_key = "change-me-to-a-real-secret";
  anthropic_model = "claude-sonnet-5";
  agent_max_steps = 8;
  agent_max_cost_usd = 20000000;
  rate_limit_max_requests = 100;
  rate_limit_window_seconds = 60;
  max_request_body_bytes = 64 * 1024;
  approval_sla_seconds = 3600;
  memory_write_min_confidence = 600000;
}
