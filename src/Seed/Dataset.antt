-- ===== src/Seed/Dataset.antt =====
-- The golden dataset of src/opspilot/seed/scenarios.py against the policy of src/opspilot/agent/policy.py.
use opspilot_sre_incident_re.Prelude.{◌≡◌, refl, Bool, true, str_eq, all}
use opspilot_sre_incident_re.Json.{end}
use opspilot_sre_incident_re.Agent.Policy.{evaluate, verdict_name}
use opspilot_sre_incident_re.Seed.Spec.{ScenarioSpec}
use opspilot_sre_incident_re.Seed.{all_scenarios}

-- Does the policy decide on the expected action as the ground truth expects?
abbrev pub agrees : ScenarioSpec → Bool
agrees spec =
    str_eq
      (verdict_name (
        evaluate (record {
          action_type = spec.ground_truth.expected_action;
          target = spec.service_name;
          params = end;
        })))
      spec.ground_truth.expected_policy_verdict

-- For every scenario, the policy's verdict on the expected action is the expected one.
all_scenarios-agree : all agrees all_scenarios ≡ true
unfolding evaluate
all_scenarios-agree = refl
