-- ===== src/Agent/Remediation.antt =====
-- src/opspilot/agent/remediation_tools.py: the simulated remediation actions. A context is the
-- name of the scenario's service; what a validated argument satisfies is its declared bound.
use opspilot_sre_incident_re.Prelude.{ℕ, ◌≤◌, String, Bool, true, text_length}
use opspilot_sre_incident_re.Json.{Fields, bool, num, text, end, field}

pub record RollbackDeploymentArgs : Type 0 where
  pub target_version : String

pub record ScaleServiceArgs : Type 0 where
  pub replicas : ℕ

pub record ToggleFeatureFlagArgs : Type 0 where
  pub flag_name : String
  pub enabled : Bool

-- The declared bounds, which `model_validate` enforces.
pub record IsRollback (a : RollbackDeploymentArgs) : Type 0 where
  pub named : 1 ≤ text_length a.target_version

pub record IsToggle (a : ToggleFeatureFlagArgs) : Type 0 where
  pub named : 1 ≤ text_length a.flag_name

-- `ScaleServiceArgs()`, by its declared default.
abbrev pub default_scale : ScaleServiceArgs
default_scale = record { replicas = 1 }

-- `RollbackDeploymentArgs.model_dump` and `ToggleFeatureFlagArgs.model_dump`
abbrev pub dump_rollback : RollbackDeploymentArgs → Fields
dump_rollback a = field "target_version" (text a.target_version) end

abbrev pub dump_toggle : ToggleFeatureFlagArgs → Fields
dump_toggle a = field "flag_name" (text a.flag_name) (field "enabled" (bool a.enabled) end)

unfoldable pub rollback_deployment : String → RollbackDeploymentArgs → Fields
rollback_deployment service args = field "simulated" (bool true) (
    field "action" (text "rollback_deployment") (
      field "service" (text service) (
        field "target_version" (text args.target_version)
          (field "outcome" (text "rollback executed against the synthetic environment") end))))

unfoldable pub restart_service : String → Fields
restart_service service = field "simulated" (bool true) (
    field "action" (text "restart_service") (
      field "service" (text service)
        (field "outcome" (text "service restarted in the synthetic environment") end)))

unfoldable pub scale_service : String → ScaleServiceArgs → Fields
scale_service service args = field "simulated" (bool true) (
    field "action" (text "scale_service") (
      field "service" (text service) (
        field "replicas" (num args.replicas)
          (field "outcome" (text "service scaled in the synthetic environment") end))))

unfoldable pub toggle_feature_flag : String → ToggleFeatureFlagArgs → Fields
toggle_feature_flag service args = field "simulated" (bool true) (
    field "action" (text "toggle_feature_flag") (
      field "service" (text service) (
        field "flag_name" (text args.flag_name) (
          field "enabled" (bool args.enabled)
            (field "outcome" (text "feature flag toggled in the synthetic environment") end)))))
