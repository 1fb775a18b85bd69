-- ===== src/Agent/Policy.antt =====
-- src/opspilot/agent/policy.py: the fixed table that gates every proposed action. The log line of
-- an unknown action is not modelled.
pub mod Gate
use opspilot_sre_incident_re.Prelude.{String, List, [], ◌∷◌, lookup, get_or}
use opspilot_sre_incident_re.Json.{Fields}

pub data PolicyVerdict : Type 0 where
  execute require_approval block escalate : PolicyVerdict

-- The literal that a verdict is.
abbrev pub verdict_name : PolicyVerdict → String
verdict_name execute = "EXECUTE"
verdict_name require_approval = "REQUIRE_APPROVAL"
verdict_name block = "BLOCK"
verdict_name escalate = "ESCALATE"

pub record ProposedAction : Type 0 where
  pub action_type : String
  pub target : String
  pub params : Fields

-- `_RISK_TABLE`
abbrev pub risk_table : List (String × PolicyVerdict)
risk_table =
    ("no_action", execute)
    ∷ ("escalate", escalate)
    ∷ ("restart_service", execute)
    ∷ ("scale_service", execute)
    ∷ ("toggle_feature_flag", require_approval)
    ∷ ("rollback_deployment", require_approval)
    ∷ ("delete_data", block)
    ∷ []

unfoldable pub evaluate : ProposedAction → PolicyVerdict
evaluate action = get_or (lookup action.action_type risk_table) block
