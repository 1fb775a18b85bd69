-- ===== src/Agent/Policy/Gate.antt =====
-- What the policy table lets through, for every action type, in the vocabulary or not.
use opspilot_sre_incident_re.Prelude.{
  String, ◌≡◌, refl, Bool, ◌||◌, str_eq, arith, if◌then◌else◌, lookup, get_or, text_split,
}
use opspilot_sre_incident_re.Json.{Fields}
use opspilot_sre_incident_re.Agent.Policy.{
  PolicyVerdict, execute, require_approval, block, escalate, ProposedAction, risk_table, evaluate,
}

-- The three action types that may run with no human in the loop.
abbrev pub may_auto_run : String → Bool
may_auto_run a = str_eq "no_action" a || str_eq "restart_service" a || str_eq "scale_service" a

-- The two action types that a human may let run.
abbrev pub may_run_approved : String → Bool
may_run_approved a = str_eq "toggle_feature_flag" a || str_eq "rollback_deployment" a

-- Which verdict an action type deserves, by the words of the module's documentation.
pub class_of : String → PolicyVerdict
class_of a =
    if may_auto_run a
    then execute
    else if may_run_approved a
    then require_approval
    else if str_eq "escalate" a
    then escalate
    else block

evaluate-class_of_text :
    (a target : String) (params : Fields)
    → evaluate (record { action_type = a; target = target; params = params }) ≡ class_of a
unfolding evaluate class_of
evaluate-class_of_text a t p =
    text_split (λ (x : String). get_or (lookup x risk_table) block ≡ class_of x) "no_action" a refl
      λ n₁.
        text_split (λ (x : String). get_or (lookup x risk_table) block ≡ class_of x) "escalate" a
          refl λ n₂. ground arith

-- Which of the four verdicts an action gets, from its action type alone: EXECUTE for the three
-- harmless types and for no other text, REQUIRE_APPROVAL for a flag or a rollback, ESCALATE for
-- "escalate", and BLOCK for everything else, known to the table or not.
pub evaluate-class_of : (action : ProposedAction) → evaluate action ≡ class_of action.action_type
evaluate-class_of action = evaluate-class_of_text action.action_type action.target action.params
