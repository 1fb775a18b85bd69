-- ===== src/Memory/Writing.antt =====
-- When `write_confirmed_memory` of src/opspilot/memory.py writes, and what.
use opspilot_sre_incident_re.Prelude.{
  ℕ, ◌≤◌, ◌<◌, ◌≡◌, refl, ◌⊎◌, inl, inr, true, false, Option, none, some, [], ◌∷◌, ◌++◌, String,
  if◌then◌else◌, arith, ltb, ltb→lt, Bool-cases, join,
}
use opspilot_sre_incident_re.Models.{ServiceMemory}
use opspilot_sre_incident_re.Json.{Fields, get_truthy}
use opspilot_sre_incident_re.Agent.Policy.{
  PolicyVerdict, execute, require_approval, block, escalate,
}
use opspilot_sre_incident_re.Agent.Schemas.{SubmitDiagnosisArgs, action_name, InvestigationResult}
use opspilot_sre_incident_re.Memory.{
  MemoryTable, approved_in, outcome_of, is_escalation, derive_outcome, written_by, memory_row,
  added, write_confirmed_memory,
}

-- Why nothing is written: no diagnosis, an escalation, or too little confidence.
abbrev pub Unconfirmed : ℕ → InvestigationResult → Type 0
Unconfirmed floor result =
    (result.diagnosis ≡ none)
    ⊎ ((d : SubmitDiagnosisArgs) × (result.diagnosis ≡ some d)
        × ((is_escalation d.recommended_action ≡ true) ⊎ (d.confidence < floor)))

-- Did the human approve?
abbrev pub Approved : Option Fields → Type 0
Approved o = (decision : Fields) × (o ≡ some decision) × (get_truthy "approved" decision ≡ true)

abbrev pub NotApproved : Option Fields → Type 0
NotApproved o =
    (o ≡ none)
    ⊎ ((decision : Fields) × (o ≡ some decision) × (get_truthy "approved" decision ≡ false))

-- What a row says of the fix, by the verdict of the policy and the decision.
abbrev pub TellsOutcome : Option PolicyVerdict → Option Fields → String → Type 0
TellsOutcome verdict decision said =
    ((verdict ≡ some execute) × (said ≡ "executed"))
    ⊎ ((verdict ≡ some require_approval) × Approved decision × (said ≡ "approved_and_executed"))
    ⊎ ((verdict ≡ some require_approval) × NotApproved decision × (said ≡ "denied"))
    ⊎ ((verdict ≡ some block) × (said ≡ "blocked"))
    ⊎ ((verdict ≡ some escalate) × (said ≡ "unknown"))
    ⊎ ((verdict ≡ none) × (said ≡ "unknown"))

approved-TellsOutcome :
    (decision : Option Fields)
    → TellsOutcome
        (some require_approval)
        decision
        (if approved_in decision then "approved_and_executed" else "denied")
approved-TellsOutcome none = inr (inr (inl (refl, inl refl, refl)))
approved-TellsOutcome (some decision) = elim (Bool-cases (get_truthy "approved" decision)) [
  | inl yes_said ↦ rw yes_said (inr (inl (refl, (decision, refl, yes_said), refl)))
  | inr no_said ↦ rw no_said (inr (inr (inl (refl, inr (decision, refl, no_said), refl))))
]

outcome_of-TellsOutcome :
    (verdict : Option PolicyVerdict) (decision : Option Fields)
    → TellsOutcome verdict decision (outcome_of verdict decision)
unfolding outcome_of
outcome_of-TellsOutcome none decision = inr (inr (inr (inr (inr (refl, refl)))))
outcome_of-TellsOutcome (some execute) decision = inl (refl, refl)
outcome_of-TellsOutcome (some require_approval) decision = approved-TellsOutcome decision
outcome_of-TellsOutcome (some block) decision = inr (inr (inr (inl (refl, refl))))
outcome_of-TellsOutcome (some escalate) decision = inr (inr (inr (inr (inl (refl, refl)))))

-- What a row that is written says.
pub record Confirmed (floor service_id incident_id now : ℕ) (result : InvestigationResult)
    (row : ServiceMemory) : Type 0 where
  pub d : SubmitDiagnosisArgs
  pub diagnosed : result.diagnosis ≡ some d
  pub no_escalation : is_escalation d.recommended_action ≡ false
  pub confident : floor ≤ d.confidence
  pub of_service : row.service_id ≡ service_id
  pub of_incident : row.source_incident_id ≡ incident_id
  pub pattern_is : row.symptom_pattern ≡ join "; " d.evidence
  pub cause_is : row.root_cause ≡ d.diagnosis
  pub fix_is : row.fix_applied ≡ action_name d.recommended_action
  pub outcome_is : TellsOutcome result.policy_verdict result.approval_decision row.outcome
  pub confidence_is : row.confidence ≡ d.confidence
  pub created_is : row.created_at ≡ now
  pub once : row.occurrence_count ≡ 1

-- How a call ended: nothing was written, for a reason, or one row was, behind the others.
abbrev pub Outcome :
    ℕ → MemoryTable → ℕ → ℕ → ℕ → InvestigationResult → Option ServiceMemory × MemoryTable → Type 0
Outcome floor table now service_id incident_id result (written, table') =
    ((written ≡ none) × (table' ≡ table) × Unconfirmed floor result)
    ⊎ ((row : ServiceMemory) × (written ≡ some row)
        × (table'.rows ≡ table.rows ++ row ∷ [])
        × Confirmed floor service_id incident_id now result row)

module _ (floor : ℕ) (table : MemoryTable) (now service_id incident_id : ℕ)
    (result : InvestigationResult) where
  written-Outcome :
      (o : Option SubmitDiagnosisArgs)
      → result.diagnosis ≡ o
      → let written = written_by floor o (memory_row table now service_id incident_id result) in
        Outcome floor table now service_id incident_id result (written, added table written)
  unfolding written_by memory_row derive_outcome
  written-Outcome none e = inl (refl, refl, inl e)
  written-Outcome (some d) e = elim (Bool-cases (is_escalation d.recommended_action)) [
    | inl escalates ↦ rw escalates (inl (refl, refl, inr (d, e, inl escalates)))
    | inr acts ↦ rw acts (elim (Bool-cases (ltb d.confidence floor)) [
      | inl low ↦ rw low (inl (refl, refl, inr (d, e, inr (ltb→lt d.confidence floor low))))
      | inr enough ↦ rw enough (inr (_, refl, refl, confirmed d e acts enough))
    ])
  ]
    where
      confirmed :
          (d' : SubmitDiagnosisArgs)
          → result.diagnosis ≡ some d'
          → is_escalation d'.recommended_action ≡ false
          → ltb d'.confidence floor ≡ false
          → Confirmed floor service_id incident_id now result
              (memory_row table now service_id incident_id result d')
      confirmed d' e' acts enough = record {
        d = d';
        diagnosed = e';
        no_escalation = acts;
        confident = ground arith;
        of_service = refl;
        of_incident = refl;
        pattern_is = refl;
        cause_is = refl;
        fix_is = refl;
        outcome_is = outcome_of-TellsOutcome result.policy_verdict result.approval_decision;
        confidence_is = refl;
        created_is = refl;
        once = refl;
      }

-- Every call either writes nothing, and then there is no diagnosis, or it recommends an escalation,
-- or its confidence is below the floor; or it adds one row behind the others, and then none of
-- these holds, and the row has the evidence, the cause, the fix and the confidence of the diagnosis
-- under this service, incident and time, with what became of the fix by the policy's verdict and the
-- decision, confirmed once.
pub write_confirmed_memory-Outcome :
    (floor : ℕ) (table : MemoryTable) (now service_id incident_id : ℕ)
    (result : InvestigationResult)
    → Outcome floor table now service_id incident_id result
        (write_confirmed_memory floor table now service_id incident_id result)
unfolding write_confirmed_memory
write_confirmed_memory-Outcome floor table now service_id incident_id result =
    written-Outcome floor table now service_id incident_id result result.diagnosis refl
