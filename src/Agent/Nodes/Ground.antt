-- ===== src/Agent/Nodes/Ground.antt =====
-- `hypothesize` and `classify_risk` of src/opspilot/agent/nodes.py. Texts are lower-cased and split
-- as code points; splitting at every separator, where the source splits at runs of them, yields
-- empty tokens besides, which the test on the length drops as it drops other short ones.
use opspilot_sre_incident_re.Prelude.{
  ℕ, String, Bool, true, not, ◌&&◌, ◌||◌, Option, none, some, List, [], ◌∷◌, ltb, leb, ◌==◌, length,
  keep, any, lower, has_infix, lookup, get_or, if◌then◌else◌,
}
use opspilot_sre_incident_re.Json.{
  Items, Fields, null, num, text, arr, obj, nil, cons, end, field, dumps, optional,
}
use opspilot_sre_incident_re.Agent.Schemas.{SubmitDiagnosisArgs, ToolCallRecord, action_name}
use opspilot_sre_incident_re.Agent.State.{GraphState, Update, no_update}

-- `[:\s]` on ASCII.
unfoldable pub is_separator : ℕ → Bool
is_separator c = c == b':' || (leb 9 c && leb c 13) || (leb 28 c && leb c 32)

abbrev pub first_to : ℕ → List (List ℕ) → List (List ℕ)
first_to c [] = (c ∷ []) ∷ []
first_to c (t ∷ ts) = (c ∷ t) ∷ ts

-- `re.split(r"[:\s]+", ...)`, up to empty tokens.
unfoldable pub tokens_of : List ℕ → List (List ℕ)
unfolding is_separator
tokens_of [] = [] ∷ []
tokens_of (c ∷ cs) =
    let rest = tokens_of cs in if is_separator c then [] ∷ rest else first_to c rest

-- The tokens of a citation that are longer than three characters.
unfoldable pub long_tokens : String → List (List ℕ)
unfolding tokens_of
long_tokens citation = keep (λ t. ltb 3 (length t)) (tokens_of (lower citation))

-- `if not tokens: return True`, and `any(token in gathered_blob for token in tokens)`.
unfoldable pub grounded_by : List (List ℕ) → List ℕ → Bool
grounded_by [] blob = true
grounded_by (token ∷ tokens) blob = any (λ t. has_infix t blob) (token ∷ tokens)

-- `_looks_grounded`
unfoldable pub looks_grounded : String → List ℕ → Bool
unfolding long_tokens grounded_by
looks_grounded citation blob = grounded_by (long_tokens citation) blob

-- `record.model_dump()`
unfoldable pub dump_record : ToolCallRecord → Fields
dump_record r = field "step" (num r.step) (
    field "tool_name" (text r.tool_name) (
      field "arguments" (obj r.arguments) (
        field "result" (optional r.result)
          (field "error" (elim r.error [ none ↦ null | some e ↦ text e ]) end))))

abbrev dump_records : List ToolCallRecord → Items
dump_records [] = nil
dump_records (r ∷ rs) = cons (obj (dump_record r)) (dump_records rs)

unfoldable pub gathered_blob : List ToolCallRecord → List ℕ
unfolding dump_record
gathered_blob trail = lower (dumps (arr (dump_records trail)))

-- By the diagnosis in the state.
unfoldable pub grounding_of : Option SubmitDiagnosisArgs → List ToolCallRecord → Update
unfolding looks_grounded gathered_blob
grounding_of none trail = record no_update {
  evidence_grounded = some none;
  ungrounded_evidence = some [];
}
grounding_of (some d) trail =
    let blob = gathered_blob trail in
    let ungrounded = keep (λ e. not (looks_grounded e blob)) d.evidence in
    record no_update {
      evidence_grounded = some (some (length ungrounded == 0));
      ungrounded_evidence = some ungrounded;
    }

unfoldable pub hypothesize : GraphState → Update
hypothesize state = grounding_of state.diagnosis state.evidence_trail

-- `_RISK_TABLE` of this file: the tiers that are shown, not the gate.
abbrev pub risk_tiers : List (String × String)
risk_tiers =
    ("no_action", "none")
    ∷ ("escalate", "none")
    ∷ ("restart_service", "low")
    ∷ ("scale_service", "low")
    ∷ ("toggle_feature_flag", "medium")
    ∷ ("rollback_deployment", "medium")
    ∷ ("delete_data", "critical")
    ∷ []

unfoldable pub tier_of : Option SubmitDiagnosisArgs → Option String
tier_of none = none
tier_of (some d) = some (get_or (lookup (action_name d.recommended_action) risk_tiers) "unknown")

unfoldable pub classify_risk : GraphState → Update
unfolding tier_of
classify_risk state = record no_update { risk_tier = some (tier_of state.diagnosis) }
