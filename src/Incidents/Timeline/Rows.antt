-- ===== src/Incidents/Timeline/Rows.antt =====
-- What the timeline of src/opspilot/routers/incidents.py shows of each audit row.
use opspilot_sre_incident_re.Prelude.{
  ℕ, ◌≡◌, refl, sym, ap, ◌∙◌, String, Bool, true, false, Option, none, some, List, [], ◌∷◌, ◌++◌,
  map, str_eq, if◌then◌else◌, Bool-cases, inl, inr,
}
use opspilot_sre_incident_re.Json.{Json, Fields, null, text, obj, end, field, optional}
use opspilot_sre_incident_re.Models.{Scenario, Incident, AuditLogEntry}
use opspilot_sre_incident_re.Incidents.Phases.{Phase, over, phase}
use opspilot_sre_incident_re.Incidents.Timeline.{
  Kind, incident_started, evidence_gathered, diagnosis_formed, approval_requested, approval_decided,
  final_status, TimelineEntry, describe, row_entry, error_json, row_entries, is_closed,
  started_entry, final_entry, timeline,
}

-- The kinds of the rows that are no calls of read-only tools, by their tool names.
abbrev pub special_kinds : List (String × Kind)
special_kinds =
    ("submit_diagnosis", diagnosis_formed)
    ∷ ("approval_requested", approval_requested)
    ∷ ("approval_decision", approval_decided)
    ∷ []

abbrev pub kind_in : String → List (String × Kind) → Kind
kind_in name [] = evidence_gathered
kind_in name ((special, kind) ∷ kinds) =
    let rest = kind_in name kinds in if str_eq name special then kind else rest

abbrev pub kind_of : AuditLogEntry → Kind
kind_of row = kind_in row.tool_name special_kinds

-- What an entry shows beside its label: its kind, step, detail and time.
abbrev pub Shown : Type 0
Shown = Kind × Option ℕ × Option Fields × Option ℕ

abbrev pub shown_of : TimelineEntry → Shown
shown_of e = (e.kind, e.step, e.detail, e.timestamp)

abbrev pub error_of : Option String → Json
error_of none = null
error_of (some e) = text e

-- What is to be shown of a row.
abbrev pub row_shown : AuditLogEntry → Shown
row_shown row = (
  kind_of row,
  some row.step,
  some (
      field "arguments" (obj row.arguments)
        (field "result" (optional row.result) (field "error" (error_of row.error) end))),
  some row.created_at,
)

abbrev pub is_over : Phase → Bool
is_over over = true
is_over _ = false

-- What is to be shown at the end of an incident that is over.
abbrev pub ending_shown : Incident → List Shown
ending_shown incident =
    if is_over (phase incident.status)
    then (final_status, none, incident.diagnosis, incident.completed_at) ∷ []
    else []

describe-kind_of :
    (row : AuditLogEntry) (pause : Option String) → (describe row pause).0 ≡ kind_of row
unfolding describe
describe-kind_of row pause = elim (Bool-cases (str_eq row.tool_name "submit_diagnosis")) [
  | inl a ↦ rw (a, describe) refl
  | inr a ↦ elim (Bool-cases (str_eq row.tool_name "approval_requested")) [
    | inl b ↦ rw (a, describe) (rw (b, describe) refl)
    | inr b ↦ elim (Bool-cases (str_eq row.tool_name "approval_decision")) [
      | inl c ↦ rw (a, describe) (rw (b, describe) (rw (c, describe) refl))
      | inr c ↦ rw (a, describe) (rw (b, describe) (rw (c, describe) refl))
    ]
  ]
]

error_json-error_of : (o : Option String) → error_json o ≡ error_of o
error_json-error_of none = refl
error_json-error_of (some e) = refl

row_entry-shown :
    (row : AuditLogEntry) (pause : Option String) → shown_of (row_entry row pause) ≡ row_shown row
row_entry-shown row pause =
    ap
      (λ kind. (
        kind,
        some row.step,
        some (
            field "arguments" (obj row.arguments)
              (field "result" (optional row.result) (field "error" (error_json row.error) end))),
        some row.created_at,
      ))
      (describe-kind_of row pause)
    ∙ ap
        (λ e. (
          kind_of row,
          some row.step,
          some (
              field "arguments" (obj row.arguments)
                (field "result" (optional row.result) (field "error" e end))),
          some row.created_at,
        ))
        (error_json-error_of row.error)

row_entries-shown :
    (rows : List AuditLogEntry) (pause : Option String) (rest : List TimelineEntry)
    → map shown_of (row_entries pause rows ++ rest) ≡ map row_shown rows ++ map shown_of rest
unfolding row_entries
row_entries-shown [] pause rest = refl
row_entries-shown (row ∷ rows) pause rest =
    rw (row_entry-shown row pause) (ap (λ l. row_shown row ∷ l) (row_entries-shown rows _ rest))

is_closed-is_over : (i : Incident) → is_closed i ≡ is_over (phase i.status)
is_closed-is_over i = elim (Bool-cases (str_eq i.status "open")) [
  | inl a ↦ rw a refl
  | inr a ↦ elim (Bool-cases (str_eq i.status "running")) [
    | inl b ↦ rw a (rw b refl)
    | inr b ↦ elim (Bool-cases (str_eq i.status "awaiting_approval")) [
      | inl c ↦ rw a (rw b (rw c refl))
      | inr c ↦ rw a (rw b (rw c refl))
    ]
  ]
]

-- Beside the labels, the timeline shows one entry for the opening, with its time; then every audit
-- row once and in order, with the kind that its tool name stands for, its step, its arguments, result
-- and error, and its time; and, if the incident is neither open nor running nor waiting, one entry
-- for the end, with the diagnosis and the time of completion.
pub timeline-shown :
    (scenario : Scenario) (incident : Incident) (rows : List AuditLogEntry)
    → map shown_of (timeline scenario incident rows)
      ≡ (incident_started, none, none, some incident.created_at)
        ∷ (map row_shown rows ++ ending_shown incident)
unfolding timeline
timeline-shown scenario incident rows = elim (Bool-cases (is_closed incident)) [
  | inl closed ↦
      let e : is_over (phase incident.status) ≡ true = sym (is_closed-is_over incident) ∙ closed in
      rw closed (
        rw e (
          ap (λ l. shown_of (started_entry scenario incident) ∷ l)
            (row_entries-shown rows none (final_entry incident ∷ []))))
  | inr live ↦
      let e : is_over (phase incident.status) ≡ false = sym (is_closed-is_over incident) ∙ live in
      rw live (
        rw e (
          ap (λ l. shown_of (started_entry scenario incident) ∷ l)
            (row_entries-shown rows none [])))
]
