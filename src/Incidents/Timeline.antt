-- ===== src/Incidents/Timeline.antt =====
-- `get_timeline` of src/opspilot/routers/incidents.py, on the audit rows of the incident in the order
-- of the query, which is a parameter. Times of entries are those of their rows.
pub mod Rows
use opspilot_sre_incident_re.Prelude.{
  ℕ, ◌≡◌, refl, String, Bool, true, false, not, ◌||◌, Option, none, some, List, [], ◌∷◌, ◌++◌, map,
  str_eq, if◌then◌else◌, Result, ok, err, concat, is_none, ap, Bool-cases, inl, inr,
}
use opspilot_sre_incident_re.Json.{
  Json, Fields, null, text, obj, end, field, get, get_truthy, optional, dumps,
}
use opspilot_sre_incident_re.Models.{Scenario, Incident, AuditLogEntry}
use opspilot_sre_incident_re.Incidents.Applying.{
  Db, Reply, refused, broken, shown, App, of_incident,
}
use opspilot_sre_incident_re.Incidents.Timeout.{
  find_incident, scenario_of, maybe_apply_approval_timeout,
}

pub data Kind : Type 0 where
  incident_started evidence_gathered diagnosis_formed : Kind
  approval_requested approval_decided final_status : Kind

pub record TimelineEntry : Type 0 where
  pub kind : Kind
  pub step : Option ℕ
  pub label : String
  pub detail : Option Fields
  pub timestamp : Option ℕ

-- `args.get(k, default)` in an f-string: a text stands for itself, another value for its JSON.
abbrev shown_in : String → Option Json → String
shown_in default none = default
shown_in default (some (text s)) = s
shown_in default (some v) = dumps v

-- A process id among the arguments; `None` for an absent one.
abbrev process_of : Fields → Option String
process_of args = elim (get "process_instance_id" args) [ some (text s) ↦ some s | _ ↦ none ]

abbrev differs : Option String → Option String → Bool
differs none resume = false
differs (some pause) none = true
differs (some pause) (some resume) = not (str_eq pause resume)

-- `isinstance(row.result, dict) and row.result.get("deduplicated")`
abbrev deduplicated : Option Json → Bool
deduplicated (some (obj d)) = get_truthy "deduplicated" d
deduplicated _ = false

decided_label : Fields → Option Json → Option String → String
decided_label args result pause = concat (
    (if get_truthy "timed_out" args
      then "Approval auto-escalated after SLA timeout"
      else concat (
          (if get_truthy "approved" args then "Approved" else "Denied")
          ∷ " by "
          ∷ shown_in "unknown" (get "actor" args)
          ∷ []))
    ∷ (if deduplicated result
        then " — remediation already executed once (crash-and-resume detected, not re-run)"
        else "")
    ∷ (if differs pause (process_of args) then " — resumed after a process restart" else "")
    ∷ [])

-- The kind and the label of a row, with the process of the pause before it.
unfoldable pub describe : AuditLogEntry → Option String → Kind × String
unfolding decided_label
describe row pause =
    if str_eq row.tool_name "submit_diagnosis"
    then (
      diagnosis_formed,
      (if is_none row.error then "Diagnosis submitted" else "Diagnosis rejected — invalid"),
    )
    else if str_eq row.tool_name "approval_requested"
    then (
      approval_requested,
      concat
          ("Approval requested for " ∷ shown_in "an action" (get "action_type" row.arguments) ∷ []),
    )
    else if str_eq row.tool_name "approval_decision"
    then (approval_decided, decided_label row.arguments row.result pause)
    else (
      evidence_gathered,
      concat ("Called " ∷ row.tool_name ∷ (if is_none row.error then "" else " — error") ∷ []),
    )

abbrev error_json : Option String → Json
error_json none = null
error_json (some e) = text e

abbrev row_entry : AuditLogEntry → Option String → TimelineEntry
row_entry row pause =
    let (kind, label) = describe row pause in
    record {
      kind = kind;
      step = some row.step;
      label = label;
      detail = some (
          field "arguments" (obj row.arguments)
            (field "result" (optional row.result) (field "error" (error_json row.error) end)));
      timestamp = some row.created_at;
    }

-- The loop over the rows.
unfoldable pub row_entries : Option String → List AuditLogEntry → List TimelineEntry
row_entries pause [] = []
row_entries pause (row ∷ rows) =
    let pause' =
      if str_eq row.tool_name "approval_requested" then process_of row.arguments else pause in
    row_entry row pause ∷ row_entries pause' rows

-- `incident.status not in ("open", "running", "awaiting_approval")`
abbrev pub is_closed : Incident → Bool
is_closed incident = not (
    str_eq incident.status "open"
    || str_eq incident.status "running"
    || str_eq incident.status "awaiting_approval")

abbrev started_entry : Scenario → Incident → TimelineEntry
started_entry scenario incident = record {
  kind = incident_started;
  step = none;
  label = concat ("Incident opened for " ∷ scenario.service.name ∷ ": " ∷ scenario.title ∷ []);
  detail = none;
  timestamp = some incident.created_at;
}

abbrev final_entry : Incident → TimelineEntry
final_entry incident = record {
  kind = final_status;
  step = none;
  label = concat ("Incident closed: " ∷ incident.status ∷ []);
  detail = incident.diagnosis;
  timestamp = incident.completed_at;
}

-- The entries of `get_timeline`, behind its check for a timeout.
unfoldable pub timeline : Scenario → Incident → List AuditLogEntry → List TimelineEntry
unfolding row_entries
timeline scenario incident rows =
    started_entry scenario incident
    ∷ (row_entries none rows ++ (if is_closed incident then final_entry incident ∷ [] else []))

module _ {S C : Type 0} (app : App S C) (by_step : List AuditLogEntry → List AuditLogEntry) where
  abbrev shown_timeline : Option Scenario → Incident → Db S C → Reply (List TimelineEntry)
  shown_timeline none incident db = broken "NoResultFound"
  shown_timeline (some scenario) incident db =
      shown (timeline scenario incident (by_step (of_incident incident.id db.audit)))

  abbrev pub timeline_behind : Result String Incident → Db S C → Reply (List TimelineEntry)
  timeline_behind (err e) db = broken e
  timeline_behind (ok incident) db = shown_timeline (scenario_of incident db) incident db

  -- `GET /incidents/{id}/timeline`
  unfoldable pub get_timeline : ℕ → Option String → Db S C → Reply (List TimelineEntry) × Db S C
  unfolding timeline
  get_timeline incident_id trace db = elim (find_incident incident_id db) [
    | none ↦ (refused 404, db)
    | some incident ↦
        let (result, db') = maybe_apply_approval_timeout app incident trace db in
        (timeline_behind result db', db')
  ]
