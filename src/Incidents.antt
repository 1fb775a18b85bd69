-- ===== src/Incidents.antt =====
-- src/opspilot/routers/incidents.py: the operations on incidents. The clock is `world.now`. Messages
-- of errors are left out, and so are the logs. A reply carries the incident; its
-- presentation by `_to_incident_detail` is left out. Each handler is given the trace id that
-- an investigation it runs would have.
pub mod Applying
pub mod Timeout
pub mod Lifecycle
pub mod Trail
pub mod Timeline
pub mod Resolution
pub mod Settling
pub mod Approving
pub mod Phases
pub mod Moves
pub mod Refinement
pub mod Outage
pub mod Presenting
pub mod Ending
pub mod Closed
use opspilot_sre_incident_re.Prelude.{
  ℕ, String, Bool, true, not, ◌||◌, Option, none, some, List, [], ◌∷◌, str_eq, if◌then◌else◌, find,
  get_or, Result, ok, err, is_ok,
}
use opspilot_sre_incident_re.Json.{Json, Fields, text, obj, end, get}
use opspilot_sre_incident_re.Models.{Scenario, Incident}
use opspilot_sre_incident_re.Agent.Schemas.{awaiting_approval, InvestigationResult}
use opspilot_sre_incident_re.Incidents.Applying.{
  Db, Reply, refused, broken, shown, ApprovalDecision, put_incident, App,
}
use opspilot_sre_incident_re.Incidents.Timeout.{
  decision_of, new_incident, running, scenario_of, find_incident, apply_result, resumed,
  investigate, maybe_apply_approval_timeout,
}

-- What a request answers with a value, or with an exception.
abbrev pub reply_of : {A : Type 0} → Result String A → Reply A
reply_of (ok a) = shown a
reply_of (err e) = broken e

module _ {S C : Type 0} (app : App S C) where
  -- `POST /incidents`; the id is the database's.
  unfoldable pub create_incident : String → ℕ → Db S C → Reply Incident × Db S C
  create_incident scenario_key id db = elim (find (λ s. str_eq s.key scenario_key) db.scenarios) [
    | none ↦ (refused 404, db)
    | some scenario ↦
        let incident = new_incident id db.world.now scenario in
        (shown incident, record db { incidents = incident ∷ db.incidents })
  ]

  -- `GET /incidents/{id}`
  unfoldable pub get_incident : ℕ → Option String → Db S C → Reply Incident × Db S C
  unfolding maybe_apply_approval_timeout
  get_incident incident_id trace db = elim (find_incident incident_id db) [
    | none ↦ (refused 404, db)
    | some incident ↦
        let (result, db') = maybe_apply_approval_timeout app incident trace db in
        (reply_of result, db')
  ]

  -- An incident in front of the rest of the loop; an exception ends it.
  abbrev pub swept :
      Result String Incident
      → Db S C
      → Result String (List Incident) × Db S C
      → Result String (List Incident) × Db S C
  swept (err e) db rest = (err e, db)
  swept (ok incident) db (ok incidents, db') = (ok (incident ∷ incidents), db')
  swept (ok incident) db (err e, db') = (err e, db')

  -- The loop of `list_incidents`: each incident in turn is checked for its timeout.
  abbrev pub sweep : Option String → List Incident → Db S C → Result String (List Incident) × Db S C
  sweep trace [] db = (ok [], db)
  sweep trace (incident ∷ incidents) db =
      let (result, db') = maybe_apply_approval_timeout app incident trace db in
      swept result db' (sweep trace incidents db')

  -- `GET /incidents`, newest first by an order that is a parameter.
  unfoldable pub list_incidents :
      (List Incident → List Incident) → Option String → Db S C → Reply (List Incident) × Db S C
  list_incidents newest_first trace db =
      let (result, db') = sweep trace (newest_first db.incidents) db in (reply_of result, db')

  -- The reply for a result that comes back, or for an exception.
  abbrev pub answered_with :
      Scenario → Incident → Result String InvestigationResult × Db S C → Reply Incident × Db S C
  answered_with scenario incident (ok result, db) =
      let (incident', db') = apply_result app scenario incident result db in (shown incident', db')
  answered_with scenario incident (err e, db) = (broken e, db)

  abbrev run_in : Option Scenario → Incident → Option String → Db S C → Reply Incident × Db S C
  run_in none incident trace db = (broken "NoResultFound", db)
  run_in (some scenario) incident trace db =
      let incident' = running incident db.world.now in
      let db' : Db S C = record db { incidents = put_incident incident' db.incidents } in
      answered_with scenario incident' (investigate app scenario incident' trace db')

  -- `POST /incidents/{id}/run`
  unfoldable pub run_incident : ℕ → Option String → Db S C → Reply Incident × Db S C
  unfolding investigate apply_result
  run_incident incident_id trace db = elim (find_incident incident_id db) [
    | none ↦ (refused 404, db)
    | some incident ↦
        if str_eq incident.status "open"
        then run_in (scenario_of incident db) incident trace db
        else (refused 409, db)
  ]

  -- Does an approval of this action type carry valid parameters? Only two types are checked.
  unfoldable pub params_valid : Option Json → Fields → Bool
  params_valid (some (text t)) params =
      if str_eq t "rollback_deployment"
      then is_ok (app.rt.validate_rollback (obj params))
      else if str_eq t "toggle_feature_flag"
      then is_ok (app.rt.validate_toggle (obj params))
      else true
  params_valid _ params = true

  abbrev decided_in :
      Option Scenario
      → Incident
      → ApprovalDecision
      → Option String
      → Db S C
      → Reply Incident × Db S C
  decided_in none incident body trace db = (broken "NoResultFound", db)
  decided_in (some scenario) incident body trace db =
      answered_with scenario incident (resumed app scenario incident (decision_of body) trace db)

  -- `decide_approval` behind the check for a timeout.
  unfoldable pub decide_on :
      Incident → ApprovalDecision → Option String → Db S C → Reply Incident × Db S C
  unfolding params_valid resumed apply_result
  decide_on incident body trace db =
      if str_eq incident.status "awaiting_approval"
      then if not body.approved
          || params_valid (get "action_type" (get_or incident.pending_approval end))
              (get_or body.params end)
        then decided_in (scenario_of incident db) incident body trace db
        else (refused 422, db)
      else (refused 409, db)

  abbrev pub decide_behind :
      Result String Incident → ApprovalDecision → Option String → Db S C → Reply Incident × Db S C
  decide_behind (err e) body trace db = (broken e, db)
  decide_behind (ok incident) body trace db = decide_on incident body trace db

  -- `POST /incidents/{id}/approvals`
  unfoldable pub decide_approval :
      ℕ → ApprovalDecision → Option String → Db S C → Reply Incident × Db S C
  unfolding maybe_apply_approval_timeout decide_on
  decide_approval incident_id body trace db = elim (find_incident incident_id db) [
    | none ↦ (refused 404, db)
    | some incident ↦
        let (result, db') = maybe_apply_approval_timeout app incident trace db in
        decide_behind result body trace db'
  ]
