-- ===== src/Incidents/Refinement.antt =====
-- The handlers of src/opspilot/routers/incidents.py as requests on one store, against the life cycle of
-- an incident.
use opspilot_sre_incident_re.Prelude.{
  eqb→eq, subst, ℕ, ◌≡◌, refl, ◌∙◌, String, false, not, ◌||◌, Option, none, some, List, [], ◌∷◌,
  ◌==◌, str_eq, find, Bool-cases, Option-cases, inl, inr, get_or, Result, ok, err,
}
use opspilot_sre_incident_re.Json.{get, end}
use opspilot_sre_incident_re.Models.{Scenario, Incident, AuditLogEntry}
use opspilot_sre_incident_re.Incidents.Applying.{Db, ApprovalDecision, App}
use opspilot_sre_incident_re.Incidents.Timeout.{
  scenario_of, find_incident, maybe_apply_approval_timeout,
}
use opspilot_sre_incident_re.Incidents.{
  create_incident, get_incident, swept, sweep, list_incidents, run_incident, decide_on,
  decide_behind, decide_approval, params_valid,
}
use opspilot_sre_incident_re.Incidents.Timeline.{get_timeline}
use opspilot_sre_incident_re.Incidents.Phases.{
  Phase, phase_of, Life, stays, opens, onwards, Follows, Follows-refl, Follows-trans, Follows-Life,
}
use opspilot_sre_incident_re.Incidents.Moves.{
  phase-open, phase-waiting, or_same, maybe_apply-Follows, run_in-Follows, decided_in-Follows,
}

-- A request: `create` brings the id that the database gives, `listing` and
-- `tracing`, which is that of the timeline, the order of their query.
pub data Request : Type 0 where
  create : String → ℕ → Request
  reading : ℕ → Request
  listing : (List Incident → List Incident) → Request
  run : ℕ → Request
  decision : ℕ → ApprovalDecision → Request
  tracing : ℕ → (List AuditLogEntry → List AuditLogEntry) → Request

-- None of these has the id.
abbrev pub Unlisted : ℕ → List Incident → Type 0
Unlisted n [] = Unit
Unlisted n (i ∷ list) = (n == i.id ≡ false) × Unlisted n list

-- Incidents of the table, each listed once.
abbrev pub Listed : List Incident → List Incident → Type 0
Listed [] table = Unit
Listed (i ∷ list) table =
    (find (λ j. j.id == i.id) table ≡ some i) × Unlisted i.id list × Listed list table

-- What a request relies on: a fresh id, or a listing of the table.
abbrev pub Admissible : {S C : Type 0} → Request → Db S C → Type 0
Admissible (create key id) db = find_incident id db ≡ none
Admissible (listing newest_first) db = Listed (newest_first db.incidents) db.incidents
Admissible _ db = Unit

-- A listing outlives a change of another incident.
pub Listed-kept :
    (n : ℕ) (list table table' : List Incident)
    → ((m : ℕ) → n == m ≡ false → find (λ j. j.id == m) table' ≡ find (λ j. j.id == m) table)
    → Unlisted n list
    → Listed list table
    → Listed list table'
Listed-kept n [] table table' others alone listed = tt
Listed-kept n (i ∷ list) table table' others (apart, alone) (stored, single, listed) =
    (others i.id apart ∙ stored, single, Listed-kept n list table table' others alone listed)

module _ {S C : Type 0} (app : App S C) where
  -- The store behind a request.
  unfoldable pub handle : Request → Option String → Db S C → Db S C
  unfolding create_incident get_incident list_incidents run_incident decide_approval get_timeline
  handle (create key id) trace db = (create_incident app key id db).1
  handle (reading n) trace db = (get_incident app n trace db).1
  handle (listing newest_first) trace db = (list_incidents app newest_first trace db).1
  handle (run n) trace db = (run_incident app n trace db).1
  handle (decision n body) trace db = (decide_approval app n body trace db).1
  handle (tracing n by_step) trace db = (get_timeline app by_step n trace db).1

  -- The phase of an id in a store.
  abbrev pub view : ℕ → Db S C → Phase
  view m db = phase_of (find_incident m db)

  create-Life :
      (m id : ℕ) (scenario : Option Scenario) (key : String) (db : Db S C)
      → find (λ s. str_eq s.key key) db.scenarios ≡ scenario
      → find_incident id db ≡ none
      → Life (view m db) (view m (create_incident app key id db).1)
  unfolding create_incident
  create-Life m id none key db known new = rw (known, create_incident) stays
  create-Life m id (some scenario) key db known new = elim (Bool-cases (id == m)) [
    | inl same ↦
        let gone : find_incident m db ≡ none =
          subst (λ x. find_incident x db ≡ none) (eqb→eq id m same) new in
        rw (known, create_incident) (rw same (rw gone opens))
    | inr apart ↦ rw (known, create_incident) (rw apart stays)
  ]

  swept-Life :
      (m : ℕ) (r : Result String Incident) (db : Db S C)
      (rest : Result String (List Incident) × Db S C)
      → Life (view m db) (view m rest.1)
      → Life (view m db) (view m (swept app r db rest).1)
  swept-Life m (err e) db rest h = stays
  swept-Life m (ok i) db (ok list, db') h = h
  swept-Life m (ok i) db (err e, db') h = h

  sweep-Life :
      (m : ℕ) (trace : Option String) (list : List Incident) (db : Db S C)
      → Listed list db.incidents
      → Life (view m db) (view m (sweep app trace list db).1)
  sweep-Life m trace [] db listed = stays
  sweep-Life m trace (i ∷ list) db (stored, alone, more) =
      let (r, db') = maybe_apply_approval_timeout app i trace db in
      let moved = maybe_apply-Follows app i.id i trace db stored in
      onwards (Follows-Life i.id m i db.incidents (or_same i r) db'.incidents stored moved) (
        swept-Life m r db' (sweep app trace list db') (
          sweep-Life m trace list db'
            (Listed-kept i.id list db.incidents db'.incidents moved.others alone more)))

  decide_on-Follows :
      (n : ℕ) (i : Incident) (body : ApprovalDecision) (trace : Option String) (db : Db S C)
      → find_incident n db ≡ some i
      → (i' : Incident) × Follows n i db.incidents i' (decide_on app i body trace db).1.incidents
  unfolding decide_on
  decide_on-Follows n i body trace db found =
      elim (Bool-cases (str_eq i.status "awaiting_approval")) [
        | inr idle ↦ rw (idle, decide_on) (i, Follows-refl n i db.incidents found)
        | inl pending ↦
            elim (Bool-cases (
              not body.approved
              || params_valid app (get "action_type" (get_or i.pending_approval end))
                  (get_or body.params end))) [
                    | inl passes ↦
                        rw (pending, decide_on)
                          (rw (passes, decide_on)
                            (decided_in-Follows app n (scenario_of i db) i body trace db found
                              (phase-waiting i.status pending)))
                    | inr fails ↦
                        rw (pending, decide_on)
                          (rw (fails, decide_on) (i, Follows-refl n i db.incidents found))
                  ]
      ]

  decide_behind-Follows :
      (n : ℕ) (i : Incident) (r : Result String Incident) (body : ApprovalDecision)
      (trace : Option String) (db : Db S C)
      → find_incident n db ≡ some (or_same i r)
      → (i' : Incident) × Follows n
          (or_same i r)
          db.incidents
          i'
          (decide_behind app r body trace db).1.incidents
  decide_behind-Follows n i (err e) body trace db found = (i, Follows-refl n i db.incidents found)
  decide_behind-Follows n i (ok i₁) body trace db found = decide_on-Follows n i₁ body trace db found

  -- What the requests on one incident come to.
  pub get-Follows :
      (n : ℕ) (trace : Option String) (i : Incident) (db : Db S C)
      → find_incident n db ≡ some i
      → (i' : Incident) × Follows n i db.incidents i' (get_incident app n trace db).1.incidents
  unfolding get_incident
  get-Follows n trace i db found =
      rw (found, get_incident)
        (
          or_same i (maybe_apply_approval_timeout app i trace db).0,
          maybe_apply-Follows app n i trace db found,
        )

  pub timeline-Follows :
      (n : ℕ) (by_step : List AuditLogEntry → List AuditLogEntry) (trace : Option String)
      (i : Incident) (db : Db S C)
      → find_incident n db ≡ some i
      → (i' : Incident) × Follows n i db.incidents i'
          (get_timeline app by_step n trace db).1.incidents
  unfolding get_timeline
  timeline-Follows n by_step trace i db found =
      rw (found, get_timeline)
        (
          or_same i (maybe_apply_approval_timeout app i trace db).0,
          maybe_apply-Follows app n i trace db found,
        )

  pub run-Follows :
      (n : ℕ) (trace : Option String) (i : Incident) (db : Db S C)
      → find_incident n db ≡ some i
      → (i' : Incident) × Follows n i db.incidents i' (run_incident app n trace db).1.incidents
  unfolding run_incident
  run-Follows n trace i db found = elim (Bool-cases (str_eq i.status "open")) [
    | inl new ↦
        rw (found, run_incident)
          (rw (new, run_incident)
            (run_in-Follows app n (scenario_of i db) i trace db found (phase-open i.status new)))
    | inr shut ↦
        rw (found, run_incident) (rw (shut, run_incident) (i, Follows-refl n i db.incidents found))
  ]

  pub decide-Follows :
      (n : ℕ) (body : ApprovalDecision) (trace : Option String) (i : Incident) (db : Db S C)
      → find_incident n db ≡ some i
      → (i' : Incident) × Follows n i db.incidents i'
          (decide_approval app n body trace db).1.incidents
  unfolding decide_approval
  decide-Follows n body trace i db found =
      let (r, db₁) = maybe_apply_approval_timeout app i trace db in
      let first = maybe_apply-Follows app n i trace db found in
      let (i₂, second) = decide_behind-Follows n i r body trace db₁ first.stored in
      rw (found, decide_approval)
        (i₂, Follows-trans n i db.incidents (or_same i r) db₁.incidents i₂ _ first second)

  -- The handlers refine the life cycle: seen from any id, every request leads the store along it. An
  -- id that is absent may be opened; what is open may be run; a run ends, or pauses for approval; a
  -- pause may last, or end; what is over stays over. This holds however the investigations end,
  -- exceptions included, if `create` is given a fresh id and a listing has each incident once.
  pub handle-Life :
      (request : Request) (trace : Option String) (db : Db S C)
      → Admissible request db
      → (m : ℕ) → Life (view m db) (view m (handle request trace db))
  unfolding handle get_incident run_incident decide_approval list_incidents get_timeline
  handle-Life (create key id) trace db new m = create-Life m id _ key db refl new
  handle-Life (listing newest_first) trace db listed m =
      sweep-Life m trace (newest_first db.incidents) db listed
  handle-Life (reading n) trace db h m = elim (Option-cases (find_incident n db)) [
    | inl e ↦ rw (e, handle, get_incident) stays
    | inr (i, e) ↦ Follows-Life n m i db.incidents _ _ e (get-Follows n trace i db e).1
  ]
  handle-Life (run n) trace db h m = elim (Option-cases (find_incident n db)) [
    | inl e ↦ rw (e, handle, run_incident) stays
    | inr (i, e) ↦ Follows-Life n m i db.incidents _ _ e (run-Follows n trace i db e).1
  ]
  handle-Life (decision n body) trace db h m = elim (Option-cases (find_incident n db)) [
    | inl e ↦ rw (e, handle, decide_approval) stays
    | inr (i, e) ↦ Follows-Life n m i db.incidents _ _ e (decide-Follows n body trace i db e).1
  ]
  handle-Life (tracing n by_step) trace db h m = elim (Option-cases (find_incident n db)) [
    | inl e ↦ rw (e, handle, get_timeline) stays
    | inr (i, e) ↦ Follows-Life n m i db.incidents _ _ e (timeline-Follows n by_step trace i db e).1
  ]
