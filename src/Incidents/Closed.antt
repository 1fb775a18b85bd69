-- ===== src/Incidents/Closed.antt =====
-- What becomes of an incident that is closed, or whose run broke, under the handlers of
-- src/opspilot/routers/incidents.py.
use opspilot_sre_incident_re.Prelude.{
  eqb→eq, ℕ, ◌≡◌, refl, sym, ap, ◌∙◌, subst, String, false, Option, none, some, List, [], ◌∷◌, ◌==◌,
  str_eq, find, get_or, Bool-cases, Option-cases, inl, inr, Result, ok, err,
}
use opspilot_sre_incident_re.Models.{Scenario, Incident}
use opspilot_sre_incident_re.Incidents.Applying.{Db, ApprovalDecision, App, refused}
use opspilot_sre_incident_re.Incidents.Timeout.{find_incident, maybe_apply_approval_timeout}
use opspilot_sre_incident_re.Incidents.{
  create_incident, get_incident, swept, sweep, list_incidents, run_incident, decide_on,
  decide_approval,
}
use opspilot_sre_incident_re.Incidents.Timeline.{get_timeline}
use opspilot_sre_incident_re.Incidents.Lifecycle.{run-refused}
use opspilot_sre_incident_re.Incidents.Phases.{Follows}
use opspilot_sre_incident_re.Incidents.Moves.{maybe_apply-Follows}
use opspilot_sre_incident_re.Incidents.Refinement.{
  Request, create, reading, listing, run, decision, tracing, Listed, Listed-kept, Admissible,
  handle, get-Follows, timeline-Follows, run-Follows, decide-Follows,
}

-- Neither open nor awaiting approval: closed, or left running.
pub record IsIdle (i : Incident) : Type 0 where
  pub shut : str_eq i.status "open" ≡ false
  pub settled : str_eq i.status "awaiting_approval" ≡ false

module _ {S C : Type 0} (app : App S C) where
  -- The stores that requests lead to, each request admissible in the store that it meets.
  pub data Reaches : Db S C → Db S C → Type 0 where
    arrived : {db : Db S C} → Reaches db db
    served :
        {db db' : Db S C} (request : Request) (trace : Option String)
        → Admissible request db
        → Reaches (handle app request trace db) db'
        → Reaches db db'

  -- The check for a timeout passes an idle incident.
  idle_passes :
      (i : Incident) (trace : Option String) (db : Db S C)
      → IsIdle i
      → maybe_apply_approval_timeout app i trace db ≡ (ok i, db)
  unfolding maybe_apply_approval_timeout
  idle_passes i trace db idle = rw (idle.settled, maybe_apply_approval_timeout) refl

  -- A request on another incident leaves this one, and one on this incident does, too, if it leaves
  -- the store.
  apart_or_same :
      (n m : ℕ) (i j : Incident) (db : Db S C) (l : List Incident) (j' : Incident)
      → find_incident n db ≡ some i
      → find_incident m db ≡ some j
      → Follows m j db.incidents j' l
      → (m ≡ n → j ≡ i → l ≡ db.incidents)
      → find (λ k. k.id == n) l ≡ some i
  apart_or_same n m i j db l j' found other moved same = elim (Bool-cases (m == n)) [
    | inr apart ↦ moved.others n apart ∙ found
    | inl hit ↦
        let e : m ≡ n = eqb→eq m n hit in
        let f : some j ≡ some i =
          sym other ∙ subst (λ x. find_incident x db ≡ some i) (sym e) found in
        ap (find (λ k. k.id == n)) (same e (ap (λ o. get_or o i) f)) ∙ found
  ]

  create-keeps :
      (n id : ℕ) (i : Incident) (scenario : Option Scenario) (key : String) (db : Db S C)
      → find (λ s. str_eq s.key key) db.scenarios ≡ scenario
      → find_incident id db ≡ none
      → find_incident n db ≡ some i
      → find_incident n (create_incident app key id db).1 ≡ some i
  unfolding create_incident
  create-keeps n id i none key db known new found = rw (known, create_incident) found
  create-keeps n id i (some scenario) key db known new found = elim (Bool-cases (id == n)) [
    | inl same ↦
        let gone : find_incident n db ≡ none =
          subst (λ x. find_incident x db ≡ none) (eqb→eq id n same) new in
        absurd cc
    | inr apart ↦ rw (known, create_incident) (rw apart found)
  ]

  swept-keeps :
      (n : ℕ) (i : Incident) (r : Result String Incident) (db : Db S C)
      (rest : Result String (List Incident) × Db S C)
      → find_incident n db ≡ some i
      → find_incident n rest.1 ≡ some i
      → find_incident n (swept app r db rest).1 ≡ some i
  swept-keeps n i (err e) db rest found h = found
  swept-keeps n i (ok j) db (ok list, db') found h = h
  swept-keeps n i (ok j) db (err e, db') found h = h

  maybe_apply-keeps :
      (n : ℕ) (i j : Incident) (trace : Option String) (db : Db S C)
      → IsIdle i
      → find_incident n db ≡ some i
      → find_incident j.id db ≡ some j
      → find_incident n (maybe_apply_approval_timeout app j trace db).1 ≡ some i
  maybe_apply-keeps n i j trace db idle found stored =
      apart_or_same n j.id i j db _ _ found stored (maybe_apply-Follows app j.id j trace db stored)
        (λ e same. ap (λ x. x.1.incidents) (idle_passes j trace db (subst IsIdle (sym same) idle)))

  sweep-keeps :
      (n : ℕ) (i : Incident) (trace : Option String) (list : List Incident) (db : Db S C)
      → IsIdle i
      → Listed list db.incidents
      → find_incident n db ≡ some i
      → find_incident n (sweep app trace list db).1 ≡ some i
  sweep-keeps n i trace [] db idle listed found = found
  sweep-keeps n i trace (j ∷ list) db idle (stored, alone, more) found =
      let (r, db') = maybe_apply_approval_timeout app j trace db in
      let moved = maybe_apply-Follows app j.id j trace db stored in
      let kept = maybe_apply-keeps n i j trace db idle found stored in
      swept-keeps n i r db' (sweep app trace list db') kept (
        sweep-keeps n i trace list db' idle
          (Listed-kept j.id list db.incidents db'.incidents moved.others alone more) kept)

  idle_get :
      (n : ℕ) (trace : Option String) (i : Incident) (db : Db S C)
      → IsIdle i
      → find_incident n db ≡ some i
      → (get_incident app n trace db).1 ≡ db
  unfolding get_incident
  idle_get n trace i db idle found =
      rw (found, get_incident) (ap (λ x. x.1) (idle_passes i trace db idle))

  idle_timeline :
      (n : ℕ) (by_step : _) (trace : Option String) (i : Incident) (db : Db S C)
      → IsIdle i
      → find_incident n db ≡ some i
      → (get_timeline app by_step n trace db).1 ≡ db
  unfolding get_timeline
  idle_timeline n by_step trace i db idle found =
      rw (found, get_timeline) (ap (λ x. x.1) (idle_passes i trace db idle))

  idle_decide :
      (n : ℕ) (body : ApprovalDecision) (trace : Option String) (i : Incident) (db : Db S C)
      → IsIdle i
      → find_incident n db ≡ some i
      → decide_approval app n body trace db ≡ (refused 409, db)
  unfolding decide_approval decide_on
  idle_decide n body trace i db idle found =
      rw (found, decide_approval)
        (rw (idle_passes i trace db idle) (rw (idle.settled, decide_on) refl))

  handle-keeps :
      (n : ℕ) (i : Incident) (request : Request) (trace : Option String) (db : Db S C)
      → IsIdle i
      → Admissible request db
      → find_incident n db ≡ some i
      → find_incident n (handle app request trace db) ≡ some i
  unfolding handle get_incident run_incident decide_approval list_incidents get_timeline
  handle-keeps n i (create key id) trace db idle new found =
      create-keeps n id i _ key db refl new found
  handle-keeps n i (listing newest_first) trace db idle listed found =
      sweep-keeps n i trace (newest_first db.incidents) db idle listed found
  handle-keeps n i (reading m) trace db idle h found = elim (Option-cases (find_incident m db)) [
    | inl e ↦ rw (e, handle, get_incident) found
    | inr (j, e) ↦
        apart_or_same n m i j db _ _ found e (get-Follows app m trace j db e).1
          (λ _ same. ap (λ x. x.incidents) (idle_get m trace j db (subst IsIdle (sym same) idle) e))
  ]
  handle-keeps n i (run m) trace db idle h found = elim (Option-cases (find_incident m db)) [
    | inl e ↦ rw (e, handle, run_incident) found
    | inr (j, e) ↦
        apart_or_same n m i j db _ _ found e (run-Follows app m trace j db e).1 (λ _ same.
          ap (λ x. x.1.incidents)
            (run-refused app m trace j db e (subst IsIdle (sym same) idle).shut))
  ]
  handle-keeps n i (decision m body) trace db idle h found =
      elim (Option-cases (find_incident m db)) [
        | inl e ↦ rw (e, handle, decide_approval) found
        | inr (j, e) ↦
            apart_or_same n m i j db _ _ found e (decide-Follows app m body trace j db e).1
              (λ _ same.
                ap (λ x. x.1.incidents)
                  (idle_decide m body trace j db (subst IsIdle (sym same) idle) e))
      ]
  handle-keeps n i (tracing m by_step) trace db idle h found =
      elim (Option-cases (find_incident m db)) [
        | inl e ↦ rw (e, handle, get_timeline) found
        | inr (j, e) ↦
            apart_or_same n m i j db _ _ found e (timeline-Follows app m by_step trace j db e).1
              (λ _ same.
                ap (λ x. x.incidents)
                  (idle_timeline m by_step trace j db (subst IsIdle (sym same) idle) e))
      ]

  -- An incident that is neither open nor awaiting approval stays as it is, in every field, through
  -- every sequence of requests, on it and on other incidents, if each `create` is given a fresh id
  -- and each listing has each incident once. So does one that is left running by a run that broke.
  pub Reaches-keeps :
      (n : ℕ) (i : Incident) (db db' : Db S C)
      → IsIdle i
      → find_incident n db ≡ some i
      → Reaches db db'
      → find_incident n db' ≡ some i
  Reaches-keeps n i db db' idle found arrived = found
  Reaches-keeps n i db db' idle found (served request trace admissible more) =
      Reaches-keeps n i (handle app request trace db) db' idle
        (handle-keeps n i request trace db idle admissible found) more
