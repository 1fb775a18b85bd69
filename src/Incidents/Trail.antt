-- ===== src/Incidents/Trail.antt =====
-- What `_apply_result` of src/opspilot/routers/incidents.py leaves in the audit table across a pause
-- and its resolution.
use opspilot_sre_incident_re.Prelude.{
  eqb_refl, ℕ, ◌+◌, ◌≤◌, ◌≡◌, refl, ap, subst, ◌∙◌, String, true, false, List, [], ◌∷◌, ◌++◌, ◌==◌,
  str_eq, if◌then◌else◌, drop, length, length-append, drop-all, Bool-cases, inl, inr, arith,
}
use opspilot_sre_incident_re.Models.{Incident, AuditLogEntry}
use opspilot_sre_incident_re.Agent.Schemas.{ToolCallRecord, InvestigationResult}
use opspilot_sre_incident_re.Incidents.Applying.{
  of_incident, evidence_entry, evidence_entries, persist_new_evidence, approval_entry,
  decision_entry, awaits, audited, updated,
}

of_incident-++ :
    (id : ℕ) (xs ys : List AuditLogEntry)
    → of_incident id (xs ++ ys) ≡ of_incident id xs ++ of_incident id ys
of_incident-++ id [] ys = refl
of_incident-++ id (x ∷ xs) ys = elim (Bool-cases (x.incident_id == id)) [
  | inl e ↦ rw e (ap (λ r. x ∷ r) (of_incident-++ id xs ys))
  | inr e ↦ rw e (of_incident-++ id xs ys)
]

of_incident-entries :
    (next id now : ℕ) (trail : List ToolCallRecord)
    → of_incident id (evidence_entries next id now trail) ≡ evidence_entries next id now trail
of_incident-entries next id now [] = refl
of_incident-entries next id now (r ∷ trail) =
    rw (eqb_refl id)
      (ap (λ l. evidence_entry next id now r ∷ l) (of_incident-entries (next + 1) id now trail))

length-entries :
    (next id now : ℕ) (trail : List ToolCallRecord)
    → length (evidence_entries next id now trail) ≡ length trail
length-entries next id now [] = refl
length-entries next id now (r ∷ trail) =
    let ih = length-entries (next + 1) id now trail in ground arith

append-nil : (rows : List AuditLogEntry) → rows ++ [] ≡ rows
append-nil [] = refl
append-nil (r ∷ rows) = ap (λ l. r ∷ l) (append-nil rows)

snoc-snoc :
    (xs : List AuditLogEntry) (y z : AuditLogEntry) → (xs ++ y ∷ []) ++ z ∷ [] ≡ xs ++ y ∷ z ∷ []
snoc-snoc [] y z = refl
snoc-snoc (x ∷ xs) y z = ap (λ l. x ∷ l) (snoc-snoc xs y z)

persisted :
    (id : ℕ) (trail : List ToolCallRecord) (now : ℕ) (rows : List AuditLogEntry)
    → of_incident id rows ≡ []
    → of_incident id (persist_new_evidence id trail now rows)
      ≡ evidence_entries (length rows) id now trail
unfolding persist_new_evidence
persisted id trail now rows fresh =
    let e = ap (λ l. evidence_entries (length rows) id now (drop (length l) trail)) fresh in
    of_incident-++ id rows _
    ∙ ap
        (λ l.
          l
          ++ of_incident id
              (evidence_entries (length rows) id now (drop (length (of_incident id rows)) trail)))
        fresh
    ∙ of_incident-entries (length rows) id now _
    ∙ e

nothing_new :
    (id : ℕ) (trail : List ToolCallRecord) (now : ℕ) (rows : List AuditLogEntry)
    → length trail ≤ length (of_incident id rows)
    → persist_new_evidence id trail now rows ≡ rows
unfolding persist_new_evidence
nothing_new id trail now rows h =
    rw (drop-all (length (of_incident id rows)) trail h) (append-nil rows)

paused_rows :
    (process : String) (i : Incident) (r : InvestigationResult) (now : ℕ)
    (rows : List AuditLogEntry)
    → awaits r.status ≡ true
    → let rows' = persist_new_evidence i.id r.evidence_trail now rows in
      audited process i r now rows ≡ rows' ++ approval_entry process i.id r now rows' ∷ []
unfolding audited
paused_rows process i r now rows h = rw h refl

closed_rows :
    (process : String) (i : Incident) (r : InvestigationResult) (now : ℕ)
    (rows : List AuditLogEntry)
    → awaits r.status ≡ false
    → str_eq i.status "awaiting_approval" ≡ true
    → let rows' = persist_new_evidence i.id r.evidence_trail now rows in
      audited process i r now rows ≡ rows' ++ decision_entry process i.id r now rows' ∷ []
unfolding audited
closed_rows process i r now rows h waits = rw h (rw waits refl)

updated-paused :
    (i : Incident) (r : InvestigationResult) (now : ℕ)
    → awaits r.status ≡ true
    → ((updated i r now).id ≡ i.id) × (str_eq (updated i r now).status "awaiting_approval" ≡ true)
unfolding updated
updated-paused i r now h = (rw h refl, rw h refl)

-- The rows of the incident behind a first pause.
pause-rows :
    (process : String) (i : Incident) (r : InvestigationResult) (now : ℕ)
    (rows : List AuditLogEntry)
    → of_incident i.id rows ≡ []
    → awaits r.status ≡ true
    → of_incident i.id (audited process i r now rows)
      ≡ evidence_entries (length rows) i.id now r.evidence_trail
        ++ approval_entry process i.id r now (persist_new_evidence i.id r.evidence_trail now rows)
          ∷ []
pause-rows process i r now rows fresh h =
    let rows' = persist_new_evidence i.id r.evidence_trail now rows in
    ap (of_incident i.id) (paused_rows process i r now rows h)
    ∙ of_incident-++ i.id rows' _
    ∙ ap (λ l. l ++ of_incident i.id (approval_entry process i.id r now rows' ∷ []))
        (persisted i.id r.evidence_trail now rows fresh)
    ∙ ap
        (λ b.
          evidence_entries (length rows) i.id now r.evidence_trail
          ++ (if b then approval_entry process i.id r now rows' ∷ [] else []))
        (eqb_refl i.id)

-- The rows of the incident behind a resolution that brings no new evidence.
close-rows :
    (process : String) (i : Incident) (r : InvestigationResult) (now : ℕ)
    (rows : List AuditLogEntry)
    → length r.evidence_trail ≤ length (of_incident i.id rows)
    → awaits r.status ≡ false
    → str_eq i.status "awaiting_approval" ≡ true
    → of_incident i.id (audited process i r now rows)
      ≡ of_incident i.id rows ++ decision_entry process i.id r now rows ∷ []
close-rows process i r now rows h closed waits =
    let same = nothing_new i.id r.evidence_trail now rows h in
    ap (of_incident i.id) (closed_rows process i r now rows closed waits)
    ∙ ap (λ l. of_incident i.id (l ++ decision_entry process i.id r now l ∷ [])) same
    ∙ of_incident-++ i.id rows _
    ∙ ap
        (λ b.
          of_incident i.id rows ++ (if b then decision_entry process i.id r now rows ∷ [] else []))
        (eqb_refl i.id)

close-rows-at :
    (id : ℕ) (process : String) (i : Incident) (r : InvestigationResult) (now : ℕ)
    (rows : List AuditLogEntry)
    → i.id ≡ id
    → length r.evidence_trail ≤ length (of_incident id rows)
    → awaits r.status ≡ false
    → str_eq i.status "awaiting_approval" ≡ true
    → of_incident id (audited process i r now rows)
      ≡ of_incident id rows ++ decision_entry process id r now rows ∷ []
close-rows-at id process i r now rows e h closed waits =
    subst
      (λ n.
        length r.evidence_trail ≤ length (of_incident n rows)
        → of_incident n (audited process i r now rows)
          ≡ of_incident n rows ++ decision_entry process n r now rows ∷ [])
      e (λ k. close-rows process i r now rows k closed waits) h

-- Evidence is recorded exactly once, also if another process resolves the pause: if an investigation of an incident without audit rows pauses,
-- and its resolution comes back with the same evidence, then the incident's rows are the evidence in
-- its order, the request for approval and the decision, each once.
pub audited-once :
    (process restarted : String) (incident : Incident) (pause close : InvestigationResult)
    (now later : ℕ) (rows : List AuditLogEntry)
    → of_incident incident.id rows ≡ []
    → awaits pause.status ≡ true
    → awaits close.status ≡ false
    → close.evidence_trail ≡ pause.evidence_trail
    → let before = audited process incident pause now rows in
      let after = audited restarted (updated incident pause now) close later before in
      of_incident incident.id after
      ≡ evidence_entries (length rows) incident.id now pause.evidence_trail
        ++ approval_entry process incident.id pause now
            (persist_new_evidence incident.id pause.evidence_trail now rows)
          ∷ decision_entry restarted incident.id close later before
          ∷ []
audited-once process restarted incident pause close now later rows fresh paused closed same =
    let id = incident.id in
    let i' = updated incident pause now in
    let before = audited process incident pause now rows in
    let seen = pause-rows process incident pause now rows fresh paused in
    let (kept, waits) = updated-paused incident pause now paused in
    let counted : length (of_incident id before) ≡ length pause.evidence_trail + 1 =
      ap length seen
      ∙ length-append (evidence_entries (length rows) id now pause.evidence_trail) _
      ∙ ap (λ n. n + 1) (length-entries (length rows) id now pause.evidence_trail) in
    let lengths : length close.evidence_trail ≡ length pause.evidence_trail = ap length same in
    let longer : length close.evidence_trail ≤ length (of_incident id before) =
      omega (arith, counted, lengths) in
    close-rows-at id restarted i' close later before kept longer closed waits
    ∙ ap (λ l. l ++ decision_entry restarted id close later before ∷ []) seen
    ∙ snoc-snoc (evidence_entries (length rows) id now pause.evidence_trail) _ _
