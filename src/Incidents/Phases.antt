-- ===== src/Incidents/Phases.antt =====
-- The life cycle that src/opspilot/routers/incidents.py promises for an incident, as an abstract
-- machine, and the requests as functions on the store.
use opspilot_sre_incident_re.Prelude.{
  eqb→eq, ℕ, ◌≡◌, refl, ap, ◌∙◌, subst, String, false, Option, none, some, List, [], ◌∷◌, ◌==◌,
  str_eq, find, Bool-cases, inl, inr, if◌then◌else◌,
}
use opspilot_sre_incident_re.Models.{Incident}
use opspilot_sre_incident_re.Agent.Schemas.{
  InvestigationResult, Status, diagnosed, awaiting_approval, incomplete_step_ceiling,
  incomplete_cost_ceiling, incomplete_provider_error, status_name,
}
use opspilot_sre_incident_re.Incidents.Applying.{put_incident, updated, awaits}
use opspilot_sre_incident_re.Incidents.Lifecycle.{find-put}

-- Where an incident stands; an id that no incident has is absent.
pub data Phase : Type 0 where
  absent fresh active waiting over : Phase

-- The phase that a status stands for.
abbrev pub phase : String → Phase
phase status =
    if str_eq status "open"
    then fresh
    else if str_eq status "running"
    then active
    else if str_eq status "awaiting_approval"
    then waiting
    else over

abbrev pub phase_of : Option Incident → Phase
phase_of none = absent
phase_of (some i) = phase i.status

-- The life cycle: opened, run, perhaps paused for approval, and over for good.
pub data Life : Phase → Phase → Type 0 where
  stays : {p : Phase} → Life p p
  opens : Life absent fresh
  starts : Life fresh active
  asks : Life active waiting
  ends_run : Life active over
  settles : Life waiting over
  onwards : {p q r : Phase} → Life p q → Life q r → Life p r

-- The end of the life cycle is the end.
pub Life-over : (p q : Phase) → Life p q → p ≡ over → q ≡ over
Life-over p q stays h = h
Life-over p q opens h = cc
Life-over p q starts h = cc
Life-over p q asks h = cc
Life-over p q ends_run h = refl
Life-over p q settles h = refl
Life-over p q (onwards {q = m} a b) h = Life-over m q b (Life-over p m a h)

-- Incident `i` of that id moved along its life to `i'`, and every other incident stayed.
pub record Follows (n : ℕ) (i : Incident) (l : List Incident) (i' : Incident) (l' : List Incident)
    : Type 0 where
  pub stored : find (λ j. j.id == n) l' ≡ some i'
  pub life : Life (phase i.status) (phase i'.status)
  pub others : (m : ℕ) → n == m ≡ false → find (λ j. j.id == m) l' ≡ find (λ j. j.id == m) l

pub Follows-refl :
    (n : ℕ) (i : Incident) (l : List Incident)
    → find (λ j. j.id == n) l ≡ some i
    → Follows n i l i l
Follows-refl n i l found = record { stored = found; life = stays; others = λ m apart. refl }

pub Follows-trans :
    (n : ℕ) (i : Incident) (l : List Incident) (i' : Incident) (l' : List Incident) (i'' : Incident)
    (l'' : List Incident)
    → Follows n i l i' l'
    → Follows n i' l' i'' l''
    → Follows n i l i'' l''
Follows-trans n i l i' l' i'' l'' a b = record {
  stored = b.stored;
  life = onwards a.life b.life;
  others = λ m apart. b.others m apart ∙ a.others m apart;
}

put-others :
    (m : ℕ) (k : Incident) (l : List Incident)
    → k.id == m ≡ false
    → find (λ j. j.id == m) (put_incident k l) ≡ find (λ j. j.id == m) l
put-others m k [] apart = refl
put-others m k (j ∷ l) apart = elim (Bool-cases (j.id == k.id)) [
  | inl same ↦
      let e : j.id ≡ k.id = eqb→eq j.id k.id same in
      let also : j.id == m ≡ false = ap (λ x. x == m) e ∙ apart in rw same (rw apart (rw also refl))
  | inr other ↦ elim (Bool-cases (j.id == m)) [
    | inl hit ↦ rw other (rw hit refl)
    | inr miss ↦ rw other (rw miss (put-others m k l apart))
  ]
]

pub Follows-put_incident :
    (n : ℕ) (i : Incident) (l : List Incident) (k : Incident)
    → find (λ j. j.id == n) l ≡ some i
    → k.id ≡ n
    → Life (phase i.status) (phase k.status)
    → Follows n i l k (put_incident k l)
Follows-put_incident n i l k found same along = record {
  stored = find-put n l i k found same;
  life = along;
  others = λ m apart. put-others m k l (ap (λ x. x == m) same ∙ apart);
}

-- Seen from any id, the life cycle was followed.
pub Follows-Life :
    (n m : ℕ) (i : Incident) (l : List Incident) (i' : Incident) (l' : List Incident)
    → find (λ j. j.id == n) l ≡ some i
    → Follows n i l i' l'
    → Life (phase_of (find (λ j. j.id == m) l)) (phase_of (find (λ j. j.id == m) l'))
Follows-Life n m i l i' l' found f = elim (Bool-cases (n == m)) [
  | inl same ↦
      let e : n ≡ m = eqb→eq n m same in
      subst (λ x. Life (phase_of (find (λ j. j.id == x) l)) (phase_of (find (λ j. j.id == x) l'))) e
        (rw found (rw f.stored f.life))
  | inr apart ↦ rw (f.others m apart) stays
]

pub status_name-over : (s : Status) → awaits s ≡ false → phase (status_name s) ≡ over
status_name-over diagnosed h = refl
status_name-over awaiting_approval h = cc
status_name-over incomplete_step_ceiling h = refl
status_name-over incomplete_cost_ceiling h = refl
status_name-over incomplete_provider_error h = refl

-- Applying a result pauses an incident that runs, or keeps a pause, or ends either.
pub updated-Life :
    (i : Incident) (r : InvestigationResult) (now : ℕ) (p : Phase)
    → Life p waiting
    → Life p over
    → Life p (phase (updated i r now).status)
unfolding updated
updated-Life i r now p pause finish = elim (Bool-cases (awaits r.status)) [
  | inl a ↦ rw a pause
  | inr a ↦ rw a (rw (status_name-over r.status a) finish)
]
