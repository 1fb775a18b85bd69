-- ===== src/Seed/Idempotence.antt =====
-- `seed_all` of src/opspilot/seed/generator.py, run again.
use opspilot_sre_incident_re.Prelude.{
  ◌≡◌, refl, sym, ap, ◌∙◌, String, true, List, [], ◌∷◌, ◌++◌, str_eq, find, is_some, Bool-cases,
  inl, inr, All, arith,
}
use opspilot_sre_incident_re.Models.{Scenario}
use opspilot_sre_incident_re.Seed.Spec.{ScenarioSpec}
use opspilot_sre_incident_re.Seed.Generator.{
  SeedTables, scenario_by_key, add_scenario, seed_scenario, seed_all,
}
use text.Mathlib.TextPositions.{eq_refl}

-- There is a scenario with that key.
abbrev pub IsSeeded : SeedTables → String → Type 0
IsSeeded db key = is_some (scenario_by_key key db) ≡ true

find-snoc-old :
    (key : String) (rows : List Scenario) (row : Scenario)
    → is_some (find (λ s. str_eq s.key key) rows) ≡ true
    → is_some (find (λ s. str_eq s.key key) (rows ++ row ∷ [])) ≡ true
find-snoc-old key [] row h = absurd (ground arith)
find-snoc-old key (r ∷ rows) row h = elim (Bool-cases (str_eq r.key key)) [
  | inl e ↦ rw e refl
  | inr e ↦
      let before : find (λ s. str_eq s.key key) (r ∷ rows) ≡ find (λ s. str_eq s.key key) rows =
        rw e refl in
      rw e (find-snoc-old key rows row (ap is_some (sym before) ∙ h))
]

find-snoc-new :
    (key : String) (rows : List Scenario) (row : Scenario)
    → str_eq row.key key ≡ true
    → is_some (find (λ s. str_eq s.key key) (rows ++ row ∷ [])) ≡ true
find-snoc-new key [] row h = rw h refl
find-snoc-new key (r ∷ rows) row h = elim (Bool-cases (str_eq r.key key)) [
  | inl e ↦ rw e refl
  | inr e ↦ rw e (find-snoc-new key rows row h)
]

seed_scenario-IsSeeded :
    (spec : ScenarioSpec) (db : SeedTables) → IsSeeded (seed_scenario spec db) spec.key
unfolding seed_scenario add_scenario
seed_scenario-IsSeeded spec db = elim (Bool-cases (is_some (scenario_by_key spec.key db))) [
  | inl old ↦ rw old old
  | inr new ↦ rw new (find-snoc-new spec.key db.scenarios _ (eq_refl spec.key))
]

seed_scenario-keeps :
    (spec : ScenarioSpec) (db : SeedTables) (key : String)
    → IsSeeded db key
    → IsSeeded (seed_scenario spec db) key
unfolding seed_scenario add_scenario
seed_scenario-keeps spec db key h = elim (Bool-cases (is_some (scenario_by_key spec.key db))) [
  | inl old ↦ rw old h
  | inr new ↦ rw new (find-snoc-old key db.scenarios _ h)
]

seed_all-keeps :
    (specs : List ScenarioSpec) (db : SeedTables) (key : String)
    → IsSeeded db key
    → IsSeeded (seed_all specs db).1 key
unfolding seed_all
seed_all-keeps [] db key h = h
seed_all-keeps (spec ∷ specs) db key h =
    seed_all-keeps specs (seed_scenario spec db) key (seed_scenario-keeps spec db key h)

-- A run of the seeding that is given specs whose keys are all there adds nothing.
seed_all-same :
    (specs : List ScenarioSpec) (db : SeedTables)
    → All (λ spec. IsSeeded db spec.key) specs
    → seed_all specs db ≡ (0, db)
unfolding seed_all seed_scenario
seed_all-same [] db h = refl
seed_all-same (spec ∷ specs) db (there, more) = rw there (rw (seed_all-same specs db more) refl)

seed_all-All :
    (specs : List ScenarioSpec) (db : SeedTables)
    → All (λ spec. IsSeeded (seed_all specs db).1 spec.key) specs
unfolding seed_all
seed_all-All [] db = tt
seed_all-All (spec ∷ specs) db = (
  seed_all-keeps specs (seed_scenario spec db) spec.key (seed_scenario-IsSeeded spec db),
  seed_all-All specs (seed_scenario spec db),
)

-- Seeding is idempotent: on whatever tables, a second `seed_all` of the same specs reports no new
-- scenario and changes no table.
pub seed_all-again :
    (specs : List ScenarioSpec) (db : SeedTables)
    → seed_all specs (seed_all specs db).1 ≡ (0, (seed_all specs db).1)
seed_all-again specs db = seed_all-same specs (seed_all specs db).1 (seed_all-All specs db)
