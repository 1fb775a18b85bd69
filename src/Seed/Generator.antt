-- ===== src/Seed/Generator.antt =====
-- src/opspilot/seed/generator.py: `seed_all` and what it calls. A new row's id is one more than the
-- number of rows of its table; nothing here deletes rows.
use opspilot_sre_incident_re.Prelude.{
  ℕ, ◌+◌, ◌*◌, String, ◌&&◌, Option, none, some, List, [], ◌∷◌, ◌++◌, ◌==◌, str_eq, if◌then◌else◌,
  find, is_some, length,
}
use opspilot_sre_incident_re.Json.{text, arr, end, field, Fields, of_texts}
use opspilot_sre_incident_re.Models.{
  Service, Scenario, Deployment, MetricPoint, LogEntry, DependencyStatus, Runbook,
}
use opspilot_sre_incident_re.Seed.Spec.{
  ScenarioSpec, DeploymentSpec, MetricSeriesSpec, LogSpec, DependencyStatusSpec, RunbookSpec,
  GroundTruthSpec,
}

pub record SeedTables : Type 0 where
  pub services : List Service
  pub scenarios : List Scenario
  pub deployments : List Deployment
  pub metric_points : List MetricPoint
  pub log_entries : List LogEntry
  pub dependency_statuses : List DependencyStatus
  pub runbooks : List Runbook

-- `_get_or_create_service`
abbrev pub get_or_create_service : String → String → List Service → Service × List Service
get_or_create_service name description services = elim (find (λ s. str_eq s.name name) services) [
  | some existing ↦ (existing, services)
  | none ↦
      let service : Service = record {
        id = length services + 1;
        name = name;
        description = description;
      } in
      (service, services ++ service ∷ [])
]

abbrev pub ground_truth_fields : GroundTruthSpec → Fields
ground_truth_fields g = field "expected_evidence" (arr (of_texts g.expected_evidence)) (
    field "expected_diagnosis" (text g.expected_diagnosis) (
      field "expected_action" (text g.expected_action) (
        field "expected_policy_verdict" (text g.expected_policy_verdict)
          (field "notes" (text g.notes) end))))

abbrev pub scenario_row : ℕ → Service → ScenarioSpec → Scenario
scenario_row id service spec = record {
  id = id;
  key = spec.key;
  service_id = service.id;
  title = spec.title;
  description = spec.description;
  injected_cause = spec.injected_cause;
  incident_started_at = spec.incident_started_at;
  ground_truth = ground_truth_fields spec.ground_truth;
  service = service;
}

-- Rows are added one by one; `numbered` puts a row for each item behind the table.
abbrev numbered : {A R : Type 0} → (ℕ → A → R) → List R → List A → List R
numbered row rows [] = rows
numbered row rows (a ∷ items) = numbered row (rows ++ row (length rows + 1) a ∷ []) items

abbrev timed : ℕ → ℕ → ℕ → List ℕ → List (ℕ × ℕ)
timed start step_minutes i [] = []
timed start step_minutes i (v ∷ values) =
    (start + 60 * (step_minutes * i), v) ∷ timed start step_minutes (i + 1) values

module _ (scenario_id service_id : ℕ) where
  abbrev deployment_row : ℕ → DeploymentSpec → Deployment
  deployment_row id dep = record {
    id = id;
    scenario_id = scenario_id;
    service_id = service_id;
    version = dep.version;
    deployed_at = dep.deployed_at;
    diff_summary = dep.diff_summary;
  }

  abbrev metric_row : String → ℕ → ℕ × ℕ → MetricPoint
  metric_row name id (timestamp, value) = record {
    id = id;
    scenario_id = scenario_id;
    service_id = service_id;
    metric_name = name;
    timestamp = timestamp;
    value = value;
  }

  abbrev metric_rows_of : List MetricPoint → List MetricSeriesSpec → List MetricPoint
  metric_rows_of rows [] = rows
  metric_rows_of rows (series ∷ more) =
      metric_rows_of
        (numbered (metric_row series.metric_name) rows
          (timed series.start series.step_minutes 0 series.values))
        more

  abbrev log_row : ℕ → LogSpec → LogEntry
  log_row id log = record {
    id = id;
    scenario_id = scenario_id;
    service_id = service_id;
    timestamp = log.timestamp;
    level = log.level;
    message = log.message;
  }

  abbrev dependency_row : ℕ → DependencyStatusSpec → DependencyStatus
  dependency_row id dep = record {
    id = id;
    scenario_id = scenario_id;
    dependency_name = dep.dependency_name;
    status = dep.status;
    checked_at = dep.checked_at;
  }

  -- A runbook is added only if the service has none for that symptom in the table as it was flushed:
  -- the session does not flush before a query, so rows added in the same loop are not seen.
  abbrev runbook_rows : List Runbook → List Runbook → List RunbookSpec → List Runbook
  runbook_rows flushed rows [] = rows
  runbook_rows flushed rows (r ∷ more) =
      let new : Runbook = record {
        id = length rows + 1;
        service_id = service_id;
        symptom_keyword = r.symptom_keyword;
        content = r.content;
      } in
      runbook_rows flushed
        (if is_some (
            find (λ x. (x.service_id == service_id) && str_eq x.symptom_keyword r.symptom_keyword)
              flushed)
          then rows
          else rows ++ new ∷ [])
        more

abbrev pub scenario_by_key : String → SeedTables → Option Scenario
scenario_by_key key db = find (λ s. str_eq s.key key) db.scenarios

-- The branch of `_seed_scenario` for a key that is not there.
unfoldable pub add_scenario : ScenarioSpec → SeedTables → SeedTables
add_scenario spec db =
    let (service, services) =
      get_or_create_service spec.service_name spec.service_description db.services in
    let id = length db.scenarios + 1 in
    record {
      services = services;
      scenarios = db.scenarios ++ scenario_row id service spec ∷ [];
      deployments = numbered (deployment_row id service.id) db.deployments spec.deployments;
      metric_points = metric_rows_of id service.id db.metric_points spec.metric_series;
      log_entries = numbered (log_row id service.id) db.log_entries spec.logs;
      dependency_statuses =
          numbered (dependency_row id service.id) db.dependency_statuses spec.dependency_statuses;
      runbooks = runbook_rows id service.id db.runbooks db.runbooks spec.runbooks;
    }

-- `_seed_scenario`, on the tables.
unfoldable pub seed_scenario : ScenarioSpec → SeedTables → SeedTables
seed_scenario spec db = if is_some (scenario_by_key spec.key db) then db else add_scenario spec db

-- `seed_all`: the number of scenarios seeded, and the tables.
unfoldable pub seed_all : List ScenarioSpec → SeedTables → ℕ × SeedTables
unfolding seed_scenario
seed_all [] db = (0, db)
seed_all (spec ∷ specs) db =
    let new = if is_some (scenario_by_key spec.key db) then 0 else 1 in
    let (rest, db') = seed_all specs (seed_scenario spec db) in (new + rest, db')
