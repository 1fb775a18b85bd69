-- ===== src/Migrations/Initial.antt =====
-- src/alembic/versions/0001_initial.py.
use opspilot_sre_incident_re.Prelude.{List, [], ◌∷◌, false}
use opspilot_sre_incident_re.Migrations.Schema.{
  integer, string, long_text, datetime, jsonb, floating, key_column, reference, required, defaulted,
  Operation, create_table, drop_table, create_index, create_unique_constraint,
}

abbrev pub upgrade_0001 : List Operation
upgrade_0001 =
    create_table "services" (
      key_column "id" integer
      ∷ required "name" (string 64)
      ∷ defaulted "description" long_text ""
      ∷ [])
    ∷ create_unique_constraint "uq_services_name" "services" ("name" ∷ [])
    ∷ create_index "ix_services_name" "services" ("name" ∷ []) false
    ∷ create_table "scenarios" (
        key_column "id" integer
        ∷ required "key" (string 64)
        ∷ reference "service_id" integer "services.id"
        ∷ required "title" (string 200)
        ∷ required "description" long_text
        ∷ required "injected_cause" long_text
        ∷ required "incident_started_at" datetime
        ∷ required "ground_truth" jsonb
        ∷ [])
    ∷ create_unique_constraint "uq_scenarios_key" "scenarios" ("key" ∷ [])
    ∷ create_index "ix_scenarios_key" "scenarios" ("key" ∷ []) false
    ∷ create_table "deployments" (
        key_column "id" integer
        ∷ reference "scenario_id" integer "scenarios.id"
        ∷ reference "service_id" integer "services.id"
        ∷ required "version" (string 32)
        ∷ required "deployed_at" datetime
        ∷ required "diff_summary" long_text
        ∷ [])
    ∷ create_index "ix_deployments_scenario_id" "deployments" ("scenario_id" ∷ []) false
    ∷ create_table "metric_points" (
        key_column "id" integer
        ∷ reference "scenario_id" integer "scenarios.id"
        ∷ reference "service_id" integer "services.id"
        ∷ required "metric_name" (string 32)
        ∷ required "timestamp" datetime
        ∷ required "value" floating
        ∷ [])
    ∷ create_index "ix_metric_points_scenario_id" "metric_points" ("scenario_id" ∷ []) false
    ∷ create_table "log_entries" (
        key_column "id" integer
        ∷ reference "scenario_id" integer "scenarios.id"
        ∷ reference "service_id" integer "services.id"
        ∷ required "timestamp" datetime
        ∷ required "level" (string 16)
        ∷ required "message" long_text
        ∷ [])
    ∷ create_index "ix_log_entries_scenario_id" "log_entries" ("scenario_id" ∷ []) false
    ∷ create_table "dependency_statuses" (
        key_column "id" integer
        ∷ reference "scenario_id" integer "scenarios.id"
        ∷ required "dependency_name" (string 64)
        ∷ required "status" (string 16)
        ∷ required "checked_at" datetime
        ∷ [])
    ∷ create_index "ix_dependency_statuses_scenario_id" "dependency_statuses" ("scenario_id" ∷ [])
        false
    ∷ create_table "runbooks" (
        key_column "id" integer
        ∷ reference "service_id" integer "services.id"
        ∷ required "symptom_keyword" (string 64)
        ∷ required "content" long_text
        ∷ [])
    ∷ create_index "ix_runbooks_service_id" "runbooks" ("service_id" ∷ []) false
    ∷ []

abbrev pub downgrade_0001 : List Operation
downgrade_0001 =
    drop_table "runbooks"
    ∷ drop_table "dependency_statuses"
    ∷ drop_table "log_entries"
    ∷ drop_table "metric_points"
    ∷ drop_table "deployments"
    ∷ drop_table "scenarios"
    ∷ drop_table "services"
    ∷ []
