-- ===== src/Migrations/IncidentsAndAuditLog.antt =====
-- src/alembic/versions/0002_incidents_and_audit_log.py.
use opspilot_sre_incident_re.Prelude.{List, [], ◌∷◌, false}
use opspilot_sre_incident_re.Migrations.Schema.{
  integer, string, long_text, datetime, jsonb, floating, key_column, reference, required,
  nullable_column, defaulted, Operation, create_table, drop_table, create_index,
}

abbrev pub upgrade_0002 : List Operation
upgrade_0002 =
    create_table "incidents" (
      key_column "id" integer
      ∷ reference "scenario_id" integer "scenarios.id"
      ∷ defaulted "status" (string 32) "open"
      ∷ nullable_column "diagnosis" jsonb
      ∷ nullable_column "steps_used" integer
      ∷ nullable_column "estimated_cost_usd" floating
      ∷ required "created_at" datetime
      ∷ nullable_column "started_at" datetime
      ∷ nullable_column "completed_at" datetime
      ∷ [])
    ∷ create_index "ix_incidents_scenario_id" "incidents" ("scenario_id" ∷ []) false
    ∷ create_table "audit_log_entries" (
        key_column "id" integer
        ∷ reference "incident_id" integer "incidents.id"
        ∷ required "step" integer
        ∷ required "tool_name" (string 64)
        ∷ required "arguments" jsonb
        ∷ nullable_column "result" jsonb
        ∷ nullable_column "error" long_text
        ∷ required "created_at" datetime
        ∷ [])
    ∷ create_index "ix_audit_log_entries_incident_id" "audit_log_entries" ("incident_id" ∷ []) false
    ∷ []

abbrev pub downgrade_0002 : List Operation
downgrade_0002 = drop_table "audit_log_entries" ∷ drop_table "incidents" ∷ []
