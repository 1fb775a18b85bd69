-- ===== src/Migrations/ServiceMemories.antt =====
-- src/alembic/versions/0005_service_memory.py.
use opspilot_sre_incident_re.Prelude.{List, [], ◌∷◌, false}
use opspilot_sre_incident_re.Migrations.Schema.{
  integer, string, long_text, datetime, floating, key_column, reference, required, defaulted,
  Operation, create_table, drop_table, create_index, drop_index,
}

abbrev pub upgrade_0005 : List Operation
upgrade_0005 =
    create_table "service_memory" (
      key_column "id" integer
      ∷ reference "service_id" integer "services.id"
      ∷ reference "source_incident_id" integer "incidents.id"
      ∷ required "symptom_pattern" long_text
      ∷ required "root_cause" long_text
      ∷ required "fix_applied" (string 32)
      ∷ required "outcome" (string 32)
      ∷ required "confidence" floating
      ∷ defaulted "occurrence_count" integer "1"
      ∷ required "created_at" datetime
      ∷ [])
    ∷ create_index "ix_service_memory_service_id" "service_memory" ("service_id" ∷ []) false
    ∷ []

abbrev pub downgrade_0005 : List Operation
downgrade_0005 =
    drop_index "ix_service_memory_service_id" "service_memory" ∷ drop_table "service_memory" ∷ []
