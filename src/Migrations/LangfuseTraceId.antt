-- ===== src/Migrations/LangfuseTraceId.antt =====
-- src/alembic/versions/0004_langfuse_trace_id.py.
use opspilot_sre_incident_re.Prelude.{List, [], ◌∷◌}
use opspilot_sre_incident_re.Migrations.Schema.{
  string, nullable_column, Operation, add_column, drop_column,
}

abbrev pub upgrade_0004 : List Operation
upgrade_0004 = add_column "incidents" (nullable_column "langfuse_trace_id" (string 64)) ∷ []

abbrev pub downgrade_0004 : List Operation
downgrade_0004 = drop_column "incidents" "langfuse_trace_id" ∷ []
