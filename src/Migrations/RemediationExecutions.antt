-- ===== src/Migrations/RemediationExecutions.antt =====
-- src/alembic/versions/0006_remediation_executions.py.
use opspilot_sre_incident_re.Prelude.{List, [], ◌∷◌, true}
use opspilot_sre_incident_re.Migrations.Schema.{
  integer, string, datetime, jsonb, key_column, required, Operation, create_table, drop_table,
  create_index, drop_index,
}

abbrev pub upgrade_0006 : List Operation
upgrade_0006 =
    create_table "remediation_executions" (
      key_column "id" integer
      ∷ required "idempotency_key" (string 64)
      ∷ required "thread_id" (string 128)
      ∷ required "action_type" (string 32)
      ∷ required "target" (string 128)
      ∷ required "params" jsonb
      ∷ required "result" jsonb
      ∷ required "created_at" datetime
      ∷ [])
    ∷ create_index "ix_remediation_executions_idempotency_key" "remediation_executions"
        ("idempotency_key" ∷ []) true
    ∷ []

abbrev pub downgrade_0006 : List Operation
downgrade_0006 =
    drop_index "ix_remediation_executions_idempotency_key" "remediation_executions"
    ∷ drop_table "remediation_executions"
    ∷ []
