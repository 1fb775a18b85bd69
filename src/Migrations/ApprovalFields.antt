-- ===== src/Migrations/ApprovalFields.antt =====
-- src/alembic/versions/0003_approval_fields.py.
use opspilot_sre_incident_re.Prelude.{List, [], ◌∷◌}
use opspilot_sre_incident_re.Migrations.Schema.{
  datetime, jsonb, nullable_column, Operation, add_column, drop_column,
}

abbrev pub upgrade_0003 : List Operation
upgrade_0003 =
    add_column "incidents" (nullable_column "pending_approval" jsonb)
    ∷ add_column "incidents" (nullable_column "awaiting_since" datetime)
    ∷ []

abbrev pub downgrade_0003 : List Operation
downgrade_0003 =
    drop_column "incidents" "awaiting_since" ∷ drop_column "incidents" "pending_approval" ∷ []
