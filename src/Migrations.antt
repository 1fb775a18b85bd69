-- ===== src/Migrations.antt =====
-- src/alembic: the revisions of the schema, in the order of their `down_revision`s.
pub mod Schema
pub mod Initial
pub mod IncidentsAndAuditLog
pub mod ApprovalFields
pub mod LangfuseTraceId
pub mod ServiceMemories
pub mod RemediationExecutions
use opspilot_sre_incident_re.Prelude.{◌≡◌, refl, String, Option, none, some, List, [], ◌∷◌}
use opspilot_sre_incident_re.Migrations.Schema.{Operation, Table, perform, migrate}
use opspilot_sre_incident_re.Migrations.Initial.{upgrade_0001, downgrade_0001}
use opspilot_sre_incident_re.Migrations.IncidentsAndAuditLog.{upgrade_0002, downgrade_0002}
use opspilot_sre_incident_re.Migrations.ApprovalFields.{upgrade_0003, downgrade_0003}
use opspilot_sre_incident_re.Migrations.LangfuseTraceId.{upgrade_0004, downgrade_0004}
use opspilot_sre_incident_re.Migrations.ServiceMemories.{upgrade_0005, downgrade_0005}
use opspilot_sre_incident_re.Migrations.RemediationExecutions.{upgrade_0006, downgrade_0006}

-- A revision: its id, what it builds on, and its two ways.
pub record Revision : Type 0 where
  pub revision : String
  pub down_revision : Option String
  pub upgrade : List Operation
  pub downgrade : List Operation

abbrev pub revisions : List Revision
revisions =
    record {
      revision = "0001";
      down_revision = none;
      upgrade = upgrade_0001;
      downgrade = downgrade_0001;
    }
    ∷ record {
      revision = "0002";
      down_revision = some "0001";
      upgrade = upgrade_0002;
      downgrade = downgrade_0002;
    }
    ∷ record {
      revision = "0003";
      down_revision = some "0002";
      upgrade = upgrade_0003;
      downgrade = downgrade_0003;
    }
    ∷ record {
      revision = "0004";
      down_revision = some "0003";
      upgrade = upgrade_0004;
      downgrade = downgrade_0004;
    }
    ∷ record {
      revision = "0005";
      down_revision = some "0004";
      upgrade = upgrade_0005;
      downgrade = downgrade_0005;
    }
    ∷ record {
      revision = "0006";
      down_revision = some "0005";
      upgrade = upgrade_0006;
      downgrade = downgrade_0006;
    }
    ∷ []

-- Upgrading and downgrading again, each revision on the schema behind those before it.
unfoldable pub Returns : List Revision → List Table → Type 0
unfolding migrate
Returns [] tables = Unit
Returns (r ∷ more) tables = elim (migrate r.upgrade tables) [
  | none ↦ ⊥
  | some upgraded ↦ (migrate r.downgrade upgraded ≡ some tables) × Returns more upgraded
]

-- Every revision can be upgraded to and downgraded from again.
revisions-Returns : Returns revisions []
unfolding Returns perform migrate
revisions-Returns = (refl, (refl, (refl, (refl, (refl, (refl, tt))))))
