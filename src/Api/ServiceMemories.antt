-- ===== src/Api/ServiceMemories.antt =====
-- src/opspilot/routers/memory.py: the memory of a service, and the removal of an entry.
use opspilot_sre_incident_re.Prelude.{ℕ, String, not, none, some, List, find, keep, ◌==◌, str_eq}
use opspilot_sre_incident_re.Models.{Service, ServiceMemory}
use opspilot_sre_incident_re.Memory.{MemoryTable, MemoryOrder, list_service_memory}
use opspilot_sre_incident_re.Incidents.Applying.{Reply, refused, shown}

-- `GET /services/{name}/memory`
unfoldable pub get_service_memory :
    MemoryOrder → String → List Service → MemoryTable → Reply (List ServiceMemory)
get_service_memory order name services table = elim (find (λ s. str_eq s.name name) services) [
  | none ↦ refused 404
  | some service ↦ shown (list_service_memory order table service.id)
]

-- `DELETE /memory/{memory_id}`, answered with no content.
unfoldable pub delete_memory_entry : ℕ → MemoryTable → Reply (Unit {0}) × MemoryTable
delete_memory_entry memory_id table = elim (find (λ r. r.id == memory_id) table.rows) [
  | none ↦ (refused 404, table)
  | some row ↦ (shown tt, record table { rows = keep (λ r. not (r.id == memory_id)) table.rows })
]
