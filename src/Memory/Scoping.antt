-- ===== src/Memory/Scoping.antt =====
-- Reads of src/opspilot/memory.py are scoped to one service, for every order that the database keeps.
use opspilot_sre_incident_re.Prelude.{
  ℕ, ◌≤◌, ◌≡◌, ◌↔◌, true, List, arith, ◌==◌, In, In-keep, keep-In, In-take, length, length-take-le,
}
use opspilot_sre_incident_re.Models.{ServiceMemory}
use opspilot_sre_incident_re.Memory.{
  MemoryTable, MemoryOrder, list_service_memory, retrieve_relevant_memory,
}

-- `ORDER BY` returns the rows that it was given, and no others.
pub record IsMemoryOrder (order : MemoryOrder) : Type 0 where
  pub newest_keeps :
      (r : ServiceMemory) (rows : List ServiceMemory) → In r (order.newest_first rows) ↔ In r rows
  pub relevant_keeps :
      (r : ServiceMemory) (rows : List ServiceMemory)
      → In r (order.most_relevant_first rows) ↔ In r rows

of_same_service : (a b : ℕ) → (a == b) ≡ true → a ≡ b
of_same_service a b h = ground arith

same_service : (a b : ℕ) → a ≡ b → (a == b) ≡ true
same_service a b h = ground arith

module _ (order : MemoryOrder) (ordered : IsMemoryOrder order) (table : MemoryTable)
    (service_id : ℕ) where
  -- The list of a service's memory holds exactly the rows of the table that are this service's.
  list_service_memory_iff :
      (r : ServiceMemory)
      → In r (list_service_memory order table service_id)
        ↔ ((r.service_id ≡ service_id) × In r table.rows)
  unfolding list_service_memory
  list_service_memory_iff r = (
    λ h.
        let (q, there) =
          In-keep (λ (x : ServiceMemory). x.service_id == service_id) r table.rows
            ((ordered.newest_keeps r _).0 h) in
        (of_same_service r.service_id service_id q, there),
    λ h. (ordered.newest_keeps r _).1 (
        keep-In (λ (x : ServiceMemory). x.service_id == service_id) r table.rows
          (same_service r.service_id service_id h.0) h.1),
  )

  -- What is surfaced to the model is at most `limit` rows, each of them a row of the table of this
  -- very service.
  pub retrieve_relevant_memory-scoped :
      (limit : ℕ) (r : ServiceMemory)
      → In r (retrieve_relevant_memory order table service_id limit)
      → (length (retrieve_relevant_memory order table service_id limit) ≤ limit)
        × (r.service_id ≡ service_id)
        × In r table.rows
  unfolding retrieve_relevant_memory
  retrieve_relevant_memory-scoped limit r h =
      let (q, there) =
        In-keep (λ (x : ServiceMemory). x.service_id == service_id) r table.rows
          ((ordered.relevant_keeps r _).0 (In-take limit r _ h)) in
      (length-take-le limit _, of_same_service r.service_id service_id q, there)
