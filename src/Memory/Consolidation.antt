-- ===== src/Memory/Consolidation.antt =====
-- `consolidate_service_memory` of src/opspilot/memory.py. A group is its first row, the survivor, and
-- the stale rows behind it.
use opspilot_sre_incident_re.Prelude.{
  ℕ, ◌+◌, ◌≡◌, refl, Bool, ◌&&◌, not, List, [], ◌∷◌, ◌++◌, map, ltb, ◌==◌, str_eq, if◌then◌else◌,
  keep, any, length, arith, Bool-cases, inl, inr,
}
use opspilot_sre_incident_re.Models.{ServiceMemory}
use opspilot_sre_incident_re.Memory.{MemoryTable, MemoryOrder, list_service_memory}

abbrev pub Group : Type 0
Group = ServiceMemory × List ServiceMemory

-- The key of a group: symptom pattern and fix.
abbrev same_key : ServiceMemory → ServiceMemory → Bool
same_key a b = str_eq a.symptom_pattern b.symptom_pattern && str_eq a.fix_applied b.fix_applied

-- `groups.setdefault(key, []).append(row)`
abbrev add_to : ServiceMemory → List Group → List Group
add_to row [] = (row, []) ∷ []
add_to row ((survivor, stale) ∷ groups) =
    if same_key survivor row
    then (survivor, stale ++ row ∷ []) ∷ groups
    else (survivor, stale) ∷ add_to row groups

abbrev grouped : List Group → List ServiceMemory → List Group
grouped groups [] = groups
grouped groups (row ∷ rows) = grouped (add_to row groups) rows

abbrev pub groups_of : List ServiceMemory → List Group
groups_of rows = grouped [] rows

abbrev pub occurrences : List ServiceMemory → ℕ
occurrences [] = 0
occurrences (row ∷ rows) = row.occurrence_count + occurrences rows

abbrev best : ℕ → List ServiceMemory → ℕ
best c [] = c
best c (row ∷ rows) = best (if ltb c row.confidence then row.confidence else c) rows

-- The survivor's new row: one alone is left as it is.
abbrev pub merged : Group → ServiceMemory
merged (survivor, []) = survivor
merged (survivor, row ∷ stale) = record survivor {
  occurrence_count = occurrences (survivor ∷ row ∷ stale);
  confidence = best survivor.confidence (row ∷ stale);
}

-- A group's rows in the table: the survivor updated, the stale rows deleted.
abbrev settle_group : List ServiceMemory → Group → List ServiceMemory
settle_group rows (survivor, stale) =
    map (λ r. if r.id == survivor.id then merged (survivor, stale) else r)
      (keep (λ r. not (any (λ x. x.id == r.id) stale)) rows)

abbrev settle : List ServiceMemory → List Group → List ServiceMemory
settle rows [] = rows
settle rows (group ∷ groups) = settle (settle_group rows group) groups

abbrev pub stale_count : List Group → ℕ
stale_count [] = 0
stale_count ((survivor, stale) ∷ groups) = length stale + stale_count groups

-- `consolidate_service_memory`: the number of rows removed, and the table.
unfoldable pub consolidate_service_memory : MemoryOrder → MemoryTable → ℕ → ℕ × MemoryTable
consolidate_service_memory order table service_id =
    let groups = groups_of (list_service_memory order table service_id) in
    (stale_count groups, record table { rows = settle table.rows groups })

abbrev pub survivors : List Group → List ServiceMemory
survivors [] = []
survivors (group ∷ groups) = merged group ∷ survivors groups

occurrences-snoc :
    (rows : List ServiceMemory) (row : ServiceMemory)
    → occurrences (rows ++ row ∷ []) ≡ occurrences rows + row.occurrence_count
occurrences-snoc [] row = ground arith
occurrences-snoc (r ∷ rows) row = let ih = occurrences-snoc rows row in ground arith

occurrences-merged :
    (survivor : ServiceMemory) (stale : List ServiceMemory)
    → (merged (survivor, stale)).occurrence_count ≡ survivor.occurrence_count + occurrences stale
occurrences-merged survivor [] = ground arith
occurrences-merged survivor (row ∷ stale) = refl

occurrences-add_to :
    (row : ServiceMemory) (groups : List Group)
    → occurrences (survivors (add_to row groups))
      ≡ occurrences (survivors groups) + row.occurrence_count
occurrences-add_to row [] = ground arith
occurrences-add_to row ((survivor, stale) ∷ groups) = elim (Bool-cases (same_key survivor row)) [
  | inl hit ↦ rw hit (
      let a = occurrences-merged survivor (stale ++ row ∷ []) in
      let b = occurrences-merged survivor stale in
      let c = occurrences-snoc stale row in ground arith)
  | inr miss ↦ rw miss (let ih = occurrences-add_to row groups in ground arith)
]

occurrences-grouped :
    (groups : List Group) (rows : List ServiceMemory)
    → occurrences (survivors (grouped groups rows))
      ≡ occurrences (survivors groups) + occurrences rows
occurrences-grouped groups [] = ground arith
occurrences-grouped groups (row ∷ rows) =
    let ih = occurrences-grouped (add_to row groups) rows in
    let new = occurrences-add_to row groups in ground arith

-- Grouping the rows of a service and merging each group conserves the confirmations: the counts of
-- the survivors add up to the counts of all the rows.
pub consolidate-occurrences :
    (rows : List ServiceMemory) → occurrences (survivors (groups_of rows)) ≡ occurrences rows
consolidate-occurrences rows = let h = occurrences-grouped [] rows in ground arith
