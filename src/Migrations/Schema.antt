-- ===== src/Migrations/Schema.antt =====
-- The operations of Alembic that src/alembic/versions uses, and what they make of a schema. A table that
-- is dropped takes its indexes and constraints along; an operation on what is not there, or a second
-- table or index of one name, fails.
use opspilot_sre_incident_re.Prelude.{
  ℕ, String, Bool, true, false, not, Option, none, some, List, [], ◌∷◌, ◌++◌, any, keep, str_eq,
  if◌then◌else◌,
}

pub data ColumnType : Type 0 where
  integer long_text datetime jsonb floating : ColumnType
  string : ℕ → ColumnType

pub record Column : Type 0 where
  pub name : String
  pub kind : ColumnType
  pub primary_key : Bool
  pub nullable : Bool
  pub references : Option String
  pub server_default : Option String

abbrev pub required : String → ColumnType → Column
required name kind = record {
  name = name;
  kind = kind;
  primary_key = false;
  nullable = false;
  references = none;
  server_default = none;
}

abbrev pub key_column : String → ColumnType → Column
key_column name kind = record (required name kind) { primary_key = true }

abbrev pub reference : String → ColumnType → String → Column
reference name kind target = record (required name kind) { references = some target }

abbrev pub nullable_column : String → ColumnType → Column
nullable_column name kind = record (required name kind) { nullable = true }

abbrev pub defaulted : String → ColumnType → String → Column
defaulted name kind value = record (required name kind) { server_default = some value }

-- An index, or a unique constraint, of a table.
pub record Index : Type 0 where
  pub name : String
  pub columns : List String
  pub unique : Bool

pub record Table : Type 0 where
  pub name : String
  pub columns : List Column
  pub indexes : List Index

pub data Operation : Type 0 where
  create_table : String → List Column → Operation
  drop_table : String → Operation
  create_index : String → String → List String → Bool → Operation
  drop_index : String → String → Operation
  create_unique_constraint : String → String → List String → Operation
  add_column : String → Column → Operation
  drop_column : String → String → Operation

abbrev has_table : String → List Table → Bool
has_table name tables = any (λ t. str_eq t.name name) tables

-- The change of one table, of that name.
abbrev on_table : String → (Table → Option Table) → List Table → Option (List Table)
on_table name change [] = none
on_table name change (t ∷ tables) =
    let rest = on_table name change tables in
    if str_eq t.name name
    then (elim (change t) [ none ↦ none | some t' ↦ some (t' ∷ tables) ])
    else (elim rest [ none ↦ none | some tables' ↦ some (t ∷ tables') ])

abbrev with_index : Index → Table → Option Table
with_index index t =
    if any (λ i. str_eq i.name index.name) t.indexes
    then none
    else some (record t { indexes = t.indexes ++ index ∷ [] })

-- One operation on a schema, at the end of which new tables, columns and indexes stand.
unfoldable pub perform : Operation → List Table → Option (List Table)
perform (create_table name columns) tables =
    if has_table name tables
    then none
    else some (tables ++ record { name = name; columns = columns; indexes = [] } ∷ [])
perform (drop_table name) tables =
    if has_table name tables then some (keep (λ t. not (str_eq t.name name)) tables) else none
perform (create_index name table columns unique) tables =
    on_table table (with_index (record { name = name; columns = columns; unique = unique })) tables
perform (create_unique_constraint name table columns) tables =
    on_table table (with_index (record { name = name; columns = columns; unique = true })) tables
perform (drop_index name table) tables =
    on_table table
      (λ t.
        if any (λ i. str_eq i.name name) t.indexes
        then some (record t { indexes = keep (λ i. not (str_eq i.name name)) t.indexes })
        else none)
      tables
perform (add_column table column) tables =
    on_table table
      (λ t.
        if any (λ c. str_eq c.name column.name) t.columns
        then none
        else some (record t { columns = t.columns ++ column ∷ [] }))
      tables
perform (drop_column table column) tables =
    on_table table
      (λ t.
        if any (λ c. str_eq c.name column) t.columns
        then some (record t { columns = keep (λ c. not (str_eq c.name column)) t.columns })
        else none)
      tables

-- Operations one after another.
unfoldable pub migrate : List Operation → List Table → Option (List Table)
unfolding perform
migrate [] tables = some tables
migrate (o ∷ os) tables = elim (perform o tables) [
  | none ↦ none
  | some tables' ↦ migrate os tables'
]
