-- ===== src/Agent/Idempotency.antt =====
-- src/opspilot/agent/idempotency.py: the guard of a remediation by its key. The
-- table is a list of its rows, newest first; `sha256` is a parameter. An executor is a function of
-- the world that it acts on. Each call commits its own session, so its row stays.
pub mod Once
pub mod Race
use Prim.Native.Nat.{Ordering}
use Prim.Native.String.{compare}
use opspilot_sre_incident_re.Prelude.{
  ℕ, String, Bool, true, false, Option, none, some, List, [], ◌∷◌, str_eq, if◌then◌else◌,
}
use opspilot_sre_incident_re.Json.{
  Json, Items, Fields, null, bool, num, float, text, arr, obj, nil, cons, end, field, dumps,
}

-- A field's place among fields that are sorted by their keys.
insert_field : String → Json → Fields → Fields
insert_field k v end = field k v end
insert_field k v (field j w d) = elim (compare k j) [
  | Ordering.gt ↦ field j w (insert_field k v d)
  | _ ↦ field k v (field j w d)
]

unfoldable mutual
  unfolding insert_field

  -- A value as `sort_keys=True` writes it.
  pub sort_keys : Json → Json
  sort_keys null = null
  sort_keys (bool b) = bool b
  sort_keys (num n) = num n
  sort_keys (float n) = float n
  sort_keys (text s) = text s
  sort_keys (arr xs) = arr (sort_items xs)
  sort_keys (obj d) = obj (sort_fields d)

  pub sort_items : Items → Items
  sort_items nil = nil
  sort_items (cons v r) = cons (sort_keys v) (sort_items r)

  pub sort_fields : Fields → Fields
  sort_fields end = end
  sort_fields (field k v d) = insert_field k (sort_keys v) (sort_fields d)

-- The action that a key stands for: `thread_id`, `action_type`, `target` and `params`.
pub record Action : Type 0 where
  pub thread_id : String
  pub action_type : String
  pub target : String
  pub params : Fields

pub record RemediationExecution : Type 0 where
  pub idempotency_key : String
  pub thread_id : String
  pub action_type : String
  pub target : String
  pub params : Fields
  pub result : Fields
  pub created_at : ℕ

-- The unique column `idempotency_key` of a table of executions.
unfoldable pub existing : String → List RemediationExecution → Option RemediationExecution
existing k [] = none
existing k (r ∷ rows) = if str_eq r.idempotency_key k then some r else existing k rows

-- The text that is hashed.
unfoldable pub key_payload : Action → String
unfolding sort_keys
key_payload a = dumps (
    sort_keys (
      obj (
        field "thread_id" (text a.thread_id) (
          field "action_type" (text a.action_type)
            (field "target" (text a.target) (field "params" (obj a.params) end))))))

module _ (sha256 : String → String) where
  -- `_idempotency_key`
  unfoldable pub idempotency_key : Action → String
  unfolding key_payload
  idempotency_key a = sha256 (key_payload a)

  -- The row that a first execution leaves.
  abbrev pub execution_row : Action → Fields → ℕ → RemediationExecution
  execution_row a result now = record {
    idempotency_key = idempotency_key a;
    thread_id = a.thread_id;
    action_type = a.action_type;
    target = a.target;
    params = a.params;
    result = result;
    created_at = now;
  }

  -- The result, whether it was deduplicated, the table, and the world that the executor left.
  unfoldable pub execute_idempotently :
      {W : Type 0}
      → Action
      → (W → Fields × W)
      → ℕ
      → List RemediationExecution
      → W
      → Fields × Bool × List RemediationExecution × W
  unfolding existing
  execute_idempotently a executor now rows w = elim (existing (idempotency_key a) rows) [
    | some row ↦ (row.result, true, rows, w)
    | none ↦
        (let (result, w') = executor w in (result, false, execution_row a result now ∷ rows, w'))
  ]
