-- ===== src/Agent/Tracing.antt =====
-- src/opspilot/agent/tracing.py: what is sent to the tracing service, and the key names that
-- src/opspilot/logging_config.py redacts by too. The spans themselves are not modelled. `str.lower` is
-- that of ASCII letters.
pub mod Redaction
use opspilot_sre_incident_re.Prelude.{
  ℕ, String, Bool, true, false, ◌&&◌, Option, none, some, List, [], ◌∷◌, ◌==◌, any, codes, lower,
  if◌then◌else◌, Result, ok, err,
}

-- A Python value on its way to the service.
mutual
  pub data Value : Type 0 where
    none_value : Value
    bool_value : Bool → Value
    num_value : ℕ → Value
    text_value : String → Value
    list_value : Values → Value
    tuple_value : Values → Value
    dict_value : Entries → Value
    model_value : Entries → Value

  pub data Values : Type 0 where
    no_values : Values
    value : Value → Values → Values

  pub data Entries : Type 0 where
    no_entries : Entries
    entry : String → Value → Entries → Entries

-- `_REDACT_KEYS`
abbrev pub redact_keys : List String
redact_keys = "api_key" ∷ "authorization" ∷ "x-api-key" ∷ "password" ∷ "secret" ∷ "token" ∷ []

abbrev pub same_codes : List ℕ → List ℕ → Bool
same_codes [] [] = true
same_codes (a ∷ s) (b ∷ t) = (a == b) && same_codes s t
same_codes _ _ = false

-- `key.lower() in _REDACT_KEYS`
unfoldable pub is_secret : String → Bool
is_secret key = any (λ k. same_codes (lower key) (codes k)) redact_keys

abbrev pub redacted : Value
redacted = text_value "[REDACTED]"

unfoldable mutual
  -- `_redact`: only dicts and lists are entered.
  pub redact : Value → Value
  redact (dict_value d) = dict_value (redact_entries d)
  redact (list_value vs) = list_value (redact_values vs)
  redact none_value = none_value
  redact (bool_value b) = bool_value b
  redact (num_value n) = num_value n
  redact (text_value s) = text_value s
  redact (tuple_value vs) = tuple_value vs
  redact (model_value d) = model_value d

  pub redact_values : Values → Values
  redact_values no_values = no_values
  redact_values (value v vs) = value (redact v) (redact_values vs)

  pub redact_entries : Entries → Entries
  redact_entries no_entries = no_entries
  redact_entries (entry k v d) =
      let inner = redact v in entry k (if is_secret k then redacted else inner) (redact_entries d)

unfoldable mutual
  -- `to_jsonable`: the dump of a model is the dict of its fields.
  pub to_jsonable : Value → Value
  to_jsonable (model_value d) = dict_value (to_jsonable_entries d)
  to_jsonable (dict_value d) = dict_value (to_jsonable_entries d)
  to_jsonable (list_value vs) = list_value (to_jsonable_values vs)
  to_jsonable (tuple_value vs) = list_value (to_jsonable_values vs)
  to_jsonable none_value = none_value
  to_jsonable (bool_value b) = bool_value b
  to_jsonable (num_value n) = num_value n
  to_jsonable (text_value s) = text_value s

  pub to_jsonable_values : Values → Values
  to_jsonable_values no_values = no_values
  to_jsonable_values (value v vs) = value (to_jsonable v) (to_jsonable_values vs)

  pub to_jsonable_entries : Entries → Entries
  to_jsonable_entries no_entries = no_entries
  to_jsonable_entries (entry k v d) = entry k (to_jsonable v) (to_jsonable_entries d)

-- `get_trace_url`, on what the service's client makes of an id: a failure costs only the link.
unfoldable pub get_trace_url :
    (String → Result String (Option String)) → Option String → Option String
get_trace_url resolve none = none
get_trace_url resolve (some trace_id) = elim (resolve trace_id) [ ok url ↦ url | err e ↦ none ]
