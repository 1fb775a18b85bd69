-- ===== src/Api/Logging.antt =====
-- src/opspilot/logging_config.py: the payload of a log line. The text of the time and of a traceback are
-- fields of the record; the handlers and levels are not modelled.
use opspilot_sre_incident_re.Prelude.{String, Option, none, some, if◌then◌else◌}
use opspilot_sre_incident_re.Json.{Fields, text, obj, end, field, put, dumps}
use opspilot_sre_incident_re.Agent.Tracing.{is_secret}

pub record LogRecord : Type 0 where
  pub time : String
  pub level : String
  pub logger : String
  pub message : String
  pub extra_fields : Fields
  pub exception : Option String

-- The loop over the extra fields: a later key overwrites, a secret key is left out.
abbrev pub with_extras : Fields → Fields → Fields
with_extras end payload = payload
with_extras (field key v more) payload =
    with_extras more (if is_secret key then payload else put key v payload)

abbrev pub with_exception : Option String → Fields → Fields
with_exception none payload = payload
with_exception (some trace) payload = put "exc_info" (text trace) payload

unfoldable pub log_payload : LogRecord → Fields
log_payload r = with_exception r.exception (
    with_extras r.extra_fields (
      field "ts" (text r.time) (
        field "level" (text r.level)
          (field "logger" (text r.logger) (field "message" (text r.message) end)))))

-- `JsonFormatter.format`
unfoldable pub format : LogRecord → String
unfolding log_payload
format r = dumps (obj (log_payload r))
