-- ===== src/Agent/Checkpointer.antt =====
-- src/opspilot/agent/checkpointer.py: the connection string that the library's checkpointer is given. The
-- checkpointer itself is part of the `Engine` of Agent/Graph.
use opspilot_sre_incident_re.Prelude.{
  ℕ, zero, suc, String, codes, has_prefix, text_length, if◌then◌else◌, List, [], ◌∷◌,
}
use Prim.Native.String.{◌++◌}

-- `s[n:]`
abbrev pub text_drop : ℕ → String → String
text_drop zero s = s
text_drop (suc n) String.[] = ""
text_drop (suc n) (String.◌∷◌ c s) = text_drop n s

-- `s.replace(old, new, 1)`, of an old text that is not empty.
abbrev pub replace_first : String → String → String → String
replace_first old new String.[] = ""
replace_first old new (String.◌∷◌ c s) =
    let rest = replace_first old new s in
    if has_prefix (codes old) (codes (String.◌∷◌ c s))
    then new ++ text_drop (text_length old) (String.◌∷◌ c s)
    else String.◌∷◌ c rest

-- `_psycopg_conn_string`
unfoldable pub psycopg_conn_string : String → String
psycopg_conn_string database_url =
    replace_first "postgresql+psycopg://" "postgresql://" database_url

-- `_ALLOWED_MSGPACK_MODULES`
abbrev pub allowed_msgpack_modules : List (String × String)
allowed_msgpack_modules =
    ("opspilot.agent.schemas", "SubmitDiagnosisArgs")
    ∷ ("opspilot.agent.schemas", "ToolCallRecord")
    ∷ []
