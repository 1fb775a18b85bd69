-- ===== src/Api/Application.antt =====
-- src/opspilot/main.py: the limit on request bodies, the handler of exceptions and the liveness probe.
-- Python's `int` of a header is a parameter.
use opspilot_sre_incident_re.Prelude.{
  ℕ, String, Bool, false, Option, none, some, List, [], ◌∷◌, ltb, if◌then◌else◌,
}
use opspilot_sre_incident_re.Config.{Settings}
use opspilot_sre_incident_re.Incidents.Applying.{Reply, refused, broken, shown}

pub data ℤ : Type 0 where
  pos : ℕ → ℤ
  negsuc : ℕ → ℤ

-- `declared_size is not None and declared_size > settings.max_request_body_bytes`
abbrev pub oversized : ℕ → Option ℤ → Bool
oversized limit none = false
oversized limit (some (pos n)) = ltb limit n
oversized limit (some (negsuc n)) = false

module _ (parse_int : String → Option ℤ) where
  -- The size that a `content-length` header declares, if it is a number.
  abbrev pub declared_size : Option String → Option ℤ
  declared_size none = none
  declared_size (some content_length) = parse_int content_length

  -- `MaxBodySizeMiddleware.dispatch`, around what the application replies and the store behind it.
  unfoldable pub dispatch :
      {A D : Type 0} → Settings → Option String → (D → Reply A × D) → D → Reply A × D
  dispatch settings content_length call_next db =
      if oversized settings.max_request_body_bytes (declared_size content_length)
      then (refused 413, db)
      else call_next db

-- `unhandled_exception_handler`
unfoldable pub handled : {A : Type 0} → Reply A → Reply A
handled (broken e) = refused 500
handled (refused code) = refused code
handled (shown a) = shown a

-- `health`
abbrev pub health : String × String
health = ("status", "ok")

-- The methods that `CORSMiddleware` allows to other origins.
abbrev pub allow_methods : List String
allow_methods = "GET" ∷ "POST" ∷ []
