-- ===== src/Auth.antt =====
-- src/opspilot/auth.py: the API key and the rate limit. `_request_log` is a function from identities to
-- their buckets, oldest request first; the monotonic clock is an argument. Keys are ASCII texts.
pub mod Window
pub mod Limit
use opspilot_sre_incident_re.Prelude.{
  ℕ, ◌+◌, String, Option, none, some, List, [], ◌∷◌, ◌++◌, ltb, leb, str_eq, if◌then◌else◌, length,
}
use opspilot_sre_incident_re.Config.{Settings}

abbrev pub RequestLog : Type 0
RequestLog = String → List ℕ

-- What a request is told: 401, 429, or that it may go on.
pub data Verdict : Type 0 where
  unauthorized too_many allowed : Verdict

-- The loop that drops what has left the window: `bucket[0] < now - window`, with the sum on the
-- other side since the difference can be negative.
abbrev pub expire : ℕ → ℕ → List ℕ → List ℕ
expire now window [] = []
expire now window (t ∷ bucket) =
    let rest = expire now window bucket in if ltb (t + window) now then rest else t ∷ bucket

abbrev pub set_bucket : String → List ℕ → RequestLog → RequestLog
set_bucket identity bucket requests other = if str_eq other identity then bucket else requests other

-- `_check_rate_limit`
unfoldable pub check_rate_limit : Settings → ℕ → String → RequestLog → Verdict × RequestLog
check_rate_limit settings now identity requests =
    let bucket = expire now settings.rate_limit_window_seconds (requests identity) in
    if leb settings.rate_limit_max_requests (length bucket)
    then (too_many, set_bucket identity bucket requests)
    else (allowed, set_bucket identity (bucket ++ now ∷ []) requests)

-- `require_api_key`
unfoldable pub require_api_key : Settings → ℕ → Option String → RequestLog → Verdict × RequestLog
unfolding check_rate_limit
require_api_key settings now none requests = (unauthorized, requests)
require_api_key settings now (some key) requests =
    if str_eq key settings.api_key
    then check_rate_limit settings now key requests
    else (unauthorized, requests)
