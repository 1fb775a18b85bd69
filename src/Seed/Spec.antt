-- ===== src/Seed/Spec.antt =====
-- The records of src/opspilot/seed/scenarios.py and its two pure helpers. Times are seconds since the
-- epoch; metric values are thousandths, the places that `_ramp` rounds to.
use opspilot_sre_incident_re.Prelude.{
  ℕ, zero, suc, ◌+◌, ◌-◌, ◌*◌, ◌/◌, String, List, [], ◌∷◌, leb, rounded, if◌then◌else◌,
}

pub record DeploymentSpec : Type 0 where
  pub version : String
  pub deployed_at : ℕ
  pub diff_summary : String

pub record MetricSeriesSpec : Type 0 where
  pub metric_name : String
  pub start : ℕ
  pub step_minutes : ℕ
  pub values : List ℕ

pub record LogSpec : Type 0 where
  pub timestamp : ℕ
  pub level : String
  pub message : String

pub record DependencyStatusSpec : Type 0 where
  pub dependency_name : String
  pub status : String
  pub checked_at : ℕ

pub record RunbookSpec : Type 0 where
  pub symptom_keyword : String
  pub content : String

pub record GroundTruthSpec : Type 0 where
  pub expected_evidence : List String
  pub expected_diagnosis : String
  pub expected_action : String
  pub expected_policy_verdict : String
  pub notes : String

pub record ScenarioSpec : Type 0 where
  pub key : String
  pub service_name : String
  pub service_description : String
  pub title : String
  pub description : String
  pub injected_cause : String
  pub incident_started_at : ℕ
  pub ground_truth : GroundTruthSpec
  pub deployments : List DeploymentSpec
  pub metric_series : List MetricSeriesSpec
  pub logs : List LogSpec
  pub dependency_statuses : List DependencyStatusSpec
  pub runbooks : List RunbookSpec

-- Days from 1 January 1970 to a date: the year is counted from March.
abbrev days : ℕ → ℕ → ℕ → ℕ
days y m d =
    let year = if leb m 2 then y - 1 else y in
    let month = if leb m 2 then m + 9 else m - 3 in
    (365 * year + year / 4 + year / 400 + (153 * month + 2) / 5 + d) - (year / 100 + 719469)

-- `_utc`
abbrev pub utc : ℕ → ℕ → ℕ → ℕ → ℕ → ℕ → ℕ
utc y m d hh mm ss = days y m d * 86400 + hh * 3600 + mm * 60 + ss

abbrev ramp_from : ℕ → ℕ → ℕ → ℕ → ℕ → List ℕ
ramp_from start rise gaps i zero = []
ramp_from start rise gaps i (suc n) =
    (start + rounded (rise * i) gaps) ∷ ramp_from start rise gaps (i + 1) n

-- `_ramp`, of values that do not fall.
abbrev pub ramp : ℕ → ℕ → ℕ → List ℕ
ramp start end steps =
    if leb steps 1 then end ∷ [] else ramp_from start (end - start) (steps - 1) 0 steps
