-- ===== src/Agent/Tools.antt =====
-- src/opspilot/agent/tools.py: the five read-only tools. The tables are lists of rows; `ORDER BY` and
-- `isoformat` are parameters; arguments come validated by Pydantic, whose declared bounds are
-- `IsToolArgs`. The schemas that are sent to the model are not modelled.
pub mod Scope
use opspilot_sre_incident_re.Prelude.{
  ℕ, ◌+◌, ◌-◌, ◌*◌, ◌≤◌, String, Bool, true, false, ◌&&◌, ◌||◌, Option, none, some, List, [], ◌∷◌,
  leb, ◌==◌, str_eq, if◌then◌else◌, keep, take, text_length, has_infix, lower,
}
use opspilot_sre_incident_re.Json.{
  Json, Fields, Items, null, bool, num, float, text, arr, obj, nil, cons, end, field,
}
use opspilot_sre_incident_re.Models.{
  Scenario, MetricPoint, LogEntry, Deployment, DependencyStatus, Runbook,
}

-- The tables that the tools read.
pub record Environment : Type 0 where
  pub metric_points : List MetricPoint
  pub log_entries : List LogEntry
  pub deployments : List Deployment
  pub dependency_statuses : List DependencyStatus
  pub runbooks : List Runbook

pub record ToolContext : Type 0 where
  pub session : Environment
  pub scenario : Scenario

-- The orders that the queries ask the database for, and the text of a time.
pub record Reader : Type 0 where
  pub metrics_by_time : List MetricPoint → List MetricPoint
  pub logs_by_time : List LogEntry → List LogEntry
  pub deployments_by_time : List Deployment → List Deployment
  pub dependencies_by_name : List DependencyStatus → List DependencyStatus
  pub isoformat : ℕ → String

-- `TOOL_REGISTRY`: the tools by name.
pub data Tool : Type 0 where
  get_metrics get_logs get_recent_deployments get_dependency_status get_runbook : Tool

abbrev pub tool_registry : List (String × Tool)
tool_registry =
    ("get_metrics", get_metrics)
    ∷ ("get_logs", get_logs)
    ∷ ("get_recent_deployments", get_recent_deployments)
    ∷ ("get_dependency_status", get_dependency_status)
    ∷ ("get_runbook", get_runbook)
    ∷ []

-- Validated arguments: `GetMetricsArgs`, `GetLogsArgs`, `GetRecentDeploymentsArgs`,
-- `GetDependencyStatusArgs` and `GetRunbookArgs`.
pub data ToolArgs : Type 0 where
  metrics_args : Option String → ℕ → ToolArgs
  logs_args : Option String → ℕ → ℕ → ToolArgs
  deployments_args : ℕ → ToolArgs
  dependency_status_args : ToolArgs
  runbook_args : String → ToolArgs

-- The arguments that a tool's model yields, within its declared bounds.
abbrev pub IsToolArgs : Tool → ToolArgs → Type 0
IsToolArgs get_metrics (metrics_args name since) = (1 ≤ since) × (since ≤ 10080)
IsToolArgs get_logs (logs_args level since limit) =
    (1 ≤ since) × (since ≤ 10080) × (1 ≤ limit) × (limit ≤ 100)
IsToolArgs get_recent_deployments (deployments_args since) = (1 ≤ since) × (since ≤ 10080)
IsToolArgs get_dependency_status dependency_status_args = Unit
IsToolArgs get_runbook (runbook_args keyword) = 2 ≤ text_length keyword
IsToolArgs _ _ = ⊥

abbrev text_or_null : Option String → Json
text_or_null none = null
text_or_null (some s) = text s

-- `validated_args.model_dump()`
pub dump_args : ToolArgs → Fields
dump_args (metrics_args name since) =
    field "metric_name" (text_or_null name) (field "since_minutes" (num since) end)
dump_args (logs_args level since limit) =
    field "level" (text_or_null level)
      (field "since_minutes" (num since) (field "limit" (num limit) end))
dump_args (deployments_args since) = field "since_minutes" (num since) end
dump_args dependency_status_args = end
dump_args (runbook_args keyword) = field "symptom_keyword" (text keyword) end

-- `_window`: from so many minutes before the incident's start to 15 minutes behind it.
abbrev pub window : Scenario → ℕ → ℕ × ℕ
window scenario since_minutes =
    (scenario.incident_started_at - since_minutes * 60, scenario.incident_started_at + 15 * 60)

abbrev pub in_window : Scenario → ℕ → ℕ → Bool
in_window scenario since_minutes t =
    let (start, stop) = window scenario since_minutes in leb start t && leb t stop

-- A filter that is applied if the argument is a text with characters.
abbrev pub passes : Option String → String → Bool
passes none s = true
passes (some wanted) s = if str_eq wanted "" then true else str_eq s wanted

abbrev items_of {ℓ} : {A : Type ℓ} → (A → Fields) → List A → Items
items_of f [] = nil
items_of f (x ∷ xs) = cons (obj (f x)) (items_of f xs)

module _ (reader : Reader) (ctx : ToolContext) where
  -- The query of `get_metrics`.
  unfoldable pub metric_rows : Option String → ℕ → List MetricPoint
  metric_rows name since = reader.metrics_by_time (
      keep
        (λ r.
          r.scenario_id == ctx.scenario.id
          && in_window ctx.scenario since r.timestamp
          && passes name r.metric_name)
        ctx.session.metric_points)

  -- The query of `get_logs`, its limit last.
  unfoldable pub log_rows : Option String → ℕ → ℕ → List LogEntry
  log_rows level since limit = take limit (
      reader.logs_by_time (
        keep
          (λ r.
            r.scenario_id == ctx.scenario.id
            && in_window ctx.scenario since r.timestamp
            && passes level r.level)
          ctx.session.log_entries))

  -- The query of `get_recent_deployments`.
  unfoldable pub deployment_rows : ℕ → List Deployment
  deployment_rows since = reader.deployments_by_time (
      keep (λ r. r.scenario_id == ctx.scenario.id && in_window ctx.scenario since r.deployed_at)
        ctx.session.deployments)

  -- The query of `get_dependency_status`.
  unfoldable pub dependency_rows : List DependencyStatus
  dependency_rows =
      reader.dependencies_by_name
        (keep (λ r. r.scenario_id == ctx.scenario.id) ctx.session.dependency_statuses)

  -- The loop of `get_runbook` over the service's runbooks.
  pub match_runbook : String → List Runbook → Fields
  match_runbook keyword [] =
      field "found" (bool false) (field "symptom_keyword" (text keyword) (field "content" null end))
  match_runbook keyword (r ∷ rows) =
      if has_infix (lower keyword) (lower r.symptom_keyword)
        || has_infix (lower r.symptom_keyword) (lower keyword)
      then field "found" (bool true)
          (field "symptom_keyword" (text r.symptom_keyword) (field "content" (text r.content) end))
      else match_runbook keyword rows

  -- A tool's handler, on the arguments of its own model.
  pub run_tool : ToolArgs → Json
  unfolding metric_rows log_rows deployment_rows dependency_rows match_runbook
  run_tool (metrics_args name since) = arr (
      items_of
        (λ r. field "metric_name" (text r.metric_name) (
          field "timestamp" (text (reader.isoformat r.timestamp))
            (field "value" (float (r.value * 1000)) end)))
        (metric_rows name since))
  run_tool (logs_args level since limit) = arr (
      items_of
        (λ r.
          field "timestamp" (text (reader.isoformat r.timestamp))
            (field "level" (text r.level) (field "message" (text r.message) end)))
        (log_rows level since limit))
  run_tool (deployments_args since) = arr (
      items_of
        (λ r. field "version" (text r.version) (
          field "deployed_at" (text (reader.isoformat r.deployed_at))
            (field "diff_summary" (text r.diff_summary) end)))
        (deployment_rows since))
  run_tool dependency_status_args = arr (
      items_of
        (λ r. field "dependency_name" (text r.dependency_name) (
          field "status" (text r.status)
            (field "checked_at" (text (reader.isoformat r.checked_at)) end)))
        dependency_rows)
  run_tool (runbook_args keyword) = obj (
      match_runbook keyword
        (keep (λ r. r.service_id == ctx.scenario.service_id) ctx.session.runbooks))
