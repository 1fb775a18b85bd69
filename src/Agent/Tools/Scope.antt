-- ===== src/Agent/Tools/Scope.antt =====
-- The tools of src/opspilot/agent/tools.py see one scenario and one window of time, and miss nothing
-- in it, for every order that the database keeps.
use opspilot_sre_incident_re.Prelude.{
  ℕ, ◌+◌, ◌-◌, ◌*◌, ◌≤◌, ◌≡◌, ◌↔◌, String, Bool, true, ◌&&◌, Option, List, arith, ◌==◌, In, In-keep,
  keep-In, In-take, length, length-take-le,
}
use opspilot_sre_incident_re.Models.{MetricPoint, LogEntry, Scenario}
use opspilot_sre_incident_re.Agent.Tools.{
  Reader, ToolContext, in_window, passes, metric_rows, log_rows,
}

-- `ORDER BY` returns the rows that it was given, and no others.
pub record IsReader (reader : Reader) : Type 0 where
  pub metrics_keep :
      (r : MetricPoint) (rows : List MetricPoint) → In r (reader.metrics_by_time rows) ↔ In r rows
  pub logs_keep :
      (r : LogEntry) (rows : List LogEntry) → In r (reader.logs_by_time rows) ↔ In r rows

-- From `since` minutes before the incident's start to 15 minutes behind it.
abbrev pub InWindow : Scenario → ℕ → ℕ → Type 0
InWindow scenario since t =
    (scenario.incident_started_at - since * 60 ≤ t) × (t ≤ scenario.incident_started_at + 900)

test_sound :
    (a b : ℕ) (scenario : Scenario) (since t : ℕ) (c : Bool)
    → (a == b && in_window scenario since t && c) ≡ true
    → (a ≡ b) × InWindow scenario since t × (c ≡ true)
test_sound a b scenario since t c h = (ground arith, (ground arith, ground arith), ground arith)

test_complete :
    (a b : ℕ) (scenario : Scenario) (since t : ℕ) (c : Bool)
    → a ≡ b
    → InWindow scenario since t
    → c ≡ true
    → (a == b && in_window scenario since t && c) ≡ true
test_complete a b scenario since t c same (from, to) passed = ground arith

module _ (reader : Reader) (keeps : IsReader reader) (ctx : ToolContext) where
  -- The metrics that the tool returns are exactly the stored points of this scenario, inside the
  -- window, and of the metric that was asked for, if one was.
  pub metric_rows_iff :
      (name : Option String) (since : ℕ) (r : MetricPoint)
      → In r (metric_rows reader ctx name since) ↔ (
          (r.scenario_id ≡ ctx.scenario.id)
          × InWindow ctx.scenario since r.timestamp
          × (passes name r.metric_name ≡ true)
          × In r ctx.session.metric_points)
  unfolding metric_rows
  metric_rows_iff name since r = (
    λ h.
        let (q, there) =
          In-keep (kept name since) r ctx.session.metric_points ((keeps.metrics_keep r _).0 h) in
        let (same, window, passed) =
          test_sound r.scenario_id ctx.scenario.id ctx.scenario since r.timestamp
            (passes name r.metric_name) q in
        (same, window, passed, there),
    λ (same, window, passed, there). (keeps.metrics_keep r _).1 (
        keep-In (kept name since) r ctx.session.metric_points
          (test_complete r.scenario_id ctx.scenario.id ctx.scenario since r.timestamp
            (passes name r.metric_name) same window passed)
          there),
  )
    where
      kept : Option String → ℕ → MetricPoint → Bool
      kept name' since' x =
          x.scenario_id == ctx.scenario.id
          && in_window ctx.scenario since' x.timestamp
          && passes name' x.metric_name

  -- A call for logs returns at most `limit` entries, and each is a stored entry of this scenario,
  -- inside the window, and of the level that was asked for, if one was.
  log_rows-scoped :
      (level : Option String) (since limit : ℕ) (r : LogEntry)
      → In r (log_rows reader ctx level since limit)
      → (length (log_rows reader ctx level since limit) ≤ limit)
        × (r.scenario_id ≡ ctx.scenario.id)
        × InWindow ctx.scenario since r.timestamp
        × (passes level r.level ≡ true)
        × In r ctx.session.log_entries
  unfolding log_rows
  log_rows-scoped level since limit r h =
      let (q, there) =
        In-keep kept r ctx.session.log_entries ((keeps.logs_keep r _).0 (In-take limit r _ h)) in
      let (same, window, passed) =
        test_sound r.scenario_id ctx.scenario.id ctx.scenario since r.timestamp
          (passes level r.level) q in
      (length-take-le limit _, same, window, passed, there)
    where
      kept : LogEntry → Bool
      kept x =
          x.scenario_id == ctx.scenario.id
          && in_window ctx.scenario since x.timestamp
          && passes level x.level
