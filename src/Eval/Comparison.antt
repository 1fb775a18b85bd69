-- ===== src/Eval/Comparison.antt =====
-- Comparing two runs one way and the other, by `compare_runs` of src/opspilot/eval/regression.py.
use opspilot_sre_incident_re.Prelude.{
  ℕ, ◌+◌, ◌<◌, ◌≡◌, refl, String, false, Option, none, some, List, [], ◌∷◌, map, leb, Bool-cases,
  inl, inr, arith,
}
use opspilot_sre_incident_re.Eval.Aggregate.{EvalRun}
use opspilot_sre_incident_re.Eval.{
  Metric, higher_is_better, MetricDelta, RegressionReport, add_metric, compare_metrics,
  compare_runs,
}

-- The entry that the same metric has in the comparison the other way round.
abbrev pub turned : MetricDelta → MetricDelta
turned d = record {
  metric = d.metric;
  baseline = d.candidate;
  candidate = d.baseline;
  delta = d.delta;
}

-- The report of the comparison the other way round.
abbrev pub mirrored : RegressionReport → RegressionReport
mirrored r = record {
  baseline_label = r.candidate_label;
  candidate_label = r.baseline_label;
  regressions = map turned r.improvements;
  improvements = map turned r.regressions;
  unchanged = r.unchanged;
}

module _ (threshold : ℕ) (positive : 0 < threshold) where
  add_metric-mirrored :
      (name : String) (b c : Option ℕ) (r : RegressionReport)
      → add_metric threshold name c b (mirrored r) ≡ mirrored (add_metric threshold name b c r)
  unfolding add_metric
  add_metric-mirrored name none none r = refl
  add_metric-mirrored name none (some c) r = refl
  add_metric-mirrored name (some b) none r = refl
  add_metric-mirrored name (some b) (some c) r = elim (Bool-cases (leb (c + threshold) b)) [
    | inl worse ↦ let no : leb (b + threshold) c ≡ false = ground arith in rw worse (rw no refl)
    | inr kept ↦ elim (Bool-cases (leb (b + threshold) c)) [
      | inl better ↦ rw kept (rw better refl)
      | inr same ↦ rw kept (rw same refl)
    ]
  ]

  metrics-mirrored :
      (baseline candidate : EvalRun) (metrics : List Metric)
      → compare_metrics threshold candidate baseline metrics
        ≡ mirrored (compare_metrics threshold baseline candidate metrics)
  unfolding compare_metrics
  metrics-mirrored baseline candidate [] = refl
  metrics-mirrored baseline candidate ((name, value) ∷ metrics) =
      rw (metrics-mirrored baseline candidate metrics) (
        add_metric-mirrored name (value baseline.aggregate) (value candidate.aggregate)
          (compare_metrics threshold baseline candidate metrics))

  -- The comparison is antisymmetric: with a positive threshold, exchanging the two runs exchanges
  -- regressions and improvements, entry by entry and of the same size, and leaves the unchanged
  -- metrics.
  pub compare_runs-mirrored :
      (baseline candidate : EvalRun)
      → compare_runs threshold candidate baseline
        ≡ mirrored (compare_runs threshold baseline candidate)
  unfolding compare_runs
  compare_runs-mirrored baseline candidate = metrics-mirrored baseline candidate higher_is_better
