-- ===== src/Eval/Aggregate/Rates.antt =====
-- The rates of an evaluation by src/opspilot/eval/runner.py: each is a part of the whole.
use opspilot_sre_incident_re.Prelude.{
  ℕ, suc, ◌+◌, ◌*◌, ◌≤◌, ◌<◌, ◌≡◌, Bool, true, false, Option, none, some, List, [], ◌∷◌, map, keep,
  length, length-keep, rounded-le, All, get_or, arith,
}
use native.Mathlib.Nat.{mul-le-mul_left, mul-suc}
use opspilot_sre_incident_re.Eval.Judge.{JudgeScores, IsJudgement, score_unit}
use opspilot_sre_incident_re.Eval.Aggregate.{
  ScenarioEvalResult, AggregateScores, rate_unit, sum, present, mean_of, mean, counted,
  counted_some, is_reached, completion_of, aggregate,
}

-- At most the whole, if it is there.
abbrev pub Within : ℕ → Option ℕ → Type 0
Within unit none = Unit
Within unit (some n) = n ≤ unit

sum-le :
    (unit : ℕ) (values : List ℕ) → All (λ v. v ≤ unit) values → sum values ≤ unit * length values
sum-le unit [] h = omega arith
sum-le unit (v ∷ values) (first, more) =
    rw (mul-suc unit (length values)) (omega (arith, sum-le unit values more))

mean_of-Within :
    (unit : ℕ) (values : List ℕ)
    → 0 < unit
    → All (λ v. v ≤ unit) values
    → Within rate_unit (mean_of unit values)
mean_of-Within unit [] positive h = tt
mean_of-Within unit (v ∷ values) above h =
    let whole : unit * suc (length values) ≡ unit * length values + unit =
      mul-suc unit (length values) in
    let positive : 0 < unit * length (v ∷ values) = rw whole (omega arith) in
    rounded-le _ (unit * length (v ∷ values)) rate_unit positive
      (mul-le-mul_left rate_unit (sum-le unit (v ∷ values) h))

-- The present values of a list whose items have a property.
present-All :
    {A : Type 0} (P : A → Type 0) (unit : ℕ) (f : A → Option ℕ) (xs : List A)
    → ((a : A) → P a → Within unit (f a))
    → All P xs
    → All (λ v. v ≤ unit) (present (map f xs))
present-All P unit f [] each h = tt
present-All P unit f (x ∷ xs) each (first, more) =
    put (f x) (each x first) (present-All P unit f xs each more)
  where
    put :
        (o : Option ℕ)
        → Within unit o
        → All (λ v. v ≤ unit) (present (map f xs))
        → All (λ v. v ≤ unit) (present (o ∷ map f xs))
    put none h k = k
    put (some v) h k = (h, k)

module _ {A : Type 0} (P : A → Type 0) (unit : ℕ) (f : A → Option ℕ) (xs : List A) where
  -- A mean of values that are at most their unit.
  mean-Within :
      0 < unit
      → ((a : A) → P a → Within unit (f a))
      → All P xs
      → Within rate_unit (mean unit (map f xs))
  unfolding mean
  mean-Within positive each h =
      mean_of-Within unit (present (map f xs)) positive (present-All P unit f xs each h)

counted-le : (b : Bool) → counted b ≤ 1
counted-le true = omega arith
counted-le false = omega arith

counted_some-Within : (o : Option Bool) → Within 1 (counted_some o)
counted_some-Within none = tt
counted_some-Within (some b) = counted-le b

get_or-Within : (o : Option ℕ) → Within rate_unit o → get_or o 0 ≤ rate_unit
get_or-Within none h = omega arith
get_or-Within (some n) h = h

anything : {A : Type 0} (xs : List A) → All {0, 0} (λ _. Unit) xs
anything [] = tt
anything (x ∷ xs) = (tt, anything xs)

completion_of-le : (results : List ScenarioEvalResult) → completion_of results ≤ rate_unit
completion_of-le [] = omega arith
completion_of-le (r ∷ results) =
    rounded-le _ (length (r ∷ results)) rate_unit (omega arith)
      (mul-le-mul_left rate_unit (length-keep is_reached (r ∷ results)))

-- The declared bounds of the scores, if the scenario was judged.
abbrev pub JudgedWell : Option JudgeScores → Type 0
JudgedWell none = Unit
JudgedWell (some j) = IsJudgement j

-- A result whose fractions are parts of the whole.
pub record IsScored (r : ScenarioEvalResult) : Type 0 where
  pub selection : r.deterministic.tool_selection_score ≤ 1000
  pub judgement : JudgedWell r.judge

judged-All :
    (results : List ScenarioEvalResult)
    → All IsScored results
    → All IsJudgement (present (map (λ r. r.judge) results))
judged-All [] h = tt
judged-All (r ∷ results) (first, more) = put r.judge first.judgement (judged-All results more)
  where
    put :
        (o : Option JudgeScores)
        → JudgedWell o
        → All IsJudgement (present (map (λ x. x.judge) results))
        → All IsJudgement (present (o ∷ map (λ x. x.judge) results))
    put none h k = k
    put (some j) h k = (h, k)

-- Every rate and every mean of fractions is at most 1.
pub record HasRates (a : AggregateScores) : Type 0 where
  pub completion : a.completion_rate ≤ rate_unit
  pub verdicts : a.policy_verdict_accuracy ≤ rate_unit
  pub actions : a.recommended_action_exact_match_rate ≤ rate_unit
  pub selections : a.mean_tool_selection_score ≤ rate_unit
  pub accuracy : Within rate_unit a.mean_diagnosis_accuracy
  pub groundedness : Within rate_unit a.mean_evidence_groundedness
  pub quality : Within rate_unit a.mean_remediation_quality
  pub escalation : Within rate_unit a.escalation_correctness_rate

pub aggregate-HasRates :
    (results : List ScenarioEvalResult) → All IsScored results → HasRates (aggregate results)
unfolding aggregate
aggregate-HasRates results h =
    let reached = keep is_reached results in
    let judged : List JudgeScores = present (map (λ r. r.judge) results) in
    let well = judged-All results h in
    record {
      completion = completion_of-le results;
      verdicts = get_or-Within _ (
          mean-Within (λ _. Unit) 1 (λ r. counted_some r.deterministic.policy_verdict_correct)
            reached (omega arith)
            (λ r _. counted_some-Within r.deterministic.policy_verdict_correct) (anything reached));
      actions = get_or-Within _ (
          mean-Within (λ _. Unit) 1
            (λ r. counted_some r.deterministic.recommended_action_exact_match) reached (omega arith)
            (λ r _. counted_some-Within r.deterministic.recommended_action_exact_match)
            (anything reached));
      selections = get_or-Within _ (
          mean-Within IsScored 1000 (λ r. some r.deterministic.tool_selection_score) results
            (omega arith) (λ r k. k.selection) h);
      accuracy =
          mean-Within IsJudgement score_unit (λ j. some j.diagnosis_accuracy) judged (omega arith)
            (λ j k. k.accuracy_at_most_one) well;
      groundedness =
          mean-Within IsJudgement score_unit (λ j. some j.evidence_groundedness) judged
            (omega arith) (λ j k. k.groundedness_at_most_one) well;
      quality =
          mean-Within IsJudgement score_unit (λ j. some j.remediation_quality) judged (omega arith)
            (λ j k. k.quality_at_most_one) well;
      escalation =
          mean-Within (λ _. Unit) 1 (λ j. some (counted j.escalation_correct)) judged (omega arith)
            (λ j _. counted-le j.escalation_correct) (anything judged);
    }
