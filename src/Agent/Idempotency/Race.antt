-- ===== src/Agent/Idempotency/Race.antt =====
-- Two overlapping calls of `execute_idempotently` (src/opspilot/agent/idempotency.py) for one action,
-- as two processes make them: each call's query, its executor and its commit are single steps, and
-- a schedule says who moves. The unique column refuses the second row of a key.
use opspilot_sre_incident_re.Prelude.{
  ℕ, ◌+◌, ◌≡◌, refl, String, Bool, true, false, none, some, List, [], ◌∷◌,
}
use text.Mathlib.TextPositions.{eq_refl}
use opspilot_sre_incident_re.Json.{Fields}
use opspilot_sre_incident_re.Agent.Idempotency.{
  Action, RemediationExecution, existing, idempotency_key, execution_row,
}

-- How far a call has come. `conflict` is the integrity error of a commit that is refused.
pub data Phase : Type 0 where
  entered missed : Phase
  executed : Fields → Phase
  returned : Fields → Bool → Phase
  conflict : Phase

-- Two calls, the committed table, and how often an executor has run.
pub record Overlap : Type 0 where
  pub first : Phase
  pub second : Phase
  pub rows : List RemediationExecution
  pub runs : ℕ

module _ (sha256 : String → String) (action : Action) (result : Fields) (now : ℕ) where
  -- The next step of a call: its phase, the table and the runs that it adds.
  pub advance : Phase → List RemediationExecution → Phase × List RemediationExecution × ℕ
  unfolding existing
  advance entered rows = elim (existing (idempotency_key sha256 action) rows) [
    | some row ↦ (returned row.result true, rows, 0)
    | none ↦ (missed, rows, 0)
  ]
  advance missed rows = (executed result, rows, 1)
  advance (executed f) rows = elim (existing (idempotency_key sha256 action) rows) [
    | some row ↦ (conflict, rows, 0)
    | none ↦ (returned f false, execution_row sha256 action f now ∷ rows, 0)
  ]
  advance (returned f d) rows = (returned f d, rows, 0)
  advance conflict rows = (conflict, rows, 0)

  -- One step of the first call (`true`) or of the second.
  pub move : Bool → Overlap → Overlap
  move true o =
      let (phase, rows, n) = advance o.first o.rows in
      record o { first = phase; rows = rows; runs = o.runs + n }
  move false o =
      let (phase, rows, n) = advance o.second o.rows in
      record o { second = phase; rows = rows; runs = o.runs + n }

  pub play : List Bool → Overlap → Overlap
  play [] o = o
  play (who ∷ schedule) o = play schedule (move who o)

  abbrev pub both_enter : List RemediationExecution → Overlap
  both_enter rows = record { first = entered; second = entered; rows = rows; runs = 0 }

  enter :
      (rows : List RemediationExecution)
      → existing (idempotency_key sha256 action) rows ≡ none
      → advance entered rows ≡ (missed, rows, 0)
  unfolding advance
  enter rows new = rw (new, advance)

  run : (rows : List RemediationExecution) → advance missed rows ≡ (executed result, rows, 1)
  unfolding advance
  run rows = refl

  commit :
      (rows : List RemediationExecution) (f : Fields)
      → existing (idempotency_key sha256 action) rows ≡ none
      → advance (executed f) rows ≡ (returned f false, execution_row sha256 action f now ∷ rows, 0)
  unfolding advance
  commit rows f new = rw (new, advance)

  refused :
      (rows : List RemediationExecution) (f : Fields)
      → advance (executed f) (execution_row sha256 action f now ∷ rows)
        ≡ (conflict, execution_row sha256 action f now ∷ rows, 0)
  unfolding advance
  refused rows f = rw (eq_refl (idempotency_key sha256 action), advance)

  -- Whenever the key is not in the table yet, two calls that both query before either commits run
  -- the executor twice; the second commit is refused, and its call ends in an error.
  pub overlap_runs_twice :
      (rows : List RemediationExecution)
      → existing (idempotency_key sha256 action) rows ≡ none
      → let end = play (true ∷ false ∷ true ∷ false ∷ true ∷ false ∷ []) (both_enter rows) in
        (end.runs ≡ 2) × (end.first ≡ returned result false) × (end.second ≡ conflict)
  unfolding play move
  overlap_runs_twice rows new =
      simp (enter rows new, run, commit rows result new, refused rows result) (refl, refl, refl)
