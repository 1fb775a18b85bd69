-- ===== src/Agent/Idempotency/Once.antt =====
-- A remediation runs at most once for each key, over any sequence of calls of
-- `execute_idempotently` of src/opspilot/agent/idempotency.py: retries, resumes after a crash,
-- and other investigations in between.
use opspilot_sre_incident_re.Prelude.{
  ℕ, ◌+◌, ◌≤◌, ◌≡◌, refl, sym, ap, subst, ◌∙◌, String, Bool, true, false, Option, none, some, List,
  [], ◌∷◌, arith, str_eq, eq_iff, Option-cases, Bool-cases, inl, inr, if◌then◌else◌, All, map,
}
use text.Mathlib.TextPositions.{eq_refl}
use opspilot_sre_incident_re.Json.{Fields}
use opspilot_sre_incident_re.Agent.Idempotency.{
  Action, RemediationExecution, existing, idempotency_key, execution_row, execute_idempotently,
}

-- One call, with the executor that it would run.
pub record Call (W : Type 0) : Type 0 where
  pub action : Action
  pub executor : W → Fields × W
  pub now : ℕ

-- What a call answered, beside its key.
pub record Reply : Type 0 where
  pub key : String
  pub result : Fields
  pub deduplicated : Bool

-- How often a key stands in a log of the executors that ran.
abbrev pub runs : String → List String → ℕ
runs k [] = 0
runs k (j ∷ log) = (if str_eq j k then 1 else 0) + runs k log

abbrev pub recorded : Option RemediationExecution → Option Fields
recorded none = none
recorded (some row) = some row.result

of_recorded :
    {f : Fields} (o : Option RemediationExecution)
    → recorded o ≡ some f
    → (row : RemediationExecution) × (o ≡ some row)
of_recorded none h = cc
of_recorded (some row) h = (row, refl)

module _ (sha256 : String → String) {W : Type 0} where
  abbrev pub reply_to : Call W → List RemediationExecution → W → Reply
  reply_to c rows w =
      let (result, deduplicated, _, _) =
        execute_idempotently sha256 c.action c.executor c.now rows w in
      record { key = idempotency_key sha256 c.action; result = result; deduplicated = deduplicated }

  -- The table and the world after one call.
  abbrev pub after : Call W → List RemediationExecution → W → List RemediationExecution × W
  after c rows w =
      let (_, _, rows', w') = execute_idempotently sha256 c.action c.executor c.now rows w in
      (rows', w')

  -- Calls one after the other, each in its own committed session.
  pub serve :
      List (Call W) → List RemediationExecution → W → List Reply × List RemediationExecution × W
  serve [] rows w = ([], rows, w)
  serve (c ∷ calls) rows w =
      let (rows₁, w₁) = after c rows w in
      let (replies, rows₂, w₂) = serve calls rows₁ w₁ in (reply_to c rows w ∷ replies, rows₂, w₂)

  execute-known :
      (c : Call W) (rows : List RemediationExecution) (w : W) {row : RemediationExecution}
      → existing (idempotency_key sha256 c.action) rows ≡ some row
      → execute_idempotently sha256 c.action c.executor c.now rows w ≡ (row.result, true, rows, w)
  unfolding execute_idempotently
  execute-known c rows w h = rw (h, execute_idempotently)

  execute-new :
      (c : Call W) (rows : List RemediationExecution) (w : W)
      → existing (idempotency_key sha256 c.action) rows ≡ none
      → execute_idempotently sha256 c.action c.executor c.now rows w ≡ (
          let (result, w') = c.executor w in
          (result, false, execution_row sha256 c.action result c.now ∷ rows, w'))
  unfolding execute_idempotently
  execute-new c rows w h = rw (h, execute_idempotently)

  -- A recorded row stays what a key finds, whatever is called.
  existing-after :
      (k : String) (row : RemediationExecution) (c : Call W) (rows : List RemediationExecution)
      (w : W)
      → existing k rows ≡ some row
      → existing k (after c rows w).0 ≡ some row
  unfolding existing
  existing-after k row c rows w h =
      elim (Option-cases (existing (idempotency_key sha256 c.action) rows)) [
        | inl new ↦
            rw (execute-new c rows w new)
              (ground (arith, eq_iff (idempotency_key sha256 c.action) k))
        | inr (old, e) ↦ rw (execute-known c rows w e) h
      ]

  -- After a call its key finds a row with the result that the call answered.
  recorded-after :
      (c : Call W) (rows : List RemediationExecution) (w : W)
      → recorded (existing (idempotency_key sha256 c.action) (after c rows w).0)
        ≡ some (reply_to c rows w).result
  unfolding existing
  recorded-after c rows w = elim (Option-cases (existing (idempotency_key sha256 c.action) rows)) [
    | inl new ↦ rw (execute-new c rows w new) (rw (eq_refl (idempotency_key sha256 c.action)))
    | inr (old, e) ↦ rw (execute-known c rows w e) (rw e)
  ]

  existing-serve :
      (k : String) (row : RemediationExecution) (calls : List (Call W))
      (rows : List RemediationExecution) (w : W)
      → existing k rows ≡ some row
      → existing k (serve calls rows w).1 ≡ some row
  unfolding serve
  existing-serve k row [] rows w h = h
  existing-serve k row (c ∷ calls) rows w h =
      let (rows₁, w₁) = after c rows w in
      existing-serve k row calls rows₁ w₁ (existing-after k row c rows w h)

  -- The key of a call is recorded behind it.
  existing-own :
      (c : Call W) (rows : List RemediationExecution) (w : W)
      → (row : RemediationExecution) × (existing
            (idempotency_key sha256 c.action)
            (after c rows w).0
          ≡ some row)
  existing-own c rows w =
      of_recorded (existing (idempotency_key sha256 c.action) (after c rows w).0)
        (recorded-after c rows w)

  -- After every sequence of calls each key that was answered finds one row, and its result is the
  -- one that every call of that key answered, the first and the deduplicated ones alike.
  pub replies-recorded :
      (calls : List (Call W)) (rows : List RemediationExecution) (w : W)
      → let (replies, rows', _) = serve calls rows w in
        All (λ r. recorded (existing r.key rows') ≡ some r.result) replies
  unfolding serve
  replies-recorded [] rows w = tt
  replies-recorded (c ∷ calls) rows w =
      let (rows₁, w₁) = after c rows w in
      let (row, e) = existing-own c rows w in
      (
        rw (existing-serve (idempotency_key sha256 c.action) row calls rows₁ w₁ e)
            (ap recorded (sym e) ∙ recorded-after c rows w),
        replies-recorded calls rows₁ w₁,
      )

module _ (sha256 : String → String) {W : Type 0} where
  -- The same call, whose executor also writes its key into a log whenever it is run.
  abbrev pub logged : Call W → Call (List String × W)
  logged c = record {
    action = c.action;
    executor = λ (log, w).
        let (result, w') = c.executor w in (result, (idempotency_key sha256 c.action ∷ log, w'));
    now = c.now;
  }

  -- The log behind a sequence of calls.
  abbrev pub log_of : List (Call W) → List RemediationExecution → List String × W → List String
  log_of calls rows w = (serve sha256 (map logged calls) rows w).2.0

  -- Of a recorded key, a call runs no executor.
  after-known :
      (k : String) (row : RemediationExecution) (c : Call W) (rows : List RemediationExecution)
      (w : List String × W)
      → existing k rows ≡ some row
      → runs k (after sha256 (logged c) rows w).1.0 ≡ runs k w.0
  after-known k row c rows w h =
      elim (Option-cases (existing (idempotency_key sha256 c.action) rows)) [
        | inl new ↦ elim (Bool-cases (str_eq (idempotency_key sha256 c.action) k)) [
          | inl same ↦
              let e = (eq_iff (idempotency_key sha256 c.action) k).0 same in
              let gone : existing k rows ≡ none = rw e at new in absurd cc
          | inr other ↦ rw (execute-new sha256 (logged c) rows w new) (rw other (omega arith))
        ]
        | inr (old, e) ↦ rw (execute-known sha256 (logged c) rows w e) refl
      ]

  after-le :
      (k : String) (c : Call W) (rows : List RemediationExecution) (w : List String × W)
      → runs k (after sha256 (logged c) rows w).1.0 ≤ runs k w.0 + 1
  after-le k c rows w = elim (Option-cases (existing (idempotency_key sha256 c.action) rows)) [
    | inl new ↦ rw (execute-new sha256 (logged c) rows w new) (ground arith)
    | inr (old, e) ↦ rw (execute-known sha256 (logged c) rows w e) (omega arith)
  ]

  after-other :
      (k : String) (c : Call W) (rows : List RemediationExecution) (w : List String × W)
      → str_eq (idempotency_key sha256 c.action) k ≡ false
      → runs k (after sha256 (logged c) rows w).1.0 ≡ runs k w.0
  after-other k c rows w other =
      elim (Option-cases (existing (idempotency_key sha256 c.action) rows)) [
        | inl new ↦ rw (execute-new sha256 (logged c) rows w new) (rw other (omega arith))
        | inr (old, e) ↦ rw (execute-known sha256 (logged c) rows w e) refl
      ]

  serve-known :
      (k : String) (row : RemediationExecution) (calls : List (Call W))
      (rows : List RemediationExecution) (w : List String × W)
      → existing k rows ≡ some row
      → runs k (log_of calls rows w) ≡ runs k w.0
  unfolding serve
  serve-known k row [] rows w h = refl
  serve-known k row (c ∷ calls) rows w h =
      let (rows₁, w₁) = after sha256 (logged c) rows w in
      serve-known k row calls rows₁ w₁ (existing-after sha256 k row (logged c) rows w h)
      ∙ after-known k row c rows w h

  serve-le :
      (k : String) (calls : List (Call W)) (rows : List RemediationExecution) (w : List String × W)
      → runs k (log_of calls rows w) ≤ runs k w.0 + 1
  unfolding serve
  serve-le k [] rows w = omega arith
  serve-le k (c ∷ calls) rows w =
      let (rows₁, w₁) = after sha256 (logged c) rows w in
      elim (Bool-cases (str_eq (idempotency_key sha256 c.action) k)) [
        | inr other ↦ omega (arith, serve-le k calls rows₁ w₁, after-other k c rows w other)
        | inl same ↦
            (let (row, e) = existing-own sha256 (logged c) rows w in
              let e' =
                subst (λ x. existing x rows₁ ≡ some row)
                  ((eq_iff (idempotency_key sha256 c.action) k).0 same) e in
              omega (arith, serve-known k row calls rows₁ w₁ e', after-le k c rows w))
      ]

  -- In every sequence of calls one after another, from every table and in every world, the executors
  -- of one idempotency key are run at most once in all: of the log that the executors write when they
  -- are run, the key is at most one entry.
  pub runs-le-one :
      (k : String) (calls : List (Call W)) (rows : List RemediationExecution) (w : W)
      → runs k (log_of calls rows ([], w)) ≤ 1
  runs-le-one k calls rows w = serve-le k calls rows ([], w)
