-- ===== src/Agent/Nodes/Evidence.antt =====
-- What one round of tool calls leaves in the state: `process_blocks` of src/opspilot/agent/nodes.py.
use opspilot_sre_incident_re.Prelude.{
  ℕ, ◌≡◌, refl, sym, ap, ◌∙◌, ◌++◌, if◌then◌else◌, inl, inr, String, Option, none, some, List, [],
  ◌∷◌, Bool-cases, str_eq, Result, ok, err, lookup, is_some, is_none,
}
use opspilot_sre_incident_re.Json.{Json, obj}
use opspilot_sre_incident_re.Agent.Schemas.{SubmitDiagnosisArgs, ToolCallRecord}
use opspilot_sre_incident_re.Agent.Tools.{Tool, ToolArgs, ToolContext, tool_registry, run_tool}
use opspilot_sre_incident_re.Agent.State.{Runtime}
use opspilot_sre_incident_re.Agent.Nodes.Gather.{
  Block, submitted, called, looked_up, handle_block, process_blocks,
}

-- A row of evidence of that step and block, with a result or an error and never both.
abbrev pub IsRowOf : ℕ → Block → ToolCallRecord → Type 0
IsRowOf step b r = (r.step ≡ step) × (r.tool_name ≡ b.name) × (is_some r.result ≡ is_none r.error)

-- The rows and the blocks, one for one and in order.
abbrev pub AllRows : ℕ → List Block → List ToolCallRecord → Type 0
AllRows step [] [] = Unit
AllRows step (b ∷ bs) (r ∷ rs) = IsRowOf step b r × AllRows step bs rs
AllRows step _ _ = ⊥

-- The last of a list, or what went before it.
abbrev pub last_or : {A : Type 0} → Option A → List A → Option A
last_or o [] = o
last_or o (x ∷ xs) = last_or (some x) xs

last_or-append :
    {A : Type 0} (o : Option A) (xs ys : List A) → last_or o (xs ++ ys) ≡ last_or (last_or o xs) ys
last_or-append o [] ys = refl
last_or-append o (x ∷ xs) ys = last_or-append (some x) xs ys

called-row :
    (step : ℕ) (b : Block) (d : Option SubmitDiagnosisArgs) (f : ToolArgs → Json)
    (r : Result String ToolArgs)
    → IsRowOf step b (called step b d f r).evidence
unfolding called
called-row step b d f (err e) = (refl, refl, refl)
called-row step b d f (ok args) = (refl, refl, refl)

called-diagnosis :
    (step : ℕ) (b : Block) (d : Option SubmitDiagnosisArgs) (f : ToolArgs → Json)
    (r : Result String ToolArgs)
    → (called step b d f r).diagnosis ≡ d
unfolding called
called-diagnosis step b d f (err e) = refl
called-diagnosis step b d f (ok args) = refl

-- The diagnosis that a block submits, if it is a valid one.
abbrev pub accepted : Result String SubmitDiagnosisArgs → List SubmitDiagnosisArgs
accepted (ok d) = d ∷ []
accepted (err e) = []

module _ (rt : Runtime) where
  -- The valid diagnoses that the blocks submit, in their order.
  abbrev pub submissions : List Block → List SubmitDiagnosisArgs
  submissions [] = []
  submissions (b ∷ blocks) =
      (if str_eq "submit_diagnosis" b.name
        then accepted (rt.validate_diagnosis (obj b.input))
        else [])
      ++ submissions blocks

module _ (rt : Runtime) (ctx : ToolContext) where
  looked_up-row :
      (step : ℕ) (b : Block) (d : Option SubmitDiagnosisArgs) (o : Option Tool)
      → IsRowOf step b (looked_up rt step ctx b d o).evidence
  unfolding looked_up
  looked_up-row step b d none = (refl, refl, refl)
  looked_up-row step b d (some tool) =
      called-row step b d (run_tool rt.reader ctx) (rt.validate_tool tool (obj b.input))

  submitted-row :
      (step : ℕ) (b : Block) (d : Option SubmitDiagnosisArgs)
      (r : Result String SubmitDiagnosisArgs)
      → IsRowOf step b (submitted step b d r).evidence
  unfolding submitted
  submitted-row step b d (err e) = (refl, refl, refl)
  submitted-row step b d (ok d') = (refl, refl, refl)

  handle_block-row :
      (step : ℕ) (b : Block) (d : Option SubmitDiagnosisArgs)
      → IsRowOf step b (handle_block rt step ctx b d).evidence
  unfolding handle_block
  handle_block-row step b d = elim (Bool-cases (str_eq "submit_diagnosis" b.name)) [
    | inl submit ↦ rw submit (submitted-row step b d (rt.validate_diagnosis (obj b.input)))
    | inr other ↦ rw other (looked_up-row step b d (lookup b.name tool_registry))
  ]

  -- A round writes one row of evidence for each tool call of the response, in their order, with
  -- the round's step and the call's name, and with either a result or an error.
  pub process_blocks-rows :
      (step : ℕ) (blocks : List Block) (d : Option SubmitDiagnosisArgs)
      → AllRows step blocks (process_blocks rt step ctx blocks d).1
  unfolding process_blocks
  process_blocks-rows step [] d = tt
  process_blocks-rows step (b ∷ blocks) d = (
    handle_block-row step b d,
    process_blocks-rows step blocks (handle_block rt step ctx b d).diagnosis,
  )

  submitted-last_or :
      (step : ℕ) (b : Block) (d : Option SubmitDiagnosisArgs)
      (r : Result String SubmitDiagnosisArgs)
      → (submitted step b d r).diagnosis ≡ last_or d (accepted r)
  unfolding submitted
  submitted-last_or step b d (err e) = refl
  submitted-last_or step b d (ok d') = refl

  looked_up-diagnosis :
      (step : ℕ) (b : Block) (d : Option SubmitDiagnosisArgs) (o : Option Tool)
      → (looked_up rt step ctx b d o).diagnosis ≡ d
  unfolding looked_up
  looked_up-diagnosis step b d none = refl
  looked_up-diagnosis step b d (some tool) =
      called-diagnosis step b d (run_tool rt.reader ctx) (rt.validate_tool tool (obj b.input))

  -- The diagnosis that comes out of a round is the last one that its blocks submit and that is valid,
  -- whatever other calls stand between and behind; if none is, it is the one that went in.
  pub process_blocks-last_or :
      (step : ℕ) (blocks : List Block) (d : Option SubmitDiagnosisArgs)
      → (process_blocks rt step ctx blocks d).2 ≡ last_or d (submissions rt blocks)
  unfolding process_blocks handle_block
  process_blocks-last_or step [] d = refl
  process_blocks-last_or step (b ∷ blocks) d =
      elim (Bool-cases (str_eq "submit_diagnosis" b.name)) [
        | inl submit ↦
            let r = rt.validate_diagnosis (obj b.input) in
            rw submit (
              process_blocks-last_or step blocks (submitted step b d r).diagnosis
              ∙ ap (λ o. last_or o (submissions rt blocks)) (submitted-last_or step b d r)
              ∙ sym (last_or-append d (accepted r) (submissions rt blocks)))
        | inr other ↦
            let o = lookup b.name tool_registry in
            rw other (
              process_blocks-last_or step blocks (looked_up rt step ctx b d o).diagnosis
              ∙ ap (λ x. last_or x (submissions rt blocks)) (looked_up-diagnosis step b d o))
      ]
