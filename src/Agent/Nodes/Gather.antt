-- ===== src/Agent/Nodes/Gather.antt =====
-- `gather_context` of src/opspilot/agent/nodes.py: one model call, one round of tools, and the router.
use opspilot_sre_incident_re.Prelude.{
  ℕ, ◌+◌, String, Bool, true, false, ◌||◌, Option, none, some, List, [], ◌∷◌, Result, ok, err,
  concat, str_eq, ltb, leb, lookup, is_some, if◌then◌else◌,
}
use opspilot_sre_incident_re.Json.{
  Json, Items, Fields, bool, float, text, arr, obj, nil, cons, end, field, dumps, of_texts,
}
use opspilot_sre_incident_re.Agent.Schemas.{SubmitDiagnosisArgs, ToolCallRecord, action_name}
use opspilot_sre_incident_re.Agent.Client.{
  ContentBlock, text_block, tool_use_block, ModelResponse, Attempt, response, transient, failure,
  call_with_retries, estimate_cost_usd,
}
use opspilot_sre_incident_re.Agent.Tools.{
  Tool, ToolArgs, ToolContext, tool_registry, dump_args, run_tool,
}
use opspilot_sre_incident_re.Agent.State.{
  GraphState, Update, no_update, Runtime, NodeDeps, World, user_message,
}
use opspilot_sre_incident_re.Agent.Support.{
  system_prompt, content_blocks_to_dicts, truncate_tool_result,
}

-- How a node ends. `diverged` stands for a retry loop out of fuel.
pub data NodeResult : Type 0 where
  returned : Update → NodeResult
  interrupted : Fields → NodeResult
  raised : String → NodeResult
  diverged : NodeResult

-- A tool-use block: its id, its name and its input.
pub record Block : Type 0 where
  pub id : String
  pub name : String
  pub input : Fields

-- `[b for b in response.content if hasattr(b, "name")]`
unfoldable pub tool_use_blocks : List ContentBlock → List Block
tool_use_blocks [] = []
tool_use_blocks (text_block t ∷ blocks) = tool_use_blocks blocks
tool_use_blocks (tool_use_block id name input ∷ blocks) =
    record { id = id; name = name; input = input } ∷ tool_use_blocks blocks

-- `_tool_result`
unfoldable pub tool_result : String → String → Bool → Json
tool_result id content is_error = obj (
    field "type" (text "tool_result") (
      field "tool_use_id" (text id) (
        field "content" (text content)
          (if is_error then field "is_error" (bool true) end else end))))

-- `diagnosis.model_dump()`
unfoldable pub dump_diagnosis : SubmitDiagnosisArgs → Fields
dump_diagnosis d = field "diagnosis" (text d.diagnosis) (
    field "evidence" (arr (of_texts d.evidence)) (
      field "confidence" (float d.confidence)
        (field "recommended_action" (text (action_name d.recommended_action)) end)))

-- What one block adds: its result for the model, its row of evidence, and the diagnosis so far.
pub record Handled : Type 0 where
  pub result : Json
  pub evidence : ToolCallRecord
  pub diagnosis : Option SubmitDiagnosisArgs

-- A block that is answered by an error, which leaves the diagnosis alone.
unfoldable pub rejected : ℕ → Block → Option SubmitDiagnosisArgs → String → Handled
unfolding tool_result
rejected step b diagnosis error_text = record {
  result = tool_result b.id error_text true;
  evidence = record {
    step = step;
    tool_name = b.name;
    arguments = b.input;
    result = none;
    error = some error_text;
  };
  diagnosis = diagnosis;
}

-- The branch of `submit_diagnosis`.
unfoldable pub submitted :
    ℕ → Block → Option SubmitDiagnosisArgs → Result String SubmitDiagnosisArgs → Handled
unfolding rejected dump_diagnosis
submitted step b diagnosis (err e) =
    rejected step b diagnosis (concat ("Invalid diagnosis: " ∷ e ∷ []))
submitted step b diagnosis (ok d) = record {
  result = tool_result b.id "Diagnosis received." false;
  evidence = record {
    step = step;
    tool_name = b.name;
    arguments = b.input;
    result = some (obj (dump_diagnosis d));
    error = none;
  };
  diagnosis = some d;
}

-- The branch of a registered tool, once its arguments are validated or not. A tool's result is
-- always a dict or a list.
unfoldable pub called :
    ℕ → Block → Option SubmitDiagnosisArgs → (ToolArgs → Json) → Result String ToolArgs → Handled
unfolding rejected
called step b diagnosis handler (err e) =
    rejected step b diagnosis (concat ("Invalid arguments: " ∷ e ∷ []))
called step b diagnosis handler (ok args) =
    let safe_result = truncate_tool_result (handler args) in
    record {
      result = tool_result b.id (dumps safe_result) false;
      evidence = record {
        step = step;
        tool_name = b.name;
        arguments = dump_args args;
        result = some safe_result;
        error = none;
      };
      diagnosis = diagnosis;
    }

pub data Route : Type 0 where
  go_on to_diagnosed to_ceiling : Route

module _ (rt : Runtime) where
  unfoldable pub looked_up :
      ℕ → ToolContext → Block → Option SubmitDiagnosisArgs → Option Tool → Handled
  unfolding rejected called
  looked_up step ctx b diagnosis none =
      rejected step b diagnosis (concat ("Unknown tool '" ∷ b.name ∷ "'." ∷ []))
  looked_up step ctx b diagnosis (some tool) =
      called step b diagnosis (run_tool rt.reader ctx) (rt.validate_tool tool (obj b.input))

  -- The body of the loop over the blocks.
  unfoldable pub handle_block : ℕ → ToolContext → Block → Option SubmitDiagnosisArgs → Handled
  unfolding submitted looked_up
  handle_block step ctx b diagnosis =
      if str_eq "submit_diagnosis" b.name
      then submitted step b diagnosis (rt.validate_diagnosis (obj b.input))
      else looked_up step ctx b diagnosis (lookup b.name tool_registry)

  -- The loop: the tool results, the new evidence, and the last valid diagnosis.
  unfoldable pub process_blocks :
      ℕ
      → ToolContext
      → List Block
      → Option SubmitDiagnosisArgs
      → Items × List ToolCallRecord × Option SubmitDiagnosisArgs
  process_blocks step ctx [] diagnosis = (nil, [], diagnosis)
  process_blocks step ctx (b ∷ blocks) diagnosis =
      let h = handle_block step ctx b diagnosis in
      let (results, evidence, final) = process_blocks step ctx blocks h.diagnosis in
      (cons h.result results, h.evidence ∷ evidence, final)

  module _ {S : Type 0} (deps : NodeDeps S) where
    abbrev assistant : ModelResponse → Json
    assistant r = obj (
        field "role" (text "assistant")
          (field "content" (arr (content_blocks_to_dicts r.content)) end))

    -- The update of a round that got a response, by the tool calls that it holds.
    unfoldable pub round : GraphState → ModelResponse → List Block → Update
    round state r [] = record no_update {
      messages =
          assistant r
          ∷ user_message
              "Continue investigating by calling a tool, or call submit_diagnosis when ready."
          ∷ [];
      steps_used = some (state.steps_used + 1);
      estimated_cost_usd = some (
          state.estimated_cost_usd
          + estimate_cost_usd rt.anthropic_model r.input_tokens r.output_tokens);
      total_input_tokens = some (state.total_input_tokens + r.input_tokens);
      total_output_tokens = some (state.total_output_tokens + r.output_tokens);
    }
    round state r (b ∷ blocks) =
        let ctx : ToolContext = record { session = deps.session; scenario = deps.scenario } in
        let (results, evidence, diagnosis) =
          process_blocks (state.steps_used + 1) ctx (b ∷ blocks) none in
        record no_update {
          messages =
              assistant r
              ∷ obj (field "role" (text "user") (field "content" (arr results) end))
              ∷ [];
          evidence_trail = evidence;
          steps_used = some (state.steps_used + 1);
          estimated_cost_usd = some (
              state.estimated_cost_usd
              + estimate_cost_usd rt.anthropic_model r.input_tokens r.output_tokens);
          total_input_tokens = some (state.total_input_tokens + r.input_tokens);
          total_output_tokens = some (state.total_output_tokens + r.output_tokens);
          diagnosis = some diagnosis;
        }

    -- By the outcome of the model call.
    unfoldable pub answered : GraphState → Attempt → NodeResult
    unfolding round tool_use_blocks
    answered state (response r) = returned (round state r (tool_use_blocks r.content))
    answered state (transient e) = returned (record no_update {
      steps_used = some (state.steps_used + 1);
      provider_error = some (some e);
    })
    answered state (failure e) = raised e

    unfoldable pub gather_context : GraphState → World S → NodeResult × World S
    gather_context state world =
        elim (call_with_retries deps.chat_fn rt.max_retries rt.backoff
          (record {
            messages = state.messages;
            tools = rt.tool_definitions;
            system = system_prompt deps.scenario deps.memory_context;
          })
          world.provider) [
            | none ↦ (diverged, world)
            | some (outcome, _, provider) ↦
                (answered state outcome, record world { provider = provider })
          ]

    unfoldable pub route_after_gather_context : GraphState → Route
    route_after_gather_context state =
        if is_some state.provider_error
        then to_ceiling
        else if is_some state.diagnosis
        then to_diagnosed
        else if ltb deps.max_cost_usd state.estimated_cost_usd
            || leb deps.max_steps state.steps_used
        then to_ceiling
        else go_on
