-- ===== src/Agent/Client/Anthropic.antt =====
-- `AnthropicChatClient` of src/opspilot/agent/client.py, and `get_chat_fn` of src/opspilot/agent/loop.py.
-- The SDK's `messages.create` is a parameter, a function of the request and of a state of its own.
use opspilot_sre_incident_re.Prelude.{
  ℕ, String, Option, none, some, List, [], ◌∷◌, leb, str_eq, if◌then◌else◌,
}
use opspilot_sre_incident_re.Json.{Json, Fields}
use opspilot_sre_incident_re.Agent.Client.{
  ContentBlock, text_block, tool_use_block, ModelResponse, Attempt, response, transient, failure,
  ChatFn,
}

-- The keyword arguments of `messages.create`.
pub record MessageRequest : Type 0 where
  pub model : String
  pub max_tokens : ℕ
  pub system : String
  pub tools : List Json
  pub messages : List Json

-- A block of a message; `other_block` is a block of any other type.
pub data SdkBlock : Type 0 where
  sdk_text : String → SdkBlock
  sdk_tool_use : String → String → Fields → SdkBlock
  other_block : SdkBlock

pub record Message : Type 0 where
  pub content : List SdkBlock
  pub stop_reason : Option String
  pub input_tokens : ℕ
  pub output_tokens : ℕ

-- What the SDK returns or raises: `unreachable` is `APITimeoutError`, `RateLimitError` or
-- `APIConnectionError`, `api_status` any other `APIStatusError` with its code.
pub data SdkReply : Type 0 where
  message : Message → SdkReply
  unreachable : String → SdkReply
  api_status : ℕ → String → SdkReply
  other_error : String → SdkReply

-- The loop over the blocks of the message.
abbrev pub blocks_of : List SdkBlock → List ContentBlock
blocks_of [] = []
blocks_of (sdk_text s ∷ more) = text_block s ∷ blocks_of more
blocks_of (sdk_tool_use id name input ∷ more) = tool_use_block id name input ∷ blocks_of more
blocks_of (other_block ∷ more) = blocks_of more

abbrev pub model_response : Message → ModelResponse
model_response m = record {
  content = blocks_of m.content;
  stop_reason = elim m.stop_reason [
    | none ↦ "end_turn"
    | some s ↦ (if str_eq s "" then "end_turn" else s)
  ];
  input_tokens = m.input_tokens;
  output_tokens = m.output_tokens;
}

-- The `except` clauses.
unfoldable pub attempt_of : SdkReply → Attempt
attempt_of (message m) = response (model_response m)
attempt_of (unreachable e) = transient e
attempt_of (api_status code e) = if leb 500 code then transient e else failure e
attempt_of (other_error e) = failure e

abbrev pub default_max_tokens : ℕ
default_max_tokens = 2048

-- `__call__`
unfoldable pub anthropic_chat_fn :
    {S : Type 0} → String → (MessageRequest → S → SdkReply × S) → ChatFn S
unfolding attempt_of
anthropic_chat_fn model create request s =
    let (reply, s') =
      create
        (record {
          model = model;
          max_tokens = default_max_tokens;
          system = request.system;
          tools = request.tools;
          messages = request.messages;
        })
        s in
    (attempt_of reply, s')

-- `get_chat_fn`: the client is made by the first call, which raises if there is no key.
unfoldable pub lazy_chat_fn : {S : Type 0} → String → ChatFn S → ChatFn S
lazy_chat_fn api_key client request s =
    if str_eq api_key ""
    then (failure "RuntimeError: ANTHROPIC_API_KEY is not set.", s)
    else client request s
