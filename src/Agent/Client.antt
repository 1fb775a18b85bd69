-- ===== src/Agent/Client.antt =====
-- src/opspilot/agent/client.py: the provider-neutral model call. The provider is a parameter, a
-- function of the request and of a state of its own; it answers, fails transiently, or fails for
-- good. Costs are in units of 10⁻⁸ USD, in which every price per token is a whole number.
pub mod Retries
pub mod Anthropic
use opspilot_sre_incident_re.Prelude.{
  ℕ, zero, suc, ◌+◌, ◌*◌, String, Option, none, some, List, [], ◌∷◌, ltb, lookup, get_or,
  if◌then◌else◌,
}
use opspilot_sre_incident_re.Json.{Json, Fields}

pub data ContentBlock : Type 0 where
  text_block : String → ContentBlock
  tool_use_block : String → String → Fields → ContentBlock

pub record ModelResponse : Type 0 where
  pub content : List ContentBlock
  pub stop_reason : String
  pub input_tokens : ℕ
  pub output_tokens : ℕ

pub record ChatRequest : Type 0 where
  pub messages : List Json
  pub tools : List Json
  pub system : String

-- What one call of a chat function comes to: `transient` is `TransientProviderError`, and
-- `failure` any other exception.
pub data Attempt : Type 0 where
  response : ModelResponse → Attempt
  transient : String → Attempt
  failure : String → Attempt

abbrev pub ChatFn : Type 0 → Type 0
ChatFn S = ChatRequest → S → Attempt × S

-- Prices in hundredths of a USD per million tokens, for input and for output.
abbrev pub Pricing : Type 0
Pricing = ℕ × ℕ

-- `_PRICING_PER_MTOK`
abbrev pub pricing_per_mtok : List (String × Pricing)
pricing_per_mtok =
    ("claude-sonnet-5", (300, 1500))
    ∷ ("claude-opus-5", (1500, 7500))
    ∷ ("claude-haiku-4-5-20251001", (80, 400))
    ∷ []

-- `_DEFAULT_PRICING`
abbrev pub default_pricing : Pricing
default_pricing = (300, 1500)

unfoldable pub estimate_cost_usd : String → ℕ → ℕ → ℕ
estimate_cost_usd model input_tokens output_tokens =
    let pricing = get_or (lookup model pricing_per_mtok) default_pricing in
    input_tokens * pricing.0 + output_tokens * pricing.1

-- A pause before the next attempt.
slept : {S : Type 0} → ℕ → Option (Attempt × List ℕ × S) → Option (Attempt × List ℕ × S)
slept pause none = none
slept pause (some (a, pauses, s)) = some (a, pause ∷ pauses, s)

module _ {S : Type 0} (chat_fn : ChatFn S) (max_retries backoff : ℕ) (request : ChatRequest) where
  -- What follows an attempt with that outcome, after `attempt` failures: the `except` clause.
  after_attempt :
      ℕ → (S → Option (Attempt × List ℕ × S)) → Attempt → S → Option (Attempt × List ℕ × S)
  unfolding slept
  after_attempt attempt retry (response r) s = some (response r, [], s)
  after_attempt attempt retry (failure e) s = some (failure e, [], s)
  after_attempt attempt retry (transient e) s =
      if ltb max_retries (attempt + 1)
      then some (transient e, [], s)
      else slept (backoff * (attempt + 1)) (retry s)

  -- The `while True` of `call_with_retries`, on fuel, with the number of failed attempts so far.
  -- It returns what the last attempt came to, the pauses made, and the provider's state; an
  -- outcome `transient` is the error raised again.
  pub call_loop : ℕ → ℕ → S → Option (Attempt × List ℕ × S)
  call_loop zero attempt s = none
  call_loop (suc fuel) attempt s =
      let (outcome, s') = chat_fn request s in
      after_attempt attempt (call_loop fuel (attempt + 1)) outcome s'

  -- One round for each attempt that may be made: `max_retries` and the first.
  pub call_with_retries : S → Option (Attempt × List ℕ × S)
  unfolding call_loop
  call_with_retries s = call_loop (suc max_retries) 0 s
