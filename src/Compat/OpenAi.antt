-- ===== src/Compat/OpenAi.antt =====
-- internal/compat/openai.go: chat completion requests. The fields that the code never reads are left
-- out, and the body has been decoded; what it holds as raw JSON is decoded here.
pub mod Decoding
pub mod Rendering
pub mod Controls
pub mod Directives
pub mod Tools
pub mod Parsing
pub mod Accepted
pub mod Choices
pub mod Tests
use copilot_sdkapi.Base.{
  ℕ, String, Bool, true, false, not, ◌||◌, ◌&&◌, Option, none, some, List, eqb, ◌==◌,
}
use copilot_sdkapi.Strings.{trim_space}
use copilot_sdkapi.Json.{Value, Fields}
use copilot_sdkapi.Json.Raw.{Raw, raw_text}
use copilot_sdkapi.Errors.{GoError, detailed, of_compat, unsupported_controls}
use copilot_sdkapi.Compat.Types.{CopilotRequestExtension}

-- An int.
pub data ℤ : Type 0 where
  pos : ℕ → ℤ
  negsuc : ℕ → ℤ

abbrev pub is_one : ℤ → Bool
is_one (pos n) = eqb n 1
is_one (negsuc n) = false

-- OpenAIChatCompletionRequest.
pub record OpenAiChatCompletionRequest : Type 0 where
  pub model : String
  pub models : List String
  pub messages : List Raw
  pub prompt : String
  pub stream : Bool
  pub n : Option ℤ
  pub response_format : Option Raw
  pub stream_options : Option Raw
  pub modalities : List String
  pub audio : Option Raw
  pub reasoning_effort : String
  pub reasoning : Option Raw
  pub tools : List Raw
  pub tool_choice : Option Raw
  pub parallel_tool_calls : Option Bool
  pub functions : List Raw
  pub function_call : Option Raw
  pub structured_outputs : Option Bool
  pub adaptive_thinking : Option Raw
  pub thinking_budget : Option Raw
  pub x_copilot : Option CopilotRequestExtension

-- OpenAIMessage.
pub record OpenAiMessage : Type 0 where
  pub role : String
  pub content : Value
  pub name : String
  pub tool_calls : Option Raw
  pub tool_call_id : String
  pub function_call : Option Raw
  pub refusal : String
  pub reasoning : String
  pub reasoning_content : String
  pub reasoning_details : Option Raw

-- OpenAIFunctionDefinition.
pub record OpenAiFunctionDefinition : Type 0 where
  pub name : String
  pub description : String
  pub parameters : Option Fields

-- OpenAIChatTool.
pub record OpenAiChatTool : Type 0 where
  pub type : String
  pub function : Option OpenAiFunctionDefinition

-- OpenAIResponseJSONSchema.
pub record OpenAiResponseJsonSchema : Type 0 where
  pub name : String
  pub strict : Option Bool
  pub schema : Option Raw

-- OpenAIResponseFormat.
pub record OpenAiResponseFormat : Type 0 where
  pub type : String
  pub json_schema : Option OpenAiResponseJsonSchema

-- OpenAIReasoningConfig; max_tokens by its digits.
pub record OpenAiReasoningConfig : Type 0 where
  pub effort : String
  pub max_tokens : Option String
  pub exclude : Option Bool
  pub enabled : Option Bool

-- The struct that parseSingleOpenAIToolDirective decodes; the name of its function, if it has one.
pub record TypedChoice : Type 0 where
  pub type : String
  pub name : String
  pub function : Option String

abbrev pub unsupported : String → GoError
unsupported detail = detailed (of_compat unsupported_controls) detail

-- hasNonNullJSON.
unfoldable pub has_non_null : Option Raw → Bool
unfolding trim_space
has_non_null r = let t = trim_space (raw_text r) in not (t == "") && not (t == "null")

abbrev pub is_set : Option Bool → Bool
is_set none = false
is_set (some b) = b

abbrev pub is_given {ℓ} : {A : Type ℓ} → Option A → Bool
is_given none = false
is_given (some a) = true
