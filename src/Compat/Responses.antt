-- ===== src/Compat/Responses.antt =====
-- internal/compat/openai.go and claude.go: the responses. time.Now().Unix() is the argument `now`.
use copilot_sdkapi.Base.{
  ℕ, ◌+◌, ◌-◌, ◌^◌, ◌%◌, ◌<◌, ◌≡◌, ◌↔◌, arith, String, Option, none, some, List, [], ◌∷◌, map, ltb,
  if◌then◌else◌,
}
use copilot_sdkapi.Strings.{trim_space}
use copilot_sdkapi.Runtime.Types.{Usage, Model, ModelSupports, ModelLimits}
use copilot_sdkapi.Runtime.Events.{RuntimeEvent}
use copilot_sdkapi.Compat.OpenAi.{ℤ, pos, negsuc}

-- CopilotResponseExtension.
pub record CopilotResponseExtension : Type 0 where
  pub agent : String
  pub system_message_mode : String
  pub reasoning : String
  pub runtime_events : List RuntimeEvent

-- OpenAIResponseMessage.
pub record OpenAiResponseMessage : Type 0 where
  pub role : String
  pub content : String
  pub reasoning : String

-- OpenAIChoice.
pub record OpenAiChoice : Type 0 where
  pub index : ℕ
  pub message : OpenAiResponseMessage
  pub finish_reason : String

-- OpenAIUsage.
pub record OpenAiUsage : Type 0 where
  pub prompt_tokens : ℕ
  pub completion_tokens : ℕ
  pub total_tokens : ℤ

-- OpenAIChatCompletionResponse.
pub record OpenAiChatCompletionResponse : Type 0 where
  pub id : String
  pub object : String
  pub created : ℕ
  pub model : String
  pub choices : List OpenAiChoice
  pub usage : OpenAiUsage
  pub x_copilot : Option CopilotResponseExtension

-- OpenAIDelta.
pub record OpenAiDelta : Type 0 where
  pub role : String
  pub content : String
  pub reasoning : String

-- OpenAIChunkChoice.
pub record OpenAiChunkChoice : Type 0 where
  pub index : ℕ
  pub delta : OpenAiDelta
  pub finish_reason : Option String

-- OpenAIChatCompletionChunk; OpenAIStreamExtension is its event.
pub record OpenAiChatCompletionChunk : Type 0 where
  pub id : String
  pub object : String
  pub created : ℕ
  pub model : String
  pub choices : List OpenAiChunkChoice
  pub usage : Option OpenAiUsage
  pub x_copilot : Option (Option RuntimeEvent)

-- OpenAIModelExtension.
pub record OpenAiModelExtension : Type 0 where
  pub supports : ModelSupports
  pub limits : ModelLimits
  pub supported_reasoning_efforts : List String
  pub default_reasoning_effort : String

-- OpenAIModelInfo.
pub record OpenAiModelInfo : Type 0 where
  pub id : String
  pub object : String
  pub created : ℕ
  pub owned_by : String
  pub x_copilot : Option OpenAiModelExtension

-- OpenAIModelsResponse.
pub record OpenAiModelsResponse : Type 0 where
  pub object : String
  pub models : List OpenAiModelInfo

-- ClaudeTextBlock.
pub record ClaudeTextBlock : Type 0 where
  pub type : String
  pub text : String

-- ClaudeUsage.
pub record ClaudeUsage : Type 0 where
  pub input_tokens : ℕ
  pub output_tokens : ℕ
  pub cache_creation_input_tokens : ℕ
  pub cache_read_input_tokens : ℕ

-- ClaudeMessageResponse.
pub record ClaudeMessageResponse : Type 0 where
  pub id : String
  pub type : String
  pub role : String
  pub model : String
  pub content : List ClaudeTextBlock
  pub stop_reason : String
  pub stop_sequence : Option String
  pub usage : ClaudeUsage
  pub x_copilot : Option CopilotResponseExtension

-- The int64 that a number from 0 on wraps around to.
unfoldable pub int64 : ℕ → ℤ
int64 n =
    let bits = n % 2 ^ 64 in if ltb bits (2 ^ 63) then pos bits else negsuc (2 ^ 64 - 1 - bits)

-- Usage.TotalTokens.
unfoldable pub total_tokens : Usage → ℤ
unfolding int64
total_tokens u = int64 (u.input_tokens + u.output_tokens)

-- BuildOpenAIChatCompletionResponse.
unfoldable pub build_open_ai_chat_completion_response :
    (now : ℕ) (id model content reasoning : String)
    → Usage
    → Option CopilotResponseExtension
    → OpenAiChatCompletionResponse
unfolding trim_space total_tokens
build_open_ai_chat_completion_response now id model content reasoning usage extension = record {
  id = id;
  object = "chat.completion";
  created = now;
  model = model;
  choices =
      (record {
        index = 0;
        message = record {
          role = "assistant";
          content = content;
          reasoning = trim_space reasoning;
        };
        finish_reason = "stop";
      })
      ∷ [];
  usage = record {
    prompt_tokens = usage.input_tokens;
    completion_tokens = usage.output_tokens;
    total_tokens = total_tokens usage;
  };
  x_copilot = extension;
}

-- BuildOpenAIStreamChunk.
unfoldable pub build_open_ai_stream_chunk :
    (now : ℕ) (id model : String)
    → OpenAiDelta
    → Option String
    → Option (Option RuntimeEvent)
    → OpenAiChatCompletionChunk
build_open_ai_stream_chunk now id model delta finish_reason extension = record {
  id = id;
  object = "chat.completion.chunk";
  created = now;
  model = model;
  choices = (record { index = 0; delta = delta; finish_reason = finish_reason }) ∷ [];
  usage = none;
  x_copilot = extension;
}

-- BuildOpenAIUsageChunk.
unfoldable pub build_open_ai_usage_chunk :
    (now : ℕ) (id model : String) → Usage → OpenAiChatCompletionChunk
unfolding total_tokens
build_open_ai_usage_chunk now id model usage = record {
  id = id;
  object = "chat.completion.chunk";
  created = now;
  model = model;
  choices = [];
  usage = some (record {
    prompt_tokens = usage.input_tokens;
    completion_tokens = usage.output_tokens;
    total_tokens = total_tokens usage;
  });
  x_copilot = none;
}

-- The body of the loop of BuildOpenAIModelsResponse.
unfoldable pub model_info : ℕ → Model → OpenAiModelInfo
model_info now m = record {
  id = m.id;
  object = "model";
  created = now;
  owned_by = "github-copilot";
  x_copilot = some (record {
    supports = m.supports;
    limits = m.limits;
    supported_reasoning_efforts = m.supported_reasoning_efforts;
    default_reasoning_effort = m.default_reasoning_effort;
  });
}

-- BuildOpenAIModelsResponse.
unfoldable pub build_open_ai_models_response : ℕ → List Model → OpenAiModelsResponse
unfolding model_info
build_open_ai_models_response now models = record {
  object = "list";
  models = map (model_info now) models;
}

-- BuildClaudeMessageResponse.
unfoldable pub build_claude_message_response :
    (id model content : String) → Usage → Option CopilotResponseExtension → ClaudeMessageResponse
build_claude_message_response id model content usage extension = record {
  id = id;
  type = "message";
  role = "assistant";
  model = model;
  content = (record { type = "text"; text = content }) ∷ [];
  stop_reason = "end_turn";
  stop_sequence = none;
  usage = record {
    input_tokens = usage.input_tokens;
    output_tokens = usage.output_tokens;
    cache_creation_input_tokens = usage.cache_write_tokens;
    cache_read_input_tokens = usage.cache_read_tokens;
  };
  x_copilot = extension;
}

-- With token counts that are not negative, TotalTokens is their sum exactly if the sum fits into 63
-- bits.
pub total_tokens-pos_iff :
    (u : Usage)
    → u.input_tokens < 2 ^ 63
    → u.output_tokens < 2 ^ 63
    → (total_tokens u ≡ pos (u.input_tokens + u.output_tokens))
      ↔ (u.input_tokens + u.output_tokens < 2 ^ 63)
unfolding total_tokens int64
total_tokens-pos_iff u a b = ground arith
