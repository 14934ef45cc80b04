-- ===== src/Compat/Types.antt =====
-- internal/compat/common.go: conversations and the extension x_copilot of a request.
use copilot_sdkapi.Base.{ℕ, String, Bool, Option, List, Map}
use copilot_sdkapi.Json.{Fields}

-- ImageAttachment; its data are bytes.
pub record ImageAttachment : Type 0 where
  pub media_type : String
  pub data_bytes : List ℕ
  pub url : String

pub record Turn : Type 0 where
  pub role : String
  pub content : String
  pub attachments : List ImageAttachment

-- Without parameters, a tool's are `none`.
pub record CopilotToolDefinition : Type 0 where
  pub name : String
  pub description : String
  pub parameters : Option Fields
  pub override_builtin : Bool
  pub skip_permission : Bool

pub record CopilotAttachment : Type 0 where
  pub name : String
  pub media_type : String
  pub data_text : String
  pub text : String
  pub url : String

pub record CopilotProviderConfig : Type 0 where
  pub type : String
  pub wire_api : String
  pub base_url : String
  pub api_key : String
  pub bearer_token : String
  -- CopilotProviderAzureConfig.
  pub azure : Option String

pub record CopilotSectionOverride : Type 0 where
  pub action : String
  pub content : String

pub record CopilotRequestExtension : Type 0 where
  pub agent : String
  pub system_message_mode : String
  pub system_message_sections : Map CopilotSectionOverride
  pub include_reasoning : Bool
  pub include_runtime_events : Bool
  pub interactive : Bool
  pub permission_mode : String
  pub tools : List CopilotToolDefinition
  pub attachments : List CopilotAttachment
  pub provider : Option CopilotProviderConfig

pub record ConversationRequest : Type 0 where
  pub model : String
  pub system_prompt : String
  pub reasoning_effort : String
  pub stream : Bool
  pub include_usage_in_stream : Bool
  pub turns : List Turn
  pub copilot : CopilotRequestExtension
