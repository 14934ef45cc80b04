-- ===== src/Runtime/Types.antt =====
-- internal/runtime/runtime.go: the data that the gateway exchanges with a Copilot session.
use copilot_sdkapi.Base.{ℕ, String, Bool, Option, List, Map}
use copilot_sdkapi.Json.{Value, Fields}

-- PermissionMode, a string type with four named values.
abbrev pub PermissionMode : Type 0
PermissionMode = String

abbrev pub mode_deny : PermissionMode
mode_deny = "deny"

abbrev pub mode_allow : PermissionMode
mode_allow = "allow"

abbrev pub mode_bridge : PermissionMode
mode_bridge = "bridge"

abbrev pub mode_inherit : PermissionMode
mode_inherit = "inherit"

pub record SectionOverride : Type 0 where
  pub action : String
  pub content : String

pub record ProviderConfig : Type 0 where
  pub type : String
  pub wire_api : String
  pub base_url : String
  pub api_key : String
  pub bearer_token : String
  pub azure_api_version : String

pub record ToolDefinition : Type 0 where
  pub name : String
  pub description : String
  pub parameters : Option Fields
  pub override_builtin : Bool
  pub skip_permission : Bool

-- SessionOptions.
pub record SessionOptions : Type 0 where
  pub session_id : String
  pub model : String
  pub system_prompt : String
  pub system_prompt_mode : String
  pub system_message_sections : Map SectionOverride
  pub reasoning_effort : String
  pub agent : String
  pub interactive : Bool
  pub tools : List ToolDefinition
  pub permission_mode : PermissionMode
  pub provider : Option ProviderConfig

pub record Attachment : Type 0 where
  pub path : String
  pub media_type : String
  pub blob_data : String

pub record ToolBinaryResult : Type 0 where
  pub content : String
  pub mime_type : String
  pub type : String
  pub description : String

pub record ToolResult : Type 0 where
  pub text_result : String
  pub binary_results : List ToolBinaryResult
  pub result_type : String
  pub session_log : String
  pub telemetry : Option Fields

pub record UserInputResponse : Type 0 where
  pub answer : String
  pub was_freeform : Bool

pub record PermissionResponse : Type 0 where
  pub result_kind : String
  pub rules : List Value

pub data PendingRequestKind : Type 0 where
  tool user_input permission : PendingRequestKind

pub record PermissionRequestSummary : Type 0 where
  pub kind : String
  pub tool_name : String
  pub server_name : String
  pub path : String
  pub url : String
  pub intention : String
  pub warning : String
  pub read_only : Option Bool
  pub commands : List String

pub record UserInputRequestSummary : Type 0 where
  pub question : String
  pub choices : List String
  pub allow_freeform : Option Bool
  pub requested_schema : Option Value

pub record PendingRequest : Type 0 where
  pub id : String
  pub kind : PendingRequestKind
  pub call_id : String
  pub tool_name : String
  pub arguments : Value
  pub permission_request : Option PermissionRequestSummary
  pub user_input_request : Option UserInputRequestSummary

pub record PendingResponse : Type 0 where
  pub request_id : String
  pub kind : PendingRequestKind
  pub tool_result : Option ToolResult
  pub tool_error : String
  pub user_input : Option UserInputResponse
  pub permission : Option PermissionResponse

pub record MessageOptions : Type 0 where
  pub prompt : String
  pub attachments : List Attachment

pub record Usage : Type 0 where
  pub input_tokens : ℕ
  pub output_tokens : ℕ
  pub cache_read_tokens : ℕ
  pub cache_write_tokens : ℕ

pub record ModelSupports : Type 0 where
  pub vision : Bool
  pub reasoning_effort : Bool

pub record ModelVisionLimits : Type 0 where
  pub supported_media_types : List String
  pub max_prompt_images : ℕ
  pub max_prompt_image_size : ℕ

pub record ModelLimits : Type 0 where
  pub max_prompt_tokens : Option ℕ
  pub max_output_tokens : Option ℕ
  pub max_context_window_tokens : ℕ
  pub vision : Option ModelVisionLimits

pub record Model : Type 0 where
  pub id : String
  pub name : String
  pub supports : ModelSupports
  pub limits : ModelLimits
  pub supported_reasoning_efforts : List String
  pub default_reasoning_effort : String
