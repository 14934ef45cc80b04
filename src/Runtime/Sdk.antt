-- ===== src/Runtime/Sdk.antt =====
-- The events of the Copilot SDK, as far as internal/runtime/copilot.go reads them, and its helpers
-- that read optional fields. The SDK's structs are data that arrive.
use copilot_sdkapi.Base.{
  ℕ, ◌+◌, ◌*◌, ◌/◌, ◌^◌, String, Bool, true, false, not, ◌&&◌, ◌||◌, Option, none, some, List, [],
  ◌∷◌, is_empty, ltb, if◌then◌else◌, ◌==◌,
}
use copilot_sdkapi.Strings.{trim_space, normalized}
use copilot_sdkapi.Json.{
  Value, Fields, Elements, no_fields, field, object, array, text, null, element, no_elements,
}
use copilot_sdkapi.Errors.{ResponseError}
use copilot_sdkapi.Runtime.Types.{Usage, PermissionRequestSummary, UserInputRequestSummary}
use copilot_sdkapi.Runtime.Events.{Float}
use copilot_sdkapi.Runtime.Bridge.Answers.{clone_map}

-- copilot.PermissionRequest; a command is its Identifier.
pub record PermissionRequest : Type 0 where
  pub kind : String
  pub tool_name : Option String
  pub server_name : Option String
  pub path : Option String
  pub url : Option String
  pub intention : Option String
  pub warning : Option String
  pub read_only : Option Bool
  pub commands : List String

pub record RequestedSchema : Type 0 where
  pub type : String
  pub properties : Option Fields
  pub required : List String

-- copilot.Result.
pub record ToolOutcome : Type 0 where
  pub content : Option String
  pub detailed_content : Option String

-- copilot.ErrorUnion: a text, or the message of an error object.
pub record ErrorUnion : Type 0 where
  pub string : Option String
  pub error_class : Option String

-- copilot.Data.
pub record Payload : Type 0 where
  pub request_id : Option String
  pub tool_call_id : Option String
  pub tool_name : Option String
  pub mcp_server_name : Option String
  pub mcp_tool_name : Option String
  pub arguments : Value
  pub delta_content : Option String
  pub content : Option String
  pub reasoning_text : Option String
  pub success : Option Bool
  pub result : Option ToolOutcome
  pub tool_telemetry : Option Fields
  pub error : Option ErrorUnion
  pub permission_request : Option PermissionRequest
  pub question : Option String
  pub choices : List String
  pub allow_freeform : Option Bool
  pub requested_schema : Option RequestedSchema
  pub summary_content : Option String
  pub tokens_removed : Option Float
  pub role : Option String
  pub name : Option String
  pub allowed_tools : List String
  pub tools : List String
  pub agent_name : Option String
  pub agent_display_name : Option String
  pub agent_description : Option String
  pub intent : Option String
  pub turn_id : Option String
  pub model : Option String
  pub new_model : Option String
  pub previous_model : Option String
  pub message : Option String
  pub warning_type : Option String
  pub progress_message : Option String
  pub partial_output : Option String
  pub input_tokens : Option Float
  pub output_tokens : Option Float
  pub cache_read_tokens : Option Float
  pub cache_write_tokens : Option Float
  pub error_type : Option String
  pub status_code : Option ℕ

-- copilot.SessionEventType, by the names of its constants.
pub data SdkEventType : Type 0 where
  external_tool_requested external_tool_completed : SdkEventType
  assistant_message_delta assistant_message : SdkEventType
  assistant_reasoning_delta assistant_reasoning : SdkEventType
  tool_execution_start tool_execution_complete : SdkEventType
  permission_requested permission_completed : SdkEventType
  user_input_requested user_input_completed : SdkEventType
  session_compaction_start session_compaction_complete : SdkEventType
  system_message skill_invoked : SdkEventType
  subagent_selected subagent_started subagent_completed subagent_failed : SdkEventType
  assistant_intent assistant_turn_start assistant_turn_end : SdkEventType
  session_warning session_model_change : SdkEventType
  tool_execution_progress tool_execution_partial_result : SdkEventType
  assistant_usage session_error session_idle : SdkEventType
  other : String → SdkEventType

-- copilot.SessionEvent.
pub record SdkEvent : Type 0 where
  pub type : SdkEventType
  pub payload : Payload

-- deref; enumString does the same for the string types of the SDK.
unfoldable pub deref : Option String → String
deref none = ""
deref (some value) = value

-- firstNonEmpty, of two texts.
unfoldable pub first_non_empty : String → String → String
unfolding trim_space
first_non_empty a b =
    if not (trim_space a == "") then a else if not (trim_space b == "") then b else ""

-- math.Round: a half is rounded away from zero.
unfoldable pub round : Float → ℕ
round f = (2 * f.mantissa + 2 ^ f.scale) / (2 * 2 ^ f.scale)

-- int64FromFloat.
unfoldable pub int64_from_float : Option Float → ℕ
unfolding round
int64_from_float none = 0
int64_from_float (some f) = round f

-- intFromInt64.
unfoldable pub int_from_int64 : Option ℕ → ℕ
int_from_int64 none = 0
int_from_int64 (some n) = n

-- resultContent.
unfoldable pub result_content : Option ToolOutcome → String
unfolding deref
result_content none = ""
result_content (some r) = deref r.content

-- resultDetailedContent.
unfoldable pub result_detailed_content : Option ToolOutcome → String
unfolding deref
result_detailed_content none = ""
result_detailed_content (some r) = deref r.detailed_content

abbrev union_message : Option String → Option String → String
union_message (some s) class = s
union_message none (some message) = message
union_message none none = ""

-- errorUnionMessage.
unfoldable pub error_union_message : Option ErrorUnion → String
error_union_message none = ""
error_union_message (some e) = union_message e.string e.error_class

-- permissionSummary.
unfoldable pub permission_summary : Option PermissionRequest → Option PermissionRequestSummary
unfolding deref
permission_summary none = none
permission_summary (some r) = some (record {
  kind = r.kind;
  tool_name = deref r.tool_name;
  server_name = deref r.server_name;
  path = deref r.path;
  url = deref r.url;
  intention = deref r.intention;
  warning = deref r.warning;
  read_only = r.read_only;
  commands = r.commands;
})

abbrev texts : List String → Elements
texts [] = no_elements
texts (s ∷ ss) = element (text s) (texts ss)

abbrev properties_value : Option Fields → Value
properties_value none = null
properties_value (some fs) = object fs

-- The map that userInputSummary makes of a schema.
unfoldable pub schema_value : RequestedSchema → Value
unfolding clone_map
schema_value s =
    let required =
      if is_empty s.required
      then no_fields
      else field "required" (array (texts s.required)) no_fields in
    object (
      field "type" (text s.type)
        (field "properties" (properties_value (clone_map s.properties)) required))

abbrev given {ℓ} : {A : Type ℓ} → Option A → Bool
given none = false
given (some a) = true

-- userInputSummary.
unfoldable pub user_input_summary : Payload → Option UserInputRequestSummary
unfolding deref schema_value
user_input_summary d =
    if not (given d.question) && is_empty d.choices && not (given d.requested_schema)
    then none
    else some (record {
      question = deref d.question;
      choices = d.choices;
      allow_freeform = d.allow_freeform;
      requested_schema = elim d.requested_schema [ none ↦ none | some s ↦ some (schema_value s) ];
    })

-- statusCodeForErrorType.
unfoldable pub status_code_for_error_type : String → ℕ
unfolding normalized
status_code_for_error_type error_type =
    let t = normalized error_type in
    if t == "authentication"
    then 401
    else if t == "authorization"
    then 403
    else if t == "rate_limit" || t == "quota"
    then 429
    else if t == "query" || t == "invalid_request"
    then 400
    else 502

-- firstNonZeroStatus.
unfoldable pub first_non_zero_status : List ℕ → ℕ
first_non_zero_status [] = 0
first_non_zero_status (value ∷ values) =
    let rest = first_non_zero_status values in if ltb 0 value then value else rest

-- runtimeErrorFromEvent.
unfoldable pub runtime_error_from_event : Payload → ResponseError
unfolding trim_space deref first_non_zero_status int_from_int64 status_code_for_error_type
runtime_error_from_event d =
    let error_type = trim_space (deref d.error_type) in
    let message = trim_space (deref d.message) in
    record {
      type = error_type;
      text = if message == "" then "copilot session error" else message;
      status_code =
          first_non_zero_status
            (int_from_int64 d.status_code ∷ status_code_for_error_type error_type ∷ []);
    }

-- The usage that an event of the assistant reports.
unfoldable pub usage_of : Payload → Usage
unfolding int64_from_float
usage_of d = record {
  input_tokens = int64_from_float d.input_tokens;
  output_tokens = int64_from_float d.output_tokens;
  cache_read_tokens = int64_from_float d.cache_read_tokens;
  cache_write_tokens = int64_from_float d.cache_write_tokens;
}
