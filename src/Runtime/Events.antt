-- ===== src/Runtime/Events.antt =====
-- internal/runtime/runtime.go: events, and the result of a message.
pub mod Kind
use copilot_sdkapi.Base.{ℕ, String, Bool, Option, none, List, [], ◌+◌, ◌*◌, ◌/◌, ◌^◌}
use copilot_sdkapi.Json.{Value, Fields, null}
use copilot_sdkapi.Errors.{ResponseError}
use copilot_sdkapi.Runtime.Types.{Usage, PermissionRequestSummary, UserInputRequestSummary}
use copilot_sdkapi.Runtime.Events.Kind.{EventType}

-- A float64 that is a number from 0 on: `mantissa / 2 ^ scale`.
pub record Float : Type 0 where
  pub mantissa : ℕ
  pub scale : ℕ

-- RuntimeEvent.
pub record RuntimeEvent : Type 0 where
  pub type : EventType
  pub content : String
  pub delta : String
  pub role : String
  pub name : String
  pub request_id : String
  pub call_id : String
  pub tool_name : String
  pub mcp_server_name : String
  pub mcp_tool_name : String
  pub arguments : Value
  pub success : Option Bool
  pub result : String
  pub detailed_result : String
  pub telemetry : Option Fields
  pub permission_request : Option PermissionRequestSummary
  pub user_input_request : Option UserInputRequestSummary
  pub summary_content : String
  pub tokens_removed : ℕ
  pub agent_name : String
  pub agent_display_name : String
  pub agent_description : String
  pub allowed_tools : List String
  pub turn_id : String
  pub model : String
  pub previous_model : String
  pub duration_ms : Float
  pub total_tokens : ℕ
  pub total_tool_calls : ℕ
  pub payload : Option Fields

-- `RuntimeEvent{Type: ...}`: the other fields are zero.
abbrev pub runtime_event : EventType → RuntimeEvent
runtime_event type = record {
  type = type;
  content = "";
  delta = "";
  role = "";
  name = "";
  request_id = "";
  call_id = "";
  tool_name = "";
  mcp_server_name = "";
  mcp_tool_name = "";
  arguments = null;
  success = none;
  result = "";
  detailed_result = "";
  telemetry = none;
  permission_request = none;
  user_input_request = none;
  summary_content = "";
  tokens_removed = 0;
  agent_name = "";
  agent_display_name = "";
  agent_description = "";
  allowed_tools = [];
  turn_id = "";
  model = "";
  previous_model = "";
  duration_ms = record { mantissa = 0; scale = 0 };
  total_tokens = 0;
  total_tool_calls = 0;
  payload = none;
}

-- Event. Its error is a runtime.ResponseError.
pub record Event : Type 0 where
  pub type : EventType
  pub delta : String
  pub content : String
  pub usage : Usage
  pub error : Option ResponseError
  pub runtime : Option RuntimeEvent

abbrev pub no_usage : Usage
no_usage = record {
  input_tokens = 0;
  output_tokens = 0;
  cache_read_tokens = 0;
  cache_write_tokens = 0;
}

-- `Event{Type: ...}`.
abbrev pub event : EventType → Event
event type = record {
  type = type;
  delta = "";
  content = "";
  usage = no_usage;
  error = none;
  runtime = none;
}

-- Result.
pub record Reply : Type 0 where
  pub session_id : String
  pub content : String
  pub reasoning : String
  pub usage : Usage
  pub runtime_events : List RuntimeEvent
