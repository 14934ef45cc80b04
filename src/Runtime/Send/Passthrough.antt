-- ===== src/Runtime/Send/Passthrough.antt =====
-- internal/runtime/copilot.go: the SDK events that Send passes on as they are.
use copilot_sdkapi.Base.{String, Option, none, some}
use copilot_sdkapi.Runtime.Events.{Event, RuntimeEvent, runtime_event}
use copilot_sdkapi.Runtime.Events.Kind
use copilot_sdkapi.Runtime.Bridge.Answers.{clone_map}
use copilot_sdkapi.Runtime.Sdk.{
  SdkEventType, Payload, deref, int64_from_float, result_content, result_detailed_content,
  error_union_message,
}
use copilot_sdkapi.Runtime.Send.{report}

-- The events of a tool's execution.
unfoldable pub tool_started : Payload → RuntimeEvent
unfolding deref
tool_started d = record (runtime_event Kind.tool_execution_start) {
  call_id = deref d.tool_call_id;
  tool_name = deref d.tool_name;
  mcp_server_name = deref d.mcp_server_name;
  mcp_tool_name = deref d.mcp_tool_name;
  arguments = d.arguments;
}

unfoldable pub tool_completed : Payload → RuntimeEvent
unfolding deref result_content result_detailed_content clone_map error_union_message
tool_completed d = record (runtime_event Kind.tool_execution_complete) {
  call_id = deref d.tool_call_id;
  tool_name = deref d.tool_name;
  mcp_server_name = deref d.mcp_server_name;
  mcp_tool_name = deref d.mcp_tool_name;
  arguments = d.arguments;
  success = d.success;
  result = result_content d.result;
  detailed_result = result_detailed_content d.result;
  telemetry = clone_map d.tool_telemetry;
  content = error_union_message d.error;
}

-- A tool's progress and its partial results.
unfoldable pub tool_progress : String → Option String → Payload → RuntimeEvent
unfolding deref
tool_progress type content d = record (runtime_event type) {
  call_id = deref d.tool_call_id;
  tool_name = deref d.tool_name;
  content = deref content;
}

unfoldable pub compaction_completed : Payload → RuntimeEvent
unfolding deref int64_from_float error_union_message
compaction_completed d = record (runtime_event Kind.session_compaction_complete) {
  summary_content = deref d.summary_content;
  tokens_removed = int64_from_float d.tokens_removed;
  success = d.success;
  content = error_union_message d.error;
}

-- A subagent that is selected or started.
unfoldable pub subagent_described : String → Payload → RuntimeEvent
unfolding deref
subagent_described type d = record (runtime_event type) {
  agent_name = deref d.agent_name;
  agent_display_name = deref d.agent_display_name;
  agent_description = deref d.agent_description;
  allowed_tools = d.tools;
}

unfoldable pub message_of_system : Payload → RuntimeEvent
unfolding deref
message_of_system d = record (runtime_event Kind.system_message) {
  role = deref d.role;
  content = deref d.content;
  name = deref d.name;
}

-- The cases of the switch that do nothing but dispatch; `none` at the others.
unfoldable pub passed_on : SdkEventType → Payload → Option Event
unfolding deref tool_started tool_completed tool_progress compaction_completed subagent_described
    message_of_system error_union_message
passed_on SdkEventType.tool_execution_start d =
    some (report Kind.tool_execution_start (tool_started d))
passed_on SdkEventType.tool_execution_complete d =
    some (report Kind.tool_execution_complete (tool_completed d))
passed_on SdkEventType.session_compaction_start d =
    some (report Kind.session_compaction_start (runtime_event Kind.session_compaction_start))
passed_on SdkEventType.session_compaction_complete d =
    some (report Kind.session_compaction_complete (compaction_completed d))
passed_on SdkEventType.system_message d = some (report Kind.system_message (message_of_system d))
passed_on SdkEventType.skill_invoked d = some (
    report Kind.skill_invoked (record (runtime_event Kind.skill_invoked) {
      name = deref d.name;
      allowed_tools = d.allowed_tools;
    }))
passed_on SdkEventType.subagent_selected d =
    some (report Kind.subagent_selected (subagent_described Kind.subagent_selected d))
passed_on SdkEventType.subagent_started d =
    some (report Kind.subagent_started (subagent_described Kind.subagent_started d))
passed_on SdkEventType.subagent_completed d = some (
    report Kind.subagent_completed
      (record (runtime_event Kind.subagent_completed) { agent_name = deref d.agent_name }))
passed_on SdkEventType.subagent_failed d = some (
    report Kind.subagent_failed (record (runtime_event Kind.subagent_failed) {
      agent_name = deref d.agent_name;
      content = error_union_message d.error;
    }))
passed_on SdkEventType.assistant_intent d = some (
    report Kind.assistant_intent (record (runtime_event Kind.assistant_intent) {
      content = deref d.intent;
      turn_id = deref d.turn_id;
    }))
passed_on SdkEventType.assistant_turn_start d = some (
    report Kind.assistant_turn_start (record (runtime_event Kind.assistant_turn_start) {
      turn_id = deref d.turn_id;
      model = deref d.model;
    }))
passed_on SdkEventType.assistant_turn_end d = some (
    report Kind.assistant_turn_end
      (record (runtime_event Kind.assistant_turn_end) { turn_id = deref d.turn_id }))
passed_on SdkEventType.session_warning d = some (
    report Kind.session_warning (record (runtime_event Kind.session_warning) {
      content = deref d.message;
      name = deref d.warning_type;
    }))
passed_on SdkEventType.session_model_change d = some (
    report Kind.session_model_change (record (runtime_event Kind.session_model_change) {
      model = deref d.new_model;
      previous_model = deref d.previous_model;
    }))
passed_on SdkEventType.tool_execution_progress d = some (
    report Kind.tool_execution_progress
      (tool_progress Kind.tool_execution_progress d.progress_message d))
passed_on SdkEventType.tool_execution_partial_result d = some (
    report Kind.tool_execution_partial_result
      (tool_progress Kind.tool_execution_partial_result d.partial_output d))
passed_on (SdkEventType.other name) d = some (
    report Kind.generic
      (record (runtime_event name) { content = deref d.content; name = deref d.name }))
passed_on _ d = none
