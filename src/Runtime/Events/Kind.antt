-- ===== src/Runtime/Events/Kind.antt =====
-- internal/runtime/runtime.go: the types of events.
use copilot_sdkapi.Base.{String}

-- EventType, a string type with named values.
abbrev pub EventType : Type 0
EventType = String

abbrev pub message_delta : EventType
message_delta = "message_delta"

abbrev pub message : EventType
message = "message"

abbrev pub reasoning_delta : EventType
reasoning_delta = "reasoning_delta"

abbrev pub reasoning : EventType
reasoning = "reasoning"

abbrev pub tool_execution_start : EventType
tool_execution_start = "tool_execution_start"

abbrev pub tool_execution_complete : EventType
tool_execution_complete = "tool_execution_complete"

abbrev pub permission_requested : EventType
permission_requested = "permission_requested"

abbrev pub permission_completed : EventType
permission_completed = "permission_completed"

abbrev pub user_input_requested : EventType
user_input_requested = "user_input_requested"

abbrev pub external_tool_requested : EventType
external_tool_requested = "external_tool_requested"

abbrev pub session_compaction_start : EventType
session_compaction_start = "session_compaction_start"

abbrev pub session_compaction_complete : EventType
session_compaction_complete = "session_compaction_complete"

abbrev pub system_message : EventType
system_message = "system_message"

abbrev pub skill_invoked : EventType
skill_invoked = "skill_invoked"

abbrev pub subagent_selected : EventType
subagent_selected = "subagent_selected"

abbrev pub subagent_started : EventType
subagent_started = "subagent_started"

abbrev pub subagent_completed : EventType
subagent_completed = "subagent_completed"

abbrev pub subagent_failed : EventType
subagent_failed = "subagent_failed"

abbrev pub assistant_intent : EventType
assistant_intent = "assistant_intent"

abbrev pub assistant_turn_start : EventType
assistant_turn_start = "assistant_turn_start"

abbrev pub assistant_turn_end : EventType
assistant_turn_end = "assistant_turn_end"

abbrev pub session_warning : EventType
session_warning = "session_warning"

abbrev pub session_model_change : EventType
session_model_change = "session_model_change"

abbrev pub tool_execution_progress : EventType
tool_execution_progress = "tool_execution_progress"

abbrev pub tool_execution_partial_result : EventType
tool_execution_partial_result = "tool_execution_partial_result"

abbrev pub usage : EventType
usage = "usage"

abbrev pub error : EventType
error = "error"

abbrev pub generic : EventType
generic = "generic"
