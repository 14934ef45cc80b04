-- ===== src/Errors/Sentinels.antt =====
-- The sentinel errors that the packages declare, and those of the standard library that
-- httpapi.classifyError tells apart.
use copilot_sdkapi.Base.{ℕ, String, Bool, eqb}

-- internal/runtime/runtime.go and copilot.go.
pub data RuntimeSentinel : Type 0 where
  session_not_found pending_request_not_found pending_requests_unsupported : RuntimeSentinel
  concurrent_user_input concurrent_permission : RuntimeSentinel

-- internal/session/manager.go.
pub data SessionSentinel : Type 0 where
  session_spec_mismatch too_many_sessions too_many_sessions_for_namespace : SessionSentinel

-- internal/compat/common.go.
pub data CompatSentinel : Type 0 where
  no_turns final_turn_not_user unsupported_content unsupported_tools : CompatSentinel
  unsupported_controls unsupported_message_fields unsupported_images : CompatSentinel
  invalid_image_data : CompatSentinel

-- internal/auth/apikey.go.
pub data AuthSentinel : Type 0 where
  unauthorized : AuthSentinel

-- internal/httpapi/server.go.
pub data HttpSentinel : Type 0 where
  stream_idle_timeout invalid_session_key missing_session_key invalid_anthropic_version :
      HttpSentinel
  unsupported_reasoning_effort unsupported_vision_model model_limits_exceeded : HttpSentinel
  unknown_model_capabilities invalid_system_message_mode unknown_agent : HttpSentinel
  interactive_requires_stream interactive_requires_session_key : HttpSentinel
  invalid_permission_mode invalid_provider permission_escalation invalid_tool : HttpSentinel
  invalid_response invalid_attachment : HttpSentinel

-- context, io, encoding/json and net/http.
pub data LibrarySentinel : Type 0 where
  deadline_exceeded canceled eof unexpected_eof json_syntax json_type max_bytes : LibrarySentinel

pub data Sentinel : Type 0 where
  of_runtime : RuntimeSentinel → Sentinel
  of_session : SessionSentinel → Sentinel
  of_compat : CompatSentinel → Sentinel
  of_auth : AuthSentinel → Sentinel
  of_http : HttpSentinel → Sentinel
  of_library : LibrarySentinel → Sentinel

abbrev runtime_tag : RuntimeSentinel → ℕ
runtime_tag session_not_found = 0
runtime_tag pending_request_not_found = 1
runtime_tag pending_requests_unsupported = 2
runtime_tag concurrent_user_input = 3
runtime_tag concurrent_permission = 4

abbrev session_tag : SessionSentinel → ℕ
session_tag session_spec_mismatch = 10
session_tag too_many_sessions = 11
session_tag too_many_sessions_for_namespace = 12

abbrev compat_tag : CompatSentinel → ℕ
compat_tag no_turns = 20
compat_tag final_turn_not_user = 21
compat_tag unsupported_content = 22
compat_tag unsupported_tools = 23
compat_tag unsupported_controls = 24
compat_tag unsupported_message_fields = 25
compat_tag unsupported_images = 26
compat_tag invalid_image_data = 27

abbrev http_tag : HttpSentinel → ℕ
http_tag stream_idle_timeout = 40
http_tag invalid_session_key = 41
http_tag missing_session_key = 42
http_tag invalid_anthropic_version = 43
http_tag unsupported_reasoning_effort = 44
http_tag unsupported_vision_model = 45
http_tag model_limits_exceeded = 46
http_tag unknown_model_capabilities = 47
http_tag invalid_system_message_mode = 48
http_tag unknown_agent = 49
http_tag interactive_requires_stream = 50
http_tag interactive_requires_session_key = 51
http_tag invalid_permission_mode = 52
http_tag invalid_provider = 53
http_tag permission_escalation = 54
http_tag invalid_tool = 55
http_tag invalid_response = 56
http_tag invalid_attachment = 57

abbrev library_tag : LibrarySentinel → ℕ
library_tag deadline_exceeded = 70
library_tag canceled = 71
library_tag eof = 72
library_tag unexpected_eof = 73
library_tag json_syntax = 74
library_tag json_type = 75
library_tag max_bytes = 76

-- The identity of a sentinel, as the address of the variable that holds it.
abbrev pub tag : Sentinel → ℕ
tag (of_runtime s) = runtime_tag s
tag (of_session s) = session_tag s
tag (of_compat s) = compat_tag s
tag (of_auth s) = 30
tag (of_http s) = http_tag s
tag (of_library s) = library_tag s

abbrev pub same_sentinel : Sentinel → Sentinel → Bool
same_sentinel s t = eqb (tag s) (tag t)

unfoldable pub runtime_text : RuntimeSentinel → String
runtime_text session_not_found = "runtime session not found"
runtime_text pending_request_not_found = "pending request not found"
runtime_text pending_requests_unsupported = "pending request continuation is not supported"
runtime_text concurrent_user_input = "concurrent user input requests are not supported"
runtime_text concurrent_permission = "concurrent permission requests are not supported"

unfoldable pub session_text : SessionSentinel → String
session_text session_spec_mismatch = "session exists with different model or session settings"
session_text too_many_sessions = "too many active sessions"
session_text too_many_sessions_for_namespace = "too many active sessions for API key"

unfoldable pub compat_text : CompatSentinel → String
compat_text no_turns = "request must include at least one conversation turn"
compat_text final_turn_not_user = "final conversation turn must be a user message"
compat_text unsupported_content = "only text and supported image message content are supported"
compat_text unsupported_tools = "tool use is not supported by this gateway yet"
compat_text unsupported_controls = "generation controls are not supported by this gateway yet"
compat_text unsupported_message_fields = "message fields are not supported by this gateway yet"
compat_text unsupported_images = "image content is only supported on the latest user message"
compat_text invalid_image_data = "invalid image content"

unfoldable pub http_text : HttpSentinel → String
http_text stream_idle_timeout = "stream idle timeout exceeded"
http_text invalid_session_key = "invalid session key"
http_text missing_session_key = "X-Session-ID header is required"
http_text invalid_anthropic_version = "unsupported anthropic-version header"
http_text unsupported_reasoning_effort = "reasoning effort is not supported by the selected model"
http_text unsupported_vision_model = "image input is not supported by the selected model"
http_text model_limits_exceeded = "request exceeds model capability limits"
http_text unknown_model_capabilities = "requested model is not listed in /v1/models"
http_text invalid_system_message_mode = "unsupported x_copilot.system_message_mode"
http_text unknown_agent = "unknown x_copilot.agent"
http_text interactive_requires_stream = "x_copilot continuation flows require stream=true"
http_text interactive_requires_session_key = "x_copilot continuation flows require X-Session-ID"
http_text invalid_permission_mode = "unsupported x_copilot.permission_mode"
http_text invalid_provider = "unsupported x_copilot.provider"
http_text permission_escalation = "x_copilot.permission_mode cannot exceed server permission policy"
http_text invalid_tool = "invalid x_copilot.tools entry"
http_text invalid_response = "invalid x_copilot continuation request"
http_text invalid_attachment = "invalid x_copilot attachment"

-- The texts of the library's errors; those of the JSON and size errors carry details in Go.
unfoldable pub library_text : LibrarySentinel → String
library_text deadline_exceeded = "context deadline exceeded"
library_text canceled = "context canceled"
library_text eof = "EOF"
library_text unexpected_eof = "unexpected EOF"
library_text json_syntax = "invalid character"
library_text json_type = "json: cannot unmarshal"
library_text max_bytes = "http: request body too large"

unfoldable pub sentinel_text : Sentinel → String
unfolding runtime_text session_text compat_text http_text library_text
sentinel_text (of_runtime s) = runtime_text s
sentinel_text (of_session s) = session_text s
sentinel_text (of_compat s) = compat_text s
sentinel_text (of_auth s) = "unauthorized"
sentinel_text (of_http s) = http_text s
sentinel_text (of_library s) = library_text s
