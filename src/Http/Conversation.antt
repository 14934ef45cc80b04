-- ===== src/Http/Conversation.antt =====
-- internal/httpapi/server.go: what prepareConversation makes of a request before it acquires a
-- session. The fingerprints, which are SHA-256 of JSON texts, are a parameter.
pub mod Checked
use copilot_sdkapi.Base.{
  String, Bool, true, false, not, ◌&&◌, ◌||◌, Option, none, some, List, [], ◌∷◌, ◌++◌, map, Map,
  is_empty, if◌then◌else◌, ◌==◌,
}
use copilot_sdkapi.Strings.{trim_space}
use copilot_sdkapi.Errors.{
  GoError, sentinel, detailed, message, of_http, invalid_tool, invalid_provider,
  interactive_requires_session_key, Result, ok, err, ◌>>=◌, ◌>>◌, reject, as_result,
}
use copilot_sdkapi.Runtime.Types.{
  PermissionMode, mode_bridge, SectionOverride, ToolDefinition, ProviderConfig, SessionOptions,
  MessageOptions, Attachment,
}
use copilot_sdkapi.Compat.Types.{
  CopilotToolDefinition, CopilotSectionOverride, CopilotProviderConfig, CopilotRequestExtension,
  ConversationRequest,
}
use copilot_sdkapi.Compat.Prompt.{build_prompt, latest_user_prompt, latest_user_turn}
use copilot_sdkapi.Session.Spec.{Spec}
use copilot_sdkapi.Session.Store.{Time}
use copilot_sdkapi.Session.Manager.{Manager}
use copilot_sdkapi.Session.Manager.Opening.{Opening, Creation}
use copilot_sdkapi.Session.Manager.Acquire.{Turn, acquire}
use copilot_sdkapi.Session.Manager.Lease.{Lease, is_persistent, release}
use copilot_sdkapi.Http.Provider.{Url, Addr, to_runtime_provider}
use copilot_sdkapi.Http.Permissions.{effective_permission_mode}
use copilot_sdkapi.Http.Features.{
  Checks, effective_system_message_mode, validate_conversation_features,
}
use copilot_sdkapi.Http.Attachments.{
  Calls, Scratch, Cleanup, cleaned, combine_cleanup, materialize_attachments,
  materialize_copilot_attachments,
}
use copilot_sdkapi.Http.Attachments.Limits.{validate_materialized_image_attachments}

-- toRuntimeSectionOverrides.
abbrev override : CopilotSectionOverride → SectionOverride
override o = record { action = o.action; content = o.content }

unfoldable pub to_runtime_section_overrides : Map CopilotSectionOverride → Map SectionOverride
to_runtime_section_overrides [] = []
to_runtime_section_overrides ((k, o) ∷ rest) = (k, override o) ∷ to_runtime_section_overrides rest

-- effectiveAgent.
unfoldable pub effective_agent : (request default : String) → String
unfolding trim_space
effective_agent request default =
    if trim_space request == "" then trim_space default else trim_space request

-- hasCopilotRequestExtension.
unfoldable pub has_copilot_request_extension : CopilotRequestExtension → Bool
unfolding trim_space
has_copilot_request_extension x =
    x.include_reasoning
    || x.include_runtime_events
    || x.interactive
    || not (trim_space x.permission_mode == "")
    || elim x.provider [ none ↦ false | some p ↦ true ]
    || not (is_empty x.attachments)
    || not (is_empty x.tools)
    || not (is_empty x.system_message_sections)
    || not (trim_space x.agent == "")
    || not (trim_space x.system_message_mode == "")

-- toRuntimeTools; a copy of parameters is the parameters.
unfoldable pub to_runtime_tools : List CopilotToolDefinition → List ToolDefinition
to_runtime_tools [] = []
to_runtime_tools (d ∷ rest) =
    (record {
      name = d.name;
      description = d.description;
      parameters = d.parameters;
      override_builtin = d.override_builtin;
      skip_permission = d.skip_permission;
    })
    ∷ to_runtime_tools rest

-- Server.resolveModel.
unfoldable pub resolve_model : (default model : String) → String
unfolding trim_space
resolve_model default model = let m = trim_space model in if m == "" then default else m

-- toolDefinitionsFingerprint, and the public and the secret fingerprint of toRuntimeProvider.
pub record Fingerprints : Type 0 where
  pub of_tools : List CopilotToolDefinition → Result String
  pub of_provider : ProviderConfig → Result (String × String)

-- What prepareConversation reads of the server: of its configuration, and its provider; with
-- url.Parse and net.ParseIP.
pub record Server : Type 0 where
  pub default_model : String
  pub default_agent : String
  pub checks : Checks
  pub allow_private_urls : Bool
  pub parse_url : String → Option Url
  pub parse_ip : String → Option Addr
  pub fingerprints : Fingerprints
  pub new_session : SessionOptions → Creation
  pub resume_session : String → SessionOptions → Creation
  pub delete_session : String → Option GoError

-- The clock's readings during Acquire, and that of a Release.
pub record Clock : Type 0 where
  pub checked_at : Time
  pub created_at : Time
  pub touched_at : Time
  pub saved_at : Time
  pub released_at : Time

-- A conversation that needs later requests to go on.
abbrev pub requires_continuation : ConversationRequest → PermissionMode → Bool
requires_continuation r mode =
    r.copilot.interactive || not (is_empty r.copilot.tools) || mode == mode_bridge

-- toRuntimeProvider with its fingerprints.
unfoldable pub provider_of :
    Server → Option CopilotProviderConfig → Result (Option ProviderConfig × (String × String))
unfolding to_runtime_provider
provider_of server none = ok (none, ("", ""))
provider_of server (some p) =
    to_runtime_provider server.parse_url server.parse_ip server.allow_private_urls p >>= λ c.
    elim (server.fingerprints.of_provider c) [
      | ok sums ↦ ok (some c, sums)
      | err e ↦ err (detailed (of_http invalid_provider) (message e))
    ]

abbrev pub tools_fingerprint : Fingerprints → List CopilotToolDefinition → Result String
tools_fingerprint prints tools = elim (prints.of_tools tools) [
  | ok sum ↦ ok sum
  | err e ↦ err (detailed (of_http invalid_tool) (message e))
]

-- The arguments of Acquire.
unfoldable pub opening_of :
    Server
    → Clock
    → String
    → ConversationRequest
    → PermissionMode
    → Option ProviderConfig × (String × String)
    → String
    → Opening
unfolding resolve_model effective_system_message_mode effective_agent to_runtime_tools
    to_runtime_section_overrides
opening_of server clock key r mode (provider, (public, secret)) tools =
    let model = resolve_model server.default_model r.model in
    let system_mode = effective_system_message_mode r.copilot.system_message_mode in
    let agent = effective_agent r.copilot.agent server.default_agent in
    let options : String → SessionOptions = λ id. record {
      session_id = id;
      model = model;
      system_prompt = r.system_prompt;
      system_prompt_mode = system_mode;
      system_message_sections = to_runtime_section_overrides r.copilot.system_message_sections;
      reasoning_effort = r.reasoning_effort;
      agent = agent;
      interactive = r.copilot.interactive;
      tools = to_runtime_tools r.copilot.tools;
      permission_mode = mode;
      provider = provider;
    } in
    record {
      key = key;
      spec = record {
        model = model;
        system_prompt = r.system_prompt;
        system_prompt_mode = system_mode;
        reasoning_effort = r.reasoning_effort;
        agent = agent;
        interactive = r.copilot.interactive;
        tools_fingerprint = tools;
        permission_mode = mode;
        provider_fingerprint = public;
        provider_secret_fingerprint = secret;
      };
      factory = server.new_session (options key);
      resume = some (λ id. server.resume_session id (options id));
      delete_by_id = some server.delete_session;
      checked_at = clock.checked_at;
      created_at = clock.created_at;
      touched_at = clock.touched_at;
      saved_at = clock.saved_at;
    }

-- prepareConversation before it acquires a session: the permission mode and the arguments.
unfoldable pub check_conversation :
    Server → Clock → String → ConversationRequest → Result (PermissionMode × Opening)
unfolding effective_permission_mode validate_conversation_features resolve_model provider_of
    opening_of
check_conversation server clock key r = do
  let model = resolve_model server.default_model r.model
  mode ← effective_permission_mode r.copilot.permission_mode server.checks.permission_mode
  reject (key == "" && requires_continuation r mode)
      (sentinel (of_http interactive_requires_session_key))
  as_result (validate_conversation_features server.checks model r)
  provider ← provider_of server r.copilot.provider
  tools ← tools_fingerprint server.fingerprints r.copilot.tools
  ok (mode, opening_of server clock key r mode provider tools)
