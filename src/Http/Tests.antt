-- ===== src/Http/Tests.antt =====
-- internal/httpapi and internal/auth: runs of the server's decisions, and the theorems at one request.
use copilot_sdkapi.Base.{
  ℕ, ◌≤◌, String, true, false, Option, none, some, List, [], ◌∷◌, any, ◌≡◌, ◌≢◌, ◌⊎◌, refl, arith,
  eq_iff, if◌then◌else◌, ◌==◌,
}
use copilot_sdkapi.Strings.{
  trim_space, trim_left, trim_right, to_lower, lower_char, normalized, cut_prefix, has_suffix,
}
use copilot_sdkapi.Errors.{plain, of_http, permission_escalation, ok, err, error_is}
use copilot_sdkapi.Runtime.Types.{
  PermissionMode, mode_bridge, Model, ModelVisionLimits, ProviderConfig,
}
use copilot_sdkapi.Compat.Types.{
  Turn, ImageAttachment, CopilotRequestExtension, ConversationRequest, CopilotProviderConfig,
}
use copilot_sdkapi.Compat.Prompt.{
  latest_user_turn, validate_attachment_placement, but_last, normalize_role, has_images,
}
use copilot_sdkapi.Auth.{
  ApiKey, stored_key, new_store, extract_token, authenticate_request, find_key,
  namespace_for_secret,
}
use copilot_sdkapi.Auth.Namespaces.{Owner, authenticate_request-Owner}
use copilot_sdkapi.Session.Manager.Capacity.{session_namespace}
use copilot_sdkapi.Http.Permissions.{
  permission_mode_rank, server_mode, effective_permission_mode, parse_permission_mode,
  effective_permission_mode_le,
}
use copilot_sdkapi.Http.Keys.{scoped_session_key, scoped_session_key_isolates}
use copilot_sdkapi.Http.Features.{
  Checks, needs_model, attachment_count, lookup_model, validate_conversation_features,
  check_system_message, effective_system_message_mode, check_agent, has_custom_agent,
  check_permission, check_stream, validate_copilot_tools, check_model, check_reasoning,
  check_vision, check_images, check_media_types, check_sizes,
}
use copilot_sdkapi.Http.Features.Accepted.{
  ImagesLast, validate_conversation_features_sound, validate_conversation_features_model,
}
use copilot_sdkapi.Http.Provider.{
  Url, Addr, IsPublicHost, to_runtime_provider, is_localhost_hostname,
  to_runtime_provider-IsPublicHost, provider_type, check_base_url, validate_provider_base_url,
  validate_provider_host, is_trusted_provider_hostname, wire_api, azure_api_version,
}

-- A digest to test with.
abbrev zeros : String → List ℕ
zeros secret = 1 ∷ 2 ∷ []

abbrev a_text : String
a_text = " Bridge "

bridge_refused :
    error_is
      (elim (effective_permission_mode "allow" "bridge") [ ok m ↦ plain m | err e ↦ e ])
      (of_http permission_escalation)
    ≡ true
unfolding effective_permission_mode server_mode permission_mode_rank normalized trim_space trim_left
    trim_right to_lower lower_char error_is
bridge_refused = refl

bridge_granted : effective_permission_mode a_text "allow" ≡ ok "bridge"
unfolding effective_permission_mode server_mode permission_mode_rank normalized trim_space trim_left
    trim_right to_lower lower_char
bridge_granted = refl

effective_permission_mode_le_example : permission_mode_rank "bridge" ≤ permission_mode_rank "allow"
effective_permission_mode_le_example =
    effective_permission_mode_le a_text "allow" "bridge" bridge_granted

parsed_allow : parse_permission_mode "allow" ≡ ok "allow"
unfolding parse_permission_mode normalized trim_space trim_left trim_right to_lower lower_char
parsed_allow = refl

abbrev a_key : ApiKey
a_key = record { label = "team-a"; secret = "s3cret" }

abbrev b_key : ApiKey
b_key = record { label = "team-b"; secret = "other" }

abbrev public_key : String
public_key = "chat"

key_named : public_key ≢ ""
key_named = ground (arith, eq_iff public_key "")

-- The digest answers the same for both secrets, so that the hypothesis can hold.
scoped_session_key_isolates_example :
    (namespace_for_secret zeros "s3cret" ≡ namespace_for_secret zeros "other")
    × (public_key ≡ public_key)
    × (session_namespace (scoped_session_key (stored_key zeros a_key).identity public_key)
        ≡ namespace_for_secret zeros "s3cret")
unfolding stored_key namespace_for_secret scoped_session_key
scoped_session_key_isolates_example =
    scoped_session_key_isolates zeros a_key b_key public_key public_key key_named key_named refl

abbrev bearer : String → String
bearer name = if name == "Authorization" then "Bearer s3cret" else ""

let_in :
    authenticate_request (new_store zeros (b_key ∷ a_key ∷ [])) bearer
    ≡ ok (stored_key zeros a_key).identity
unfolding authenticate_request extract_token cut_prefix trim_space trim_left trim_right find_key
    new_store stored_key
let_in = refl

authenticate_request-Owner_example :
    (extract_token bearer ≢ "")
    × Owner zeros (extract_token bearer) (stored_key zeros a_key).identity (b_key ∷ a_key ∷ [])
    × ((stored_key zeros a_key).identity.session_namespace
        ≡ namespace_for_secret zeros (extract_token bearer))
authenticate_request-Owner_example =
    authenticate_request-Owner zeros (b_key ∷ a_key ∷ []) bearer (stored_key zeros a_key).identity
      let_in

abbrev no_extension : CopilotRequestExtension
no_extension = record {
  agent = "";
  system_message_mode = "";
  system_message_sections = [];
  include_reasoning = false;
  include_runtime_events = false;
  interactive = false;
  permission_mode = "bridge";
  tools = [];
  attachments = [];
  provider = none;
}

abbrev an_image : ImageAttachment
an_image = record { media_type = "image/png"; data_bytes = 1 ∷ 2 ∷ []; url = "" }

abbrev a_request : ConversationRequest
a_request = record {
  model = "m";
  system_prompt = "";
  reasoning_effort = "high";
  stream = true;
  include_usage_in_stream = false;
  turns = record { role = "user"; content = "hi"; attachments = an_image ∷ [] } ∷ [];
  copilot = no_extension;
}

abbrev some_limits : ModelVisionLimits
some_limits = record {
  supported_media_types = "image/png" ∷ [];
  max_prompt_images = 1;
  max_prompt_image_size = 2;
}

abbrev a_model : Model
a_model = record {
  id = "m";
  name = "m";
  supports = record { vision = true; reasoning_effort = true };
  limits = record {
    max_prompt_tokens = none;
    max_output_tokens = none;
    max_context_window_tokens = 8;
    vision = some some_limits;
  };
  supported_reasoning_efforts = "high" ∷ [];
  default_reasoning_effort = "";
}

abbrev some_checks : Checks
some_checks = record { custom_agents = []; permission_mode = "allow"; models = ok (a_model ∷ []) }

accepted : validate_conversation_features some_checks "m" a_request ≡ none
unfolding validate_conversation_features check_system_message effective_system_message_mode
    check_agent has_custom_agent check_permission check_stream validate_copilot_tools
    validate_attachment_placement but_last normalize_role needs_model attachment_count lookup_model
    check_model check_reasoning check_vision check_images check_media_types check_sizes
    latest_user_turn effective_permission_mode server_mode permission_mode_rank normalized
    trim_space trim_left trim_right to_lower lower_char
accepted = refl

validate_conversation_features_sound_example :
    (mode : PermissionMode) × (effective_permission_mode "bridge" "allow" ≡ ok mode)
    × ((a_request.stream ≡ true)
        ⊎ ((a_request.copilot.interactive ≡ false)
            × (a_request.copilot.tools ≡ [])
            × (mode ≢ mode_bridge)))
    × ImagesLast a_request.turns
validate_conversation_features_sound_example =
    validate_conversation_features_sound some_checks "m" a_request accepted

model_needed : needs_model a_request ≡ true
unfolding needs_model attachment_count
model_needed = refl

validate_conversation_features_model_example :
    (model : Model) × (lookup_model "m" some_checks.models ≡ ok (some model))
    × ((a_request.reasoning_effort ≡ "")
        ⊎ (model.supports.reasoning_effort ≡ true)
          × ((model.supported_reasoning_efforts ≡ [])
              ⊎ (any (λ e. a_request.reasoning_effort == e) model.supported_reasoning_efforts
                  ≡ true)))
    × (latest : Turn) × (latest_user_turn a_request.turns ≡ ok latest)
    × ((has_images latest ≡ false) ⊎ (model.supports.vision ≡ true))
validate_conversation_features_model_example =
    validate_conversation_features_model some_checks "m" a_request model_needed accepted

images_pass : check_images some_limits (an_image ∷ []) ≡ none
unfolding check_images check_media_types check_sizes normalized trim_space trim_left trim_right
    to_lower lower_char
images_pass = refl

abbrev a_url : Url
a_url = record { is_abs = true; scheme = "https"; hostname = "api.openai.com" }

abbrev one_url : String → Option Url
one_url text = some a_url

abbrev no_ip : String → Option Addr
no_ip text = none

abbrev a_provider : CopilotProviderConfig
a_provider = record {
  type = "openai";
  wire_api = "";
  base_url = "https://api.openai.com";
  api_key = "k";
  bearer_token = "";
  azure = none;
}

abbrev a_config : ProviderConfig
a_config = record {
  type = "openai";
  wire_api = "completions";
  base_url = "https://api.openai.com";
  api_key = "k";
  bearer_token = "";
  azure_api_version = "";
}

provider_taken : to_runtime_provider one_url no_ip false a_provider ≡ ok a_config
unfolding to_runtime_provider provider_type check_base_url validate_provider_base_url
    validate_provider_host is_localhost_hostname is_trusted_provider_hostname wire_api
    azure_api_version normalized trim_space trim_left trim_right to_lower lower_char has_suffix
provider_taken = refl

to_runtime_provider-IsPublicHost_example :
    (url : Url) × (one_url a_config.base_url ≡ some url)
    × ((url.scheme ≡ "http") ⊎ (url.scheme ≡ "https"))
    × (is_localhost_hostname (trim_space url.hostname) ≡ false)
    × IsPublicHost one_url no_ip a_config.type (trim_space url.hostname)
to_runtime_provider-IsPublicHost_example =
    to_runtime_provider-IsPublicHost one_url no_ip a_provider a_config provider_taken
