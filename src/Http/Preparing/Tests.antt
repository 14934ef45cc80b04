-- ===== src/Http/Preparing/Tests.antt =====
-- internal/httpapi/server.go: one server, and the theorems at it.
use copilot_sdkapi.Base.{
  String, true, false, Option, none, some, List, [], ◌∷◌, ◌≤◌, ◌≡◌, ◌≢◌, ◌⊎◌, refl,
}
use copilot_sdkapi.Errors.{GoError, Result, ok, err}
use copilot_sdkapi.Runtime.Types.{PermissionMode, mode_deny}
use copilot_sdkapi.Compat.Types.{CopilotAttachment, ConversationRequest}
use copilot_sdkapi.Session.Manager.{Entry, new_entry, new_manager_with_store}
use copilot_sdkapi.Session.Manager.Opening.{undisturbed, Opening, finished}
use copilot_sdkapi.Session.Manager.Acquire
use copilot_sdkapi.Session.Manager.Acquire.{acquire}
use copilot_sdkapi.Http.Permissions.{permission_mode_rank}
use copilot_sdkapi.Http.Features.{validate_conversation_features}
use copilot_sdkapi.Http.Attachments.{run_cleanups, Calls, cleaned, bad_attachment}
use copilot_sdkapi.Http.Attachments.Names.{
  sanitize_attachment_name, sanitize_attachment_name-IsFileName, IsFileName,
}
use copilot_sdkapi.Http.Attachments.Restored.{Restored, IsFresh}
use copilot_sdkapi.Http.Conversation.{
  provider_of, Server, Clock, check_conversation, requires_continuation, opening_of,
}
use copilot_sdkapi.Http.Conversation.Checked.{check_conversation_sound}
use copilot_sdkapi.Http.Preparing.{World, PreparedConversation, prepare_conversation, prompt_for}
use copilot_sdkapi.Http.Preparing.Prompts.{IsPromptOf}
use copilot_sdkapi.Http.Preparing.Ended.{
  GivenBack, prepare_conversation_fails, prepare_conversation_ok,
}
use copilot_sdkapi.Http.Conversation.{provider_of, check_conversation, opening_of}
use copilot_sdkapi.Http.Permissions.{effective_permission_mode}
use copilot_sdkapi.Session.Manager.Acquire.{acquire_loop, after_enter, open_lease}
use copilot_sdkapi.Session.Manager.Capacity.{
  enter, validate_capacity, count_keys, session_namespace,
}
use copilot_sdkapi.Base.{lookup, insert}
use copilot_sdkapi.Strings.{
  cut, trim_space, trim_left, trim_right, normalized, to_lower, lower_char,
}
use copilot_sdkapi.Session.Manager.Opening.{
  open_session, load_persisted, consider, after_loaded, resume_or_create, create_new,
  create_session_with_context, after_opened, publish, after_save,
}
use copilot_sdkapi.Session.Manager.{load_record, save_record, set_entry, touch}
use copilot_sdkapi.Session.Manager.Lease.{
  new_lease, is_persistent, release, finish, release_closure, release_entry,
}
use copilot_sdkapi.Http.Preparing.{with_lease, fill_message, place_attachments, place_extras}
use copilot_sdkapi.Compat.Prompt.{build_prompt, latest_user_turn}
use copilot_sdkapi.Http.Attachments.{
  materialize_attachments, materialize_copilot_attachments, mkdir_temp, write_attachments,
  materialize_copilot_attachment, remove_dir,
}

sanitize_attachment_name-IsFileName_example :
    (sanitize_attachment_name "../etc/pass wd.txt" ≢ "")
    × IsFileName (sanitize_attachment_name "../etc/pass wd.txt")
sanitize_attachment_name-IsFileName_example =
    sanitize_attachment_name-IsFileName "../etc/pass wd.txt"

-- Calls that succeed.
abbrev calls : Calls
calls = record {
  make_dir = λ d. none;
  create_temp = λ d pattern. ok "/tmp/a";
  write = λ path content. none;
  close = λ path. none;
  remove_all = λ d. none;
  stat_size = λ path. ok 1;
  fetch = λ url. err (bad_attachment "no network");
  decode_base64 = λ s. ok (1 ∷ []);
  encode_base64 = λ bytes. "AQ==";
  detect_content_type = λ bytes. "text/plain";
}

abbrev server : Server
server = record {
  default_model = "m";
  default_agent = "";
  checks = record { custom_agents = []; permission_mode = mode_deny; models = ok [] };
  allow_private_urls = false;
  parse_url = λ url. none;
  parse_ip = λ host. none;
  fingerprints = record {
    of_tools = λ tools. ok "";
    of_provider = λ p. err (bad_attachment "no provider");
  };
  new_session = λ options. finished (ok (record { id = "s-1" }));
  resume_session = λ id options. finished (ok (record { id = id }));
  delete_session = λ id. none;
}

abbrev clock : Clock
clock = record {
  checked_at = 10;
  created_at = 11;
  touched_at = 12;
  saved_at = 13;
  released_at = 14;
}

abbrev request : CopilotAttachment → ConversationRequest
request attachment = record {
  model = "";
  system_prompt = "";
  reasoning_effort = "";
  stream = true;
  include_usage_in_stream = false;
  turns = (record { role = "user"; content = "hi"; attachments = [] }) ∷ [];
  copilot = record {
    agent = "";
    system_message_mode = "";
    system_message_sections = [];
    include_reasoning = false;
    include_runtime_events = false;
    interactive = false;
    permission_mode = "";
    tools = [];
    attachments = attachment ∷ [];
    provider = none;
  };
}

abbrev noted : String → CopilotAttachment
noted text = record { name = "note"; media_type = ""; data_text = ""; text = text; url = "" }

abbrev no_spec_entry : Entry
no_spec_entry =
    new_entry ""
      (record {
        model = "";
        system_prompt = "";
        system_prompt_mode = "";
        reasoning_effort = "";
        agent = "";
        interactive = false;
        tools_fingerprint = "";
        permission_mode = mode_deny;
        provider_fingerprint = "";
        provider_secret_fingerprint = "";
      })
      none

abbrev world : World (Unit {0})
world = record {
  manager =
      new_manager_with_store 100 (record { max_active_sessions = 0; max_active_per_namespace = 0 })
        none (λ h. none) (λ i. no_spec_entry) tt;
  scratch = record { next_dir = 0; has_dir = λ d. false };
}

abbrev idle : List (Acquire.Turn (Unit {0}))
idle = (record { before = λ m. m; polls = []; opening = λ i. undisturbed }) ∷ []

abbrev outcome : String → Option (World (Unit {0}) × Result PreparedConversation)
unfolding prepare_conversation
outcome text = prepare_conversation calls server clock "ns:k" (request (noted text)) idle world

abbrev left : Option (World (Unit {0}) × Result PreparedConversation) → World (Unit {0})
left none = world
left (some (w, r)) = w

abbrev no_content : GoError
no_content = bad_attachment "attachment must include data, text, or url"

content_missing : outcome "" ≡ some (left (outcome ""), err no_content)
unfolding outcome check_conversation provider_of effective_permission_mode
    validate_conversation_features opening_of acquire acquire_loop after_enter enter
    validate_capacity count_keys session_namespace lookup insert cut open_lease open_session
    load_persisted load_record consider after_loaded resume_or_create create_new
    create_session_with_context after_opened publish save_record after_save set_entry new_lease
    with_lease fill_message prompt_for is_persistent build_prompt place_attachments latest_user_turn
    materialize_attachments place_extras materialize_copilot_attachments mkdir_temp
    write_attachments materialize_copilot_attachment trim_space trim_left trim_right remove_dir
    release finish release_closure release_entry touch normalized to_lower lower_char
content_missing = refl

fresh : IsFresh world.scratch
fresh d h = refl

prepare_conversation_fails_example :
    Restored (left (outcome "")).scratch world.scratch
    × GivenBack calls server clock "ns:k"
        (request (noted ""))
        idle
        world.manager
        (left (outcome "")).manager
        no_content
unfolding outcome
prepare_conversation_fails_example =
    prepare_conversation_fails calls server (λ d. refl) clock "ns:k" (request (noted "")) idle world
      (left (outcome "")) no_content fresh content_missing

abbrev opening : Opening
unfolding opening_of
opening = opening_of server clock "ns:k" (request (noted "hi")) mode_deny (none, ("", "")) ""

accepted : check_conversation server clock "ns:k" (request (noted "hi")) ≡ ok (mode_deny, opening)
unfolding opening check_conversation provider_of effective_permission_mode
    validate_conversation_features opening_of acquire acquire_loop after_enter enter
    validate_capacity count_keys session_namespace lookup insert cut open_lease open_session
    load_persisted load_record consider after_loaded resume_or_create create_new
    create_session_with_context after_opened publish save_record after_save set_entry new_lease
    with_lease fill_message prompt_for is_persistent build_prompt place_attachments latest_user_turn
    materialize_attachments place_extras materialize_copilot_attachments mkdir_temp
    write_attachments materialize_copilot_attachment trim_space trim_left trim_right remove_dir
    release finish release_closure release_entry touch normalized to_lower lower_char
accepted = refl

check_conversation_sound_example :
    (opening.key ≡ "ns:k")
    × (opening.spec.permission_mode ≡ mode_deny)
    × (permission_mode_rank mode_deny ≤ permission_mode_rank mode_deny)
    × ((◌≢◌ {A = String} "ns:k" "")
        ⊎ (requires_continuation (request (noted "hi")) mode_deny ≡ false))
    × (validate_conversation_features server.checks opening.spec.model (request (noted "hi"))
        ≡ none)
check_conversation_sound_example =
    check_conversation_sound server clock "ns:k" (request (noted "hi")) mode_deny opening accepted

abbrev conversation : PreparedConversation
unfolding remove_dir run_cleanups build_prompt
conversation = record {
  lease = record {
    key = "ns:k";
    entry = some 0;
    session = some (record { id = "s-1" });
    session_id = "s-1";
    created = true;
    final = none;
  };
  model = "m";
  message = record {
    prompt = build_prompt (request (noted "hi")).turns;
    attachments = (record { path = "/tmp/a"; media_type = "text/plain"; blob_data = "" }) ∷ [];
  };
  cleanup = some (run_cleanups (remove_dir calls 0 ∷ []));
  agent = "";
  system_message_mode = "append";
  include_reasoning = false;
  include_runtime_events = false;
  include_usage_in_stream = false;
  copilot_requested = true;
}

made : outcome "hi" ≡ some (left (outcome "hi"), ok conversation)
unfolding outcome check_conversation provider_of effective_permission_mode
    validate_conversation_features opening_of acquire acquire_loop after_enter enter
    validate_capacity count_keys session_namespace lookup insert cut open_lease open_session
    load_persisted load_record consider after_loaded resume_or_create create_new
    create_session_with_context after_opened publish save_record after_save set_entry new_lease
    with_lease fill_message prompt_for is_persistent build_prompt place_attachments latest_user_turn
    materialize_attachments place_extras materialize_copilot_attachments mkdir_temp
    write_attachments materialize_copilot_attachment trim_space trim_left trim_right remove_dir
    release finish release_closure release_entry touch normalized to_lower lower_char
made = refl

prepare_conversation_ok_example :
    (mode : PermissionMode) × (o : Opening) × (check_conversation server clock "ns:k"
        (request (noted "hi"))
      ≡ ok (mode, o))
    × (acquire o idle world.manager ≡ some ((left (outcome "hi")).manager, ok conversation.lease))
    × IsPromptOf conversation.lease (request (noted "hi")) conversation.message.prompt
    × Restored (cleaned conversation.cleanup (left (outcome "hi")).scratch) world.scratch
unfolding outcome
prepare_conversation_ok_example =
    prepare_conversation_ok calls server (λ d. refl) clock "ns:k" (request (noted "hi")) idle world
      (left (outcome "hi")) conversation fresh made
