-- ===== src/Http/Preparing.antt =====
-- internal/httpapi/server.go: prepareConversation, from a request to a leased session and the message
-- that it is sent.
pub mod Prompts
pub mod Ended
pub mod Tests
use copilot_sdkapi.Base.{
  String, Bool, true, false, not, ◌&&◌, ◌||◌, Option, none, some, List, [], ◌∷◌, ◌++◌, map, Map,
  is_empty, if◌then◌else◌, ◌==◌,
}
use copilot_sdkapi.Strings.{trim_space}
use copilot_sdkapi.Errors.{
  GoError, sentinel, detailed, message, of_http, invalid_tool, interactive_requires_session_key,
  Result, ok, err, ◌>>=◌, ◌>>◌, reject, as_result,
}
use copilot_sdkapi.Runtime.Types.{
  PermissionMode, mode_bridge, SectionOverride, ToolDefinition, ProviderConfig, SessionOptions,
  MessageOptions, Attachment,
}
use copilot_sdkapi.Compat.Types.{
  CopilotToolDefinition, CopilotSectionOverride, CopilotProviderConfig, CopilotRequestExtension,
  ConversationRequest,
}
use copilot_sdkapi.Compat.Prompt.{build_prompt, latest_user_prompt, latest_user_turn}
use copilot_sdkapi.Session.Spec.{Spec}
use copilot_sdkapi.Session.Store.{Time}
use copilot_sdkapi.Session.Manager.{Manager}
use copilot_sdkapi.Session.Manager.Opening.{Opening, Creation}
use copilot_sdkapi.Session.Manager.Acquire.{Turn, acquire}
use copilot_sdkapi.Session.Manager.Lease.{Lease, is_persistent, release}
use copilot_sdkapi.Http.Permissions.{effective_permission_mode}
use copilot_sdkapi.Http.Features.{
  Checks, effective_system_message_mode, validate_conversation_features,
}
use copilot_sdkapi.Http.Attachments.{
  Calls, Scratch, Cleanup, cleaned, combine_cleanup, materialize_attachments,
  materialize_copilot_attachments,
}
use copilot_sdkapi.Http.Attachments.Limits.{validate_materialized_image_attachments}
use copilot_sdkapi.Http.Conversation.{
  Server, Clock, check_conversation, requires_continuation, effective_agent, resolve_model,
  has_copilot_request_extension,
}

pub record World (S : Type 0) : Type 0 where
  pub manager : Manager S
  pub scratch : Scratch

-- preparedConversation.
pub record PreparedConversation : Type 0 where
  pub lease : Lease
  pub model : String
  pub message : MessageOptions
  pub cleanup : Option Cleanup
  pub agent : String
  pub system_message_mode : String
  pub include_reasoning : Bool
  pub include_runtime_events : Bool
  pub include_usage_in_stream : Bool
  pub copilot_requested : Bool

-- The prompt: the latest of a session that goes on, or the whole conversation.
unfoldable pub prompt_for : Lease → ConversationRequest → Result String
unfolding is_persistent latest_user_prompt build_prompt
prompt_for l r =
    if is_persistent l && not l.created
    then latest_user_prompt r.turns
    else ok (build_prompt r.turns)

unfoldable pub prepared :
    Server
    → ConversationRequest
    → PermissionMode
    → Lease
    → String
    → List Attachment
    → Option Cleanup
    → PreparedConversation
unfolding resolve_model effective_agent effective_system_message_mode has_copilot_request_extension
prepared server r mode l prompt attachments cleanup = record {
  lease = l;
  model = resolve_model server.default_model r.model;
  message = record { prompt = prompt; attachments = attachments };
  cleanup = cleanup;
  agent = effective_agent r.copilot.agent server.default_agent;
  system_message_mode = effective_system_message_mode r.copilot.system_message_mode;
  include_reasoning = r.copilot.include_reasoning;
  include_runtime_events = r.copilot.include_runtime_events || requires_continuation r mode;
  include_usage_in_stream = r.include_usage_in_stream;
  copilot_requested = has_copilot_request_extension r.copilot;
}

abbrev has_provider : ConversationRequest → Bool
has_provider r = elim r.copilot.provider [ none ↦ false | some p ↦ true ]

module _ (os : Calls) (server : Server) where
  -- Both kinds of attachments and the check of the images; after an error, what the images left is
  -- cleaned up.
  unfoldable pub place_extras :
      ConversationRequest
      → List Attachment
      → Option Cleanup
      → Scratch
      → Scratch × Result (List Attachment × Option Cleanup)
  unfolding materialize_copilot_attachments combine_cleanup resolve_model
      validate_materialized_image_attachments
  place_extras r images image_cleanup s =
      let x = materialize_copilot_attachments os r.copilot.attachments s in
      elim x.1 [
        | err e ↦ (cleaned image_cleanup x.0, err e)
        | ok (extra, extra_cleanup) ↦
            let cleanup = combine_cleanup image_cleanup extra_cleanup in
            let model = resolve_model server.default_model r.model in
            elim (validate_materialized_image_attachments os server.checks.models model images
              (has_provider r)) [
                | some e ↦ (cleaned cleanup x.0, err e)
                | none ↦ (x.0, ok (images ++ extra, cleanup))
              ]
      ]

  unfoldable pub place_attachments :
      ConversationRequest → Scratch → Scratch × Result (List Attachment × Option Cleanup)
  unfolding latest_user_turn materialize_attachments place_extras
  place_attachments r s = elim (latest_user_turn r.turns) [
    | err e ↦ (s, err e)
    | ok latest ↦
        let i = materialize_attachments os latest.attachments s in
        elim i.1 [
          | err e ↦ (i.0, err e)
          | ok (images, image_cleanup) ↦ place_extras r images image_cleanup i.0
        ]
  ]

  -- What becomes of the request once it has a lease.
  unfoldable pub fill_message :
      ConversationRequest → PermissionMode → Lease → Scratch → Scratch × Result PreparedConversation
  unfolding prompt_for place_attachments prepared
  fill_message r mode l s = elim (prompt_for l r) [
    | err e ↦ (s, err e)
    | ok prompt ↦
        let p = place_attachments r s in
        elim p.1 [
          | err e ↦ (p.0, err e)
          | ok (attachments, cleanup) ↦
              (p.0, ok (prepared server r mode l prompt attachments cleanup))
        ]
  ]

  module _ {S : Type 0} where
    -- prepareConversation behind Acquire: after an error the lease is released.
    unfoldable pub with_lease :
        Time
        → ConversationRequest
        → PermissionMode
        → Lease
        → World S
        → World S × Result PreparedConversation
    unfolding fill_message release
    with_lease now r mode l w =
        let f = fill_message r mode l w.scratch in
        elim f.1 [
          | ok p ↦ (record w { scratch = f.0 }, ok p)
          | err e ↦ (record { manager = (release now l w.manager).0.0; scratch = f.0 }, err e)
        ]

    -- prepareConversation; `none` is a call that still waits for a lock.
    unfoldable pub prepare_conversation :
        Clock
        → String
        → ConversationRequest
        → List (Turn S)
        → World S
        → Option (World S × Result PreparedConversation)
    unfolding check_conversation acquire with_lease
    prepare_conversation clock key r ts w = elim (check_conversation server clock key r) [
      | err e ↦ some (w, err e)
      | ok (mode, opening) ↦ elim (acquire opening ts w.manager) [
        | none ↦ none
        | some (m, err e) ↦ some (record w { manager = m }, err e)
        | some (m, ok l) ↦ some (with_lease clock.released_at r mode l (record w { manager = m }))
      ]
    ]
