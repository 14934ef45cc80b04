-- ===== src/Http/Features/Accepted.antt =====
-- internal/httpapi/server.go: what a conversation that passes validateConversationFeatures satisfies.
use copilot_sdkapi.Base.{
  ℕ, ◌≤◌, String, true, false, ◌&&◌, Option, none, some, List, [], ◌∷◌, any, last?, length,
  is_empty, All, ltb, if◌then◌else◌, ◌==◌, ◌≡◌, ◌≢◌, ◌⊎◌, refl, sym, ◌∙◌, arith, inl, inr, eq_iff,
  Bool-cases,
}
use copilot_sdkapi.Strings.{normalized}
use copilot_sdkapi.Errors.{and_then, and_then-none, Result, ok, err, Result-cases}
use copilot_sdkapi.Runtime.Types.{PermissionMode, mode_bridge, Model, ModelVisionLimits}
use copilot_sdkapi.Compat.Types.{Turn, ImageAttachment, ConversationRequest}
use copilot_sdkapi.Compat.Prompt.{
  latest_user_turn, validate_attachment_placement, but_last, has_images,
}
use copilot_sdkapi.Http.Permissions.{effective_permission_mode}
use copilot_sdkapi.Http.Features.{
  Checks, attachment_count, check_stream, check_permission, check_system_message, check_agent,
  check_reasoning, check_vision, check_images, check_media_types, check_sizes, check_model,
  lookup_model, unknown_model_capabilities_error, validate_copilot_tools,
  validate_conversation_features, needs_model,
}

-- The stages of the validation, each of them passed.
record Passed (server : Checks) (id : String) (request : ConversationRequest) : Type 0 where
  system : check_system_message request ≡ none
  agent : check_agent server.custom_agents request ≡ none
  permission : check_permission server.permission_mode request ≡ none
  tools : validate_copilot_tools request.copilot.tools ≡ none
  placement : validate_attachment_placement request.turns false ≡ none
  model :
      (if needs_model request then check_model id request (lookup_model id server.models) else none)
      ≡ none

passed :
    (server : Checks) (id : String) (request : ConversationRequest)
    → validate_conversation_features server id request ≡ none
    → Passed server id request
unfolding validate_conversation_features
passed server id request h =
    let a =
      and_then-none (check_system_message request)
        (and_then (check_agent server.custom_agents request) (
          and_then (check_permission server.permission_mode request) (
            and_then (validate_copilot_tools request.copilot.tools) (
              and_then (validate_attachment_placement request.turns false) (
                if needs_model request
                then check_model id request (lookup_model id server.models)
                else none)))))
        h in
    let b = and_then-none (check_agent server.custom_agents request) _ a.1 in
    let c = and_then-none (check_permission server.permission_mode request) _ b.1 in
    let d = and_then-none (validate_copilot_tools request.copilot.tools) _ c.1 in
    let e = and_then-none (validate_attachment_placement request.turns false) _ d.1 in
    record {
      system = a.0;
      agent = b.0;
      permission = c.0;
      tools = d.0;
      placement = e.0;
      model = e.1;
    }

-- No turn but the last has images.
abbrev pub ImagesLast : List Turn → Type 0
ImagesLast turns = any has_images (but_last turns) ≡ false

check_permission-none :
    (default : PermissionMode) (request : ConversationRequest)
    → check_permission default request ≡ none
    → (mode : PermissionMode) × (effective_permission_mode request.copilot.permission_mode default
        ≡ ok mode)
      × (check_stream request mode ≡ none)
unfolding check_permission
check_permission-none default request h =
    elim (Result-cases (effective_permission_mode request.copilot.permission_mode default)) [
      | inr e ↦ absurd (ground arith)
      | inl m ↦ (m.0, m.1, sym (rw (check_permission, m.1) refl) ∙ h)
    ]

is_empty_nil {ℓ} : {A : Type ℓ} (xs : List A) → is_empty xs ≡ true → xs ≡ []
is_empty_nil [] h = refl
is_empty_nil (x ∷ xs) h = absurd (cc h)

check_stream-none :
    (request : ConversationRequest) (mode : PermissionMode)
    → check_stream request mode ≡ none
    → request.stream ≡ false
    → (request.copilot.interactive ≡ false) × (request.copilot.tools ≡ []) × (mode ≢ mode_bridge)
unfolding check_stream
check_stream-none request mode h quiet = elim (Bool-cases request.copilot.interactive) [
  | inl e ↦ absurd (ground arith)
  | inr e ↦ elim (Bool-cases (is_empty request.copilot.tools)) [
    | inr f ↦ absurd (ground arith)
    | inl f ↦ elim (Bool-cases (mode == mode_bridge)) [
      | inl g ↦ absurd (ground arith)
      | inr g ↦ (e, is_empty_nil request.copilot.tools f, ground (arith, eq_iff mode mode_bridge))
    ]
  ]
]

last_some : (t : Turn) (ts : List Turn) → (u : Turn) × (last? (t ∷ ts) ≡ some u)
last_some t [] = (t, refl)
last_some t (u ∷ us) = last_some u us

placement_none :
    (turns : List Turn) → validate_attachment_placement turns false ≡ none → ImagesLast turns
unfolding validate_attachment_placement but_last
placement_none [] h = refl
placement_none (t ∷ ts) h =
    let l = last_some t ts in
    elim (Bool-cases (any has_images (but_last (t ∷ ts)))) [
      | inr e ↦ e
      | inl e ↦ absurd (ground (arith, l.1))
    ]

-- A conversation that is accepted has a permission mode that the server grants; it streams, or else
-- it is not interactive, has no tools of its own and does not run in bridge mode; and no turn but
-- its last has images.
pub validate_conversation_features_sound :
    (server : Checks) (id : String) (request : ConversationRequest)
    → validate_conversation_features server id request ≡ none
    → (mode : PermissionMode) × (effective_permission_mode request.copilot.permission_mode
          server.permission_mode
        ≡ ok mode)
      × ((request.stream ≡ true)
          ⊎ ((request.copilot.interactive ≡ false)
              × (request.copilot.tools ≡ [])
              × (mode ≢ mode_bridge)))
      × ImagesLast request.turns
validate_conversation_features_sound server id request h =
    let p = passed server id request h in
    let m = check_permission-none server.permission_mode request p.permission in
    (
      m.0,
      m.1,
      elim (Bool-cases request.stream) [
        | inl streamed ↦ inl streamed
        | inr quiet ↦ inr (check_stream-none request m.0 m.2 quiet)
      ],
      placement_none request.turns p.placement,
    )

-- What a model must offer for the request, once it is known.
pub record Offers (request : ConversationRequest) (model : Model) : Type 0 where
  pub latest : Turn
  pub is_latest : latest_user_turn request.turns ≡ ok latest
  pub reasoning : check_reasoning request.reasoning_effort model ≡ none
  pub vision : check_vision model latest ≡ none

check_model-none :
    (id : String) (request : ConversationRequest) (r : Result (Option Model))
    → needs_model request ≡ true
    → check_model id request r ≡ none
    → (model : Model) × (r ≡ ok (some model)) × Offers request model
unfolding check_model needs_model unknown_model_capabilities_error
check_model-none id request (err e) n h = absurd (cc h)
check_model-none id request (ok none) n h = elim (Bool-cases (request.reasoning_effort == "")) [
  | inl e ↦ elim (Bool-cases (ltb 0 (attachment_count request.turns))) [
    | inl f ↦ absurd (ground arith)
    | inr f ↦ absurd (ground arith)
  ]
  | inr e ↦ elim (Bool-cases (ltb 0 (attachment_count request.turns))) [
    | inl f ↦ absurd (ground arith)
    | inr f ↦ absurd (ground arith)
  ]
]
check_model-none id request (ok (some model)) n h =
    let parts = and_then-none (check_reasoning request.reasoning_effort model) _ h in
    elim (Result-cases (latest_user_turn request.turns)) [
      | inr e ↦ absurd (ground (arith, parts.1))
      | inl t ↦ (
        model,
        refl,
        record {
          latest = t.0;
          is_latest = t.1;
          reasoning = parts.0;
          vision = sym (rw (t.1) refl) ∙ parts.1;
        },
      )
    ]

check_reasoning-none :
    (effort : String) (model : Model)
    → check_reasoning effort model ≡ none
    → effort ≢ ""
    → (model.supports.reasoning_effort ≡ true)
      × ((model.supported_reasoning_efforts ≡ [])
          ⊎ (any (λ e. effort == e) model.supported_reasoning_efforts ≡ true))
unfolding check_reasoning
check_reasoning-none effort model h asked =
    let e : (effort == "") ≡ false = ground (arith, eq_iff effort "") in
    elim (Bool-cases model.supports.reasoning_effort) [
      | inr f ↦ absurd (ground arith)
      | inl f ↦ elim (Bool-cases (is_empty model.supported_reasoning_efforts)) [
        | inl g ↦ (f, inl (is_empty_nil model.supported_reasoning_efforts g))
        | inr g ↦ (f, inr (ground arith))
      ]
    ]

check_media_types-none :
    (allowed : List String) (images : List ImageAttachment)
    → check_media_types allowed images ≡ none
    → All (λ a. any (λ t. normalized t == normalized a.media_type) allowed ≡ true) images
unfolding check_media_types
check_media_types-none allowed [] h = tt
check_media_types-none allowed (a ∷ rest) h =
    elim (Bool-cases (any (λ t. normalized t == normalized a.media_type) allowed)) [
      | inr e ↦ absurd (ground arith)
      | inl e ↦ (e, check_media_types-none allowed rest (ground arith))
    ]

check_sizes-none :
    (limit : ℕ) (images : List ImageAttachment)
    → check_sizes limit images ≡ none
    → All (λ a. length a.data_bytes ≤ limit) images
unfolding check_sizes
check_sizes-none limit [] h = tt
check_sizes-none limit (a ∷ rest) h = elim (Bool-cases (ltb limit (length a.data_bytes))) [
  | inl e ↦ absurd (ground arith)
  | inr e ↦ (ground arith, check_sizes-none limit rest (ground arith))
]

check_vision-none :
    (model : Model) (latest : Turn)
    → check_vision model latest ≡ none
    → has_images latest ≡ true
    → model.supports.vision ≡ true
unfolding check_vision
check_vision-none model latest h some_image = elim (Bool-cases model.supports.vision) [
  | inl e ↦ e
  | inr e ↦ absurd (ground arith)
]

-- A conversation that asks for a reasoning effort or has images, with no provider of its own, is
-- accepted only if its model is listed; the effort, if it asks for one, is then one that the model
-- supports, its last turn is a user's, and that turn has images only if the model has vision.
pub validate_conversation_features_model :
    (server : Checks) (id : String) (request : ConversationRequest)
    → needs_model request ≡ true
    → validate_conversation_features server id request ≡ none
    → (model : Model) × (lookup_model id server.models ≡ ok (some model))
      × ((request.reasoning_effort ≡ "")
          ⊎ (model.supports.reasoning_effort ≡ true)
            × ((model.supported_reasoning_efforts ≡ [])
                ⊎ (any (λ e. request.reasoning_effort == e) model.supported_reasoning_efforts
                    ≡ true)))
      × (latest : Turn) × (latest_user_turn request.turns ≡ ok latest)
      × ((has_images latest ≡ false) ⊎ (model.supports.vision ≡ true))
validate_conversation_features_model server id request n h =
    let p = passed server id request h in
    let m =
      check_model-none id request (lookup_model id server.models) n (sym (rw (n) refl) ∙ p.model) in
    (
      m.0,
      m.1,
      elim (Bool-cases (request.reasoning_effort == "")) [
        | inl e ↦ inl ((eq_iff request.reasoning_effort "").0 e)
        | inr e ↦ inr (
            check_reasoning-none request.reasoning_effort m.0 m.2.reasoning
              (ground (arith, eq_iff request.reasoning_effort "")))
      ],
      m.2.latest,
      m.2.is_latest,
      elim (Bool-cases (has_images m.2.latest)) [
        | inl e ↦ inr (check_vision-none m.0 m.2.latest m.2.vision e)
        | inr e ↦ inl e
      ],
    )

-- Images that all have bytes and pass the check are no more than a positive max_prompt_images, of
-- media types that the model lists if it lists any, and no larger than a positive
-- max_prompt_image_size.
check_images-none :
    (limits : ModelVisionLimits) (images : List ImageAttachment)
    → any (λ a. is_empty a.data_bytes) images ≡ false
    → check_images limits images ≡ none
    → ((limits.max_prompt_images ≡ 0) ⊎ (length images ≤ limits.max_prompt_images))
      × ((limits.supported_media_types ≡ [])
          ⊎ All
              (λ a.
                any (λ t. normalized t == normalized a.media_type) limits.supported_media_types
                ≡ true)
              images)
      × ((limits.max_prompt_image_size ≡ 0)
          ⊎ All (λ a. length a.data_bytes ≤ limits.max_prompt_image_size) images)
unfolding check_images
check_images-none limits images whole h =
    elim (Bool-cases
      (ltb 0 limits.max_prompt_images && ltb limits.max_prompt_images (length images))) [
        | inl e ↦ absurd (ground arith)
        | inr e ↦
            let parts =
              and_then-none
                (if is_empty limits.supported_media_types
                  then none
                  else check_media_types limits.supported_media_types images)
                (if ltb 0 limits.max_prompt_image_size
                  then check_sizes limits.max_prompt_image_size images
                  else none)
                (sym (rw (check_images, e, whole) refl) ∙ h) in
            (
              ground arith,
              elim (Bool-cases (is_empty limits.supported_media_types)) [
                | inl f ↦ inl (is_empty_nil limits.supported_media_types f)
                | inr f ↦ inr (
                    check_media_types-none limits.supported_media_types images
                      (sym (rw (f) refl) ∙ parts.0))
              ],
              elim (Bool-cases (ltb 0 limits.max_prompt_image_size)) [
                | inl p ↦ inr (
                    check_sizes-none limits.max_prompt_image_size images
                      (sym (rw (p) refl) ∙ parts.1))
                | inr p ↦ inl (ground arith)
              ],
            )
      ]
