-- ===== src/Http/Permissions.antt =====
-- internal/httpapi/server.go and internal/config/config.go: permission modes.
use copilot_sdkapi.Base.{
  ℕ, ◌≤◌, String, true, false, ◌||◌, ◌≡◌, ◌⊎◌, refl, inl, inr, arith, eq_iff, Bool-cases, ltb,
  if◌then◌else◌, ◌==◌, sym, subst, ◌↔◌,
}
use copilot_sdkapi.Strings.{normalized, ◌⧺◌}
use copilot_sdkapi.Errors.{
  plain, detailed, of_http, invalid_permission_mode, permission_escalation, Result, ok, err,
}
use copilot_sdkapi.Runtime.Types.{PermissionMode, mode_allow, mode_deny, mode_bridge, mode_inherit}

-- permissionModeRank.
unfoldable pub permission_mode_rank : PermissionMode → ℕ
permission_mode_rank mode = if mode == mode_allow then 2 else if mode == mode_bridge then 1 else 0

-- The default of the server, at the top of effectivePermissionMode.
unfoldable pub server_mode : PermissionMode → PermissionMode
server_mode mode = if mode == "" || mode == mode_inherit then mode_deny else mode

-- effectivePermissionMode.
unfoldable pub effective_permission_mode : String → PermissionMode → Result PermissionMode
unfolding normalized permission_mode_rank server_mode
effective_permission_mode request default =
    let server = server_mode default in
    let mode = normalized request in
    if mode == "" || mode == mode_inherit
    then ok server
    else if mode == mode_allow || (mode == mode_deny || mode == mode_bridge)
    then (if ltb (permission_mode_rank server) (permission_mode_rank mode)
        then err (
            detailed (of_http permission_escalation)
              ("requested=" ⧺ (mode ⧺ (" server=" ⧺ server))))
        else ok mode)
    else err (detailed (of_http invalid_permission_mode) request)

-- parsePermissionMode: the server's own setting. The text that %q quotes is left as it is.
unfoldable pub parse_permission_mode : String → Result PermissionMode
unfolding normalized
parse_permission_mode raw =
    let mode = normalized raw in
    if mode == "" || mode == mode_deny
    then ok mode_deny
    else if mode == mode_bridge
    then ok mode_bridge
    else if mode == mode_allow
    then ok mode_allow
    else err (plain ("unsupported permission mode " ⧺ raw))

-- The modes that a session runs in.
abbrev pub IsMode : PermissionMode → Type 0
IsMode mode = (mode ≡ mode_deny) ⊎ ((mode ≡ mode_bridge) ⊎ (mode ≡ mode_allow))

server_mode_le :
    (default : PermissionMode)
    → permission_mode_rank (server_mode default) ≡ permission_mode_rank default
unfolding server_mode permission_mode_rank
server_mode_le default = elim (Bool-cases (default == "")) [
  | inl e ↦ let empty : default ≡ "" = (eq_iff default "").0 e in rw (empty) refl
  | inr e ↦ elim (Bool-cases (default == mode_inherit)) [
    | inl f ↦
        let inherited : default ≡ mode_inherit = (eq_iff default mode_inherit).0 f in
        rw (inherited) refl
    | inr f ↦ rw (server_mode, e, f) refl
  ]
]

-- A request never gets more than the server allows: the permission mode that it is given has at
-- most the rank of the configured mode, whatever the request and the configuration say.
pub effective_permission_mode_le :
    (request : String) (default mode : PermissionMode)
    → effective_permission_mode request default ≡ ok mode
    → permission_mode_rank mode ≤ permission_mode_rank default
unfolding effective_permission_mode
effective_permission_mode_le request default mode h =
    let m = normalized request in
    let server = server_mode_le default in
    elim (Bool-cases (m == "" || m == mode_inherit)) [
      | inl e ↦
          let same : server_mode default ≡ mode = ground arith in
          rw (← same) (omega (arith, server))
      | inr e ↦ elim (Bool-cases (m == mode_allow || (m == mode_deny || m == mode_bridge))) [
        | inr f ↦ absurd (ground arith)
        | inl f ↦
            elim (Bool-cases
              (ltb (permission_mode_rank (server_mode default)) (permission_mode_rank m))) [
                | inl g ↦ absurd (ground arith)
                | inr g ↦
                    let same : normalized request ≡ mode = ground arith in
                    let bound : permission_mode_rank (normalized request)
                        ≤ permission_mode_rank (server_mode default) =
                      ground arith in
                    rw (← same) (omega (arith, bound, server))
              ]
      ]
    ]

parse_permission_mode-IsMode :
    (raw : String) (mode : PermissionMode) → parse_permission_mode raw ≡ ok mode → IsMode mode
unfolding parse_permission_mode
parse_permission_mode-IsMode raw mode h =
    let m = normalized raw in
    elim (Bool-cases (m == "" || m == mode_deny)) [
      | inl e ↦ let same : mode_deny ≡ mode = ground arith in inl (sym same)
      | inr e ↦ elim (Bool-cases (m == mode_bridge)) [
        | inl f ↦ let same : mode_bridge ≡ mode = ground arith in inr (inl (sym same))
        | inr f ↦ elim (Bool-cases (m == mode_allow)) [
          | inl g ↦ let same : mode_allow ≡ mode = ground arith in inr (inr (sym same))
          | inr g ↦ absurd (ground arith)
        ]
      ]
    ]

-- With a permission mode that the configuration has parsed, a request that is not refused is given
-- one of the modes deny, bridge and allow.
effective_permission_mode-IsMode :
    (raw request : String) (default mode : PermissionMode)
    → parse_permission_mode raw ≡ ok default
    → effective_permission_mode request default ≡ ok mode
    → IsMode mode
unfolding effective_permission_mode server_mode
effective_permission_mode-IsMode raw request default mode parsed h =
    let m = normalized request in
    elim (Bool-cases (m == "" || m == mode_inherit)) [
      | inl e ↦
          let same : server_mode default ≡ mode = ground arith in
          elim (Bool-cases (default == "" || default == mode_inherit)) [
            | inl f ↦ inl (ground arith)
            | inr f ↦
                let kept : default ≡ mode = ground arith in
                subst IsMode kept (parse_permission_mode-IsMode raw default parsed)
          ]
      | inr e ↦ elim (Bool-cases (m == mode_allow || (m == mode_deny || m == mode_bridge))) [
        | inr f ↦ absurd (ground arith)
        | inl f ↦
            elim (Bool-cases
              (ltb (permission_mode_rank (server_mode default)) (permission_mode_rank m))) [
                | inl g ↦ absurd (ground arith)
                | inr g ↦
                    let same : normalized request ≡ mode = ground arith in
                    subst IsMode same (
                      ground (
                        arith,
                        eq_iff (normalized request) mode_allow,
                        eq_iff (normalized request) mode_deny,
                        eq_iff (normalized request) mode_bridge,
                      ))
              ]
      ]
    ]

IsMode-tests :
    (mode : PermissionMode)
    → IsMode mode
    → ((mode == "" || mode == mode_inherit) ≡ false)
      × ((mode == mode_allow || (mode == mode_deny || mode == mode_bridge)) ≡ true)
IsMode-tests mode (inl e) = rw (e) (refl, refl)
IsMode-tests mode (inr (inl e)) = rw (e) (refl, refl)
IsMode-tests mode (inr (inr e)) = rw (e) (refl, refl)

-- A mode of deny, bridge and allow that a request asks for by name, up to case and spaces around
-- it, is granted exactly if its rank is at most that of the configured mode.
effective_permission_mode_iff :
    (request : String) (default mode : PermissionMode)
    → IsMode mode
    → normalized request ≡ mode
    → (effective_permission_mode request default ≡ ok mode)
      ↔ (permission_mode_rank mode ≤ permission_mode_rank default)
unfolding effective_permission_mode
effective_permission_mode_iff request default mode valid asked = (
  effective_permission_mode_le request default mode,
  λ bound.
      let tests = IsMode-tests mode valid in
      let server = server_mode_le default in
      let low : ltb (permission_mode_rank (server_mode default)) (permission_mode_rank mode)
          ≡ false =
        ground (arith, bound, server) in
      rw (effective_permission_mode, asked, tests.0, tests.1, low) refl,
)
