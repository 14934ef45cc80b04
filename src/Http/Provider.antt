-- ===== src/Http/Provider.antt =====
-- internal/httpapi/server.go: where a request's own model provider may be. Parsing a URL and an IP
-- address are the library's, and parameters.
use copilot_sdkapi.Base.{
  ℕ, ◌/◌, ◌^◌, String, Bool, true, false, not, ◌&&◌, ◌||◌, Option, none, some, List, [], ◌∷◌, any,
  eqb, if◌then◌else◌, ◌==◌, ◌≡◌, ◌⊎◌, ap, arith, inl, inr, eq_iff, Bool-cases, Option-cases,
}
use copilot_sdkapi.Strings.{trim_space, normalized, has_prefix, has_suffix, contains, ◌⧺◌}
use copilot_sdkapi.Errors.{
  GoError, detailed, of_http, invalid_provider, Result, ok, err, bind_ok, check_ok, as_result_ok,
  reject, as_result, ◌>>=◌, ◌>>◌,
}
use copilot_sdkapi.Runtime.Types.{ProviderConfig}
use copilot_sdkapi.Compat.Types.{CopilotProviderConfig}

-- What the checks read of a *url.URL.
pub record Url : Type 0 where
  pub is_abs : Bool
  pub scheme : String
  pub hostname : String

-- netip.Addr after Unmap: an address of 32 or of 128 bits.
pub data Addr : Type 0 where
  v4 v6 : ℕ → Addr

-- netip.Prefix: the number that the leading bits make, and how many bits follow them.
pub data Prefix : Type 0 where
  p4 p6 : (start rest : ℕ) → Prefix

-- prefix.Contains(addr).
unfoldable pub prefix_contains : Addr → Prefix → Bool
prefix_contains (v4 a) (p4 start rest) = eqb (a / 2 ^ rest) start
prefix_contains (v6 a) (p6 start rest) = eqb (a / 2 ^ rest) start
prefix_contains (v4 a) (p6 start rest) = false
prefix_contains (v6 a) (p4 start rest) = false

-- blockedRemoteIPPrefixes.
abbrev pub blocked_remote_ip_prefixes : List Prefix
blocked_remote_ip_prefixes =
    p4 0 24
    ∷ p4 10 24
    ∷ p4 0x191 22
    ∷ p4 127 24
    ∷ p4 0xA9FE 16
    ∷ p4 0xAC1 20
    ∷ p4 0xC00000 8
    ∷ p4 0xC00002 8
    ∷ p4 0xC05863 8
    ∷ p4 0xC0A8 16
    ∷ p4 0x6309 17
    ∷ p4 0xC63364 8
    ∷ p4 0xCB0071 8
    ∷ p4 14 28
    ∷ p4 15 28
    ∷ p6 0 0
    ∷ p6 1 0
    ∷ p6 0x0100000000000000 64
    ∷ p6 0x200100020000 80
    ∷ p6 0x2001001 100
    ∷ p6 0x20010DB8 96
    ∷ p6 0x7E 121
    ∷ p6 0x3FA 118
    ∷ p6 0xFF 120
    ∷ []

-- addr.IsGlobalUnicast.
unfoldable pub is_global_unicast : Addr → Bool
unfolding prefix_contains
is_global_unicast (v4 a) = not (
    eqb a 0
    || eqb a 0xFFFFFFFF
    || any (prefix_contains (v4 a)) (p4 127 24 ∷ p4 14 28 ∷ p4 0xA9FE 16 ∷ []))
is_global_unicast (v6 a) =
    not (eqb a 0 || any (prefix_contains (v6 a)) (p6 1 0 ∷ p6 0xFF 120 ∷ p6 0x3FA 118 ∷ []))

abbrev refuse : String → Option GoError
refuse text = some (detailed (of_http invalid_provider) text)

-- isLocalhostHostname.
unfoldable pub is_localhost_hostname : String → Bool
unfolding normalized has_suffix
is_localhost_hostname host =
    let h = normalized host in h == "localhost" || has_suffix h ".localhost"

-- strings.TrimSuffix.
unfoldable pub trim_suffix : String → String → String
trim_suffix String.[] t = String.[]
trim_suffix (String.◌∷◌ c s) t =
    let rest = trim_suffix s t in if String.◌∷◌ c s == t then String.[] else String.◌∷◌ c rest

-- isTrustedProviderHostname.
unfoldable pub is_trusted_provider_hostname : String → String → Bool
unfolding normalized has_prefix has_suffix contains trim_suffix
is_trusted_provider_hostname provider_type host =
    let h = normalized host in
    let prefix = trim_suffix h ".openai.azure.com" in
    if provider_type == "openai"
    then h == "api.openai.com"
    else if provider_type == "anthropic"
    then h == "api.anthropic.com"
    else if provider_type == "azure"
    then not (has_prefix h ".")
      && has_suffix h ".openai.azure.com"
      && not (prefix == "")
      && not (contains prefix ".")
    else false

-- validateProviderIP, of an address that net.ParseIP has read.
unfoldable pub validate_provider_ip : Addr → Option GoError
unfolding is_global_unicast prefix_contains
validate_provider_ip addr =
    if not (is_global_unicast addr)
    then refuse "private or special-use provider URLs are disabled"
    else if any (prefix_contains addr) blocked_remote_ip_prefixes
    then refuse "private or special-use provider URLs are disabled"
    else none

-- The switches of toRuntimeProvider on the type and on the wire API.
unfoldable pub provider_type : CopilotProviderConfig → Result String
unfolding normalized
provider_type p =
    let t = normalized p.type in
    if t == ""
    then ok "openai"
    else if t == "openai" || t == "azure" || t == "anthropic"
    then ok t
    else err (detailed (of_http invalid_provider) ("unsupported x_copilot.provider.type " ⧺ p.type))

unfoldable pub wire_api : String → CopilotProviderConfig → Result String
unfolding normalized
wire_api type p =
    let w = normalized p.wire_api in
    if type == "anthropic"
    then (if w == ""
        then ok ""
        else err (
            detailed (of_http invalid_provider)
              "x_copilot.provider.wire_api is only valid for openai or azure providers"))
    else if w == ""
    then ok "completions"
    else if w == "completions" || w == "responses"
    then ok w
    else err (
        detailed (of_http invalid_provider)
          ("unsupported x_copilot.provider.wire_api " ⧺ p.wire_api))

unfoldable pub azure_api_version : String → CopilotProviderConfig → Result String
unfolding trim_space
azure_api_version type p = elim p.azure [
  | none ↦ ok ""
  | some raw ↦
      let version = trim_space raw in
      if not (version == "") && not (type == "azure")
      then err (detailed (of_http invalid_provider) "x_copilot.provider.azure requires type=azure")
      else ok version
]

-- url.Parse and net.ParseIP with Unmap.
module _ (parse_url : String → Option Url) (parse_ip : String → Option Addr) where
  -- The end of validateProviderBaseURL, for a host that is not exempt.
  unfoldable pub validate_provider_host : String → String → Option GoError
  unfolding is_localhost_hostname validate_provider_ip is_trusted_provider_hostname
  validate_provider_host type hostname =
      if is_localhost_hostname hostname
      then refuse "private or special-use provider URLs are disabled"
      else elim (parse_ip hostname) [
        | some addr ↦ validate_provider_ip addr
        | none ↦
            if is_trusted_provider_hostname type hostname
            then none
            else refuse (
                "arbitrary provider hostnames are unsupported; "
                ⧺ "use an official trusted host or an IP literal")
      ]

  -- validateProviderBaseURL.
  unfoldable pub validate_provider_base_url : Bool → String → Url → Option GoError
  unfolding trim_space validate_provider_host
  validate_provider_base_url allow_private type url =
      let hostname = trim_space url.hostname in
      if not url.is_abs
      then refuse "x_copilot.provider.base_url must be an absolute URL"
      else if not (url.scheme == "http") && not (url.scheme == "https")
      then refuse "x_copilot.provider.base_url must use http or https"
      else if hostname == ""
      then refuse "x_copilot.provider.base_url host is required"
      else if allow_private
      then none
      else validate_provider_host type hostname

  unfoldable pub check_base_url : Bool → String → String → Option GoError
  unfolding validate_provider_base_url
  check_base_url allow_private type base = elim (parse_url base) [
    | none ↦ refuse "x_copilot.provider.base_url must be an absolute URL"
    | some url ↦ validate_provider_base_url allow_private type url
  ]

  -- toRuntimeProvider, but for the two fingerprints.
  unfoldable pub to_runtime_provider : Bool → CopilotProviderConfig → Result ProviderConfig
  unfolding trim_space provider_type check_base_url wire_api azure_api_version
  to_runtime_provider allow_private p =
      let base = trim_space p.base_url in
      reject (base == "")
        (detailed (of_http invalid_provider) "x_copilot.provider.base_url is required")
      >> provider_type p
      >>= λ type. as_result (check_base_url allow_private type base) >> wire_api type p >>= λ wire.
          azure_api_version type p >>= λ version. ok (record {
            type = type;
            wire_api = wire;
            base_url = base;
            api_key = trim_space p.api_key;
            bearer_token = trim_space p.bearer_token;
            azure_api_version = version;
          })

  -- A host that the gateway sends a provider's requests to: an official one, or a public address.
  pub data IsPublicHost (type : String) (hostname : String) : Type 0 where
    trusted : is_trusted_provider_hostname type hostname ≡ true → IsPublicHost type hostname
    address :
        (addr : Addr)
        → parse_ip hostname ≡ some addr
        → is_global_unicast addr ≡ true
        → any (prefix_contains addr) blocked_remote_ip_prefixes ≡ false
        → IsPublicHost type hostname

  validate_provider_host-none :
      (type hostname : String)
      → validate_provider_host type hostname ≡ none
      → (is_localhost_hostname hostname ≡ false) × IsPublicHost type hostname
  unfolding validate_provider_host validate_provider_ip
  validate_provider_host-none type hostname h = elim (Bool-cases (is_localhost_hostname hostname)) [
    | inl e ↦ absurd (ground arith)
    | inr e ↦ elim (Option-cases (parse_ip hostname)) [
      | inl n ↦ elim (Bool-cases (is_trusted_provider_hostname type hostname)) [
        | inl f ↦ (e, trusted f)
        | inr f ↦ absurd (ground arith)
      ]
      | inr a ↦ elim (Bool-cases (is_global_unicast a.0)) [
        | inr f ↦ absurd (ground (arith, a.1))
        | inl f ↦ elim (Bool-cases (any (prefix_contains a.0) blocked_remote_ip_prefixes)) [
          | inl g ↦ absurd (ground (arith, a.1))
          | inr g ↦ (e, address a.0 a.1 f g)
        ]
      ]
    ]
  ]

  check_base_url-none :
      (type base : String)
      → check_base_url false type base ≡ none
      → (url : Url) × (parse_url base ≡ some url)
        × ((url.scheme ≡ "http") ⊎ (url.scheme ≡ "https"))
        × (is_localhost_hostname (trim_space url.hostname) ≡ false)
        × IsPublicHost type (trim_space url.hostname)
  unfolding check_base_url validate_provider_base_url
  check_base_url-none type base h = elim (Option-cases (parse_url base)) [
    | inl n ↦ absurd (ground arith)
    | inr u ↦
        let hostname = trim_space u.0.hostname in
        elim (Bool-cases u.0.is_abs) [
          | inr e ↦ absurd (ground (arith, u.1))
          | inl e ↦ elim (Bool-cases (not (u.0.scheme == "http") && not (u.0.scheme == "https"))) [
            | inl f ↦ absurd (ground (arith, u.1))
            | inr f ↦ elim (Bool-cases (trim_space u.0.hostname == "")) [
              | inl g ↦ absurd (ground (arith, u.1))
              | inr g ↦
                  let host : validate_provider_host type hostname ≡ none = ground (arith, u.1) in
                  let safe = validate_provider_host-none type hostname host in
                  (
                    u.0,
                    u.1,
                    ground (arith, eq_iff u.0.scheme "http", eq_iff u.0.scheme "https"),
                    safe.0,
                    safe.1,
                  )
            ]
          ]
        ]
  ]

  -- Unless private URLs are allowed, a provider that is accepted has a URL with the scheme http or
  -- https whose host is not localhost and is an official host of the provider's type or the literal
  -- of a global unicast address in none of the blocked ranges.
  pub to_runtime_provider-IsPublicHost :
      (p : CopilotProviderConfig) (c : ProviderConfig)
      → to_runtime_provider false p ≡ ok c
      → (url : Url) × (parse_url c.base_url ≡ some url)
        × ((url.scheme ≡ "http") ⊎ (url.scheme ≡ "https"))
        × (is_localhost_hostname (trim_space url.hostname) ≡ false)
        × IsPublicHost c.type (trim_space url.hostname)
  unfolding to_runtime_provider
  to_runtime_provider-IsPublicHost p c h =
      let base = trim_space p.base_url in
      let a =
        bind_ok
          (reject (base == "")
              (detailed (of_http invalid_provider) "x_copilot.provider.base_url is required")
            >> provider_type p)
          _ c h in
      let b = bind_ok (as_result (check_base_url false a.0 base) >> wire_api a.0 p) _ c a.2 in
      let d = bind_ok (azure_api_version a.0 p) _ c b.2 in
      let e = check_ok (as_result (check_base_url false a.0 base)) (wire_api a.0 p) b.0 b.1 in
      let checked =
        check_base_url-none a.0 base (as_result_ok (check_base_url false a.0 base) tt e.0) in
      let type : a.0 ≡ c.type = ap (λ r. elim r [ ok x ↦ x.type | err y ↦ a.0 ]) d.2 in
      let url : base ≡ c.base_url = ap (λ r. elim r [ ok x ↦ x.base_url | err y ↦ base ]) d.2 in
      rw (← type, ← url) checked
