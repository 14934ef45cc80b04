-- ===== src/Http/Preparing/Prompts.antt =====
-- internal/httpapi/server.go: which prompt a leased session is sent.
use copilot_sdkapi.Base.{
  ℕ, String, true, false, none, some, List, [], ◌∷◌, ◌++◌, last?, ◌≡◌, sym, ap, arith, eq_iff,
  Bool-cases, Option-cases, inl, inr, ◌⊎◌, ◌==◌,
}
use copilot_sdkapi.Errors.{ok}
use copilot_sdkapi.Compat.Types.{Turn, ConversationRequest}
use copilot_sdkapi.Compat.Prompt.{normalize_role, build_prompt, latest_user_prompt}
use copilot_sdkapi.Session.Manager.Lease.{Lease, is_persistent}
use copilot_sdkapi.Http.Preparing.{prompt_for}

-- A kept session that goes on gets the content of the last turn, which is a user's; any other gets
-- the whole conversation.
abbrev pub IsPromptOf : Lease → ConversationRequest → String → Type 0
IsPromptOf l r prompt =
    ((i : ℕ) × (l.entry ≡ some i)
      × (l.created ≡ false)
      × ((earlier : List Turn) × (t : Turn) × (r.turns ≡ earlier ++ t ∷ [])
          × (normalize_role t.role ≡ "user")
          × (prompt ≡ t.content)))
    ⊎ (((l.entry ≡ none) ⊎ (l.created ≡ true)) × (prompt ≡ build_prompt r.turns))

last?-split :
    (ts : List Turn) (t : Turn)
    → last? ts ≡ some t
    → (earlier : List Turn) × (ts ≡ earlier ++ t ∷ [])
last?-split [] t h = absurd (cc h)
last?-split (x ∷ []) t h = let same : x ≡ t = cc h in ([], ap (λ y. y ∷ []) same)
last?-split (x ∷ y ∷ ys) t h =
    let (earlier, split) = last?-split (y ∷ ys) t h in (x ∷ earlier, ap (λ zs. x ∷ zs) split)

latest_user_prompt-split :
    (turns : List Turn) (prompt : String)
    → latest_user_prompt turns ≡ ok prompt
    → (earlier : List Turn) × (t : Turn) × (turns ≡ earlier ++ t ∷ [])
      × (normalize_role t.role ≡ "user")
      × (prompt ≡ t.content)
unfolding latest_user_prompt
latest_user_prompt-split turns prompt h = elim (Option-cases (last? turns)) [
  | inl e ↦ absurd (ground (arith, h, e))
  | inr (t, e) ↦ elim (Bool-cases (normalize_role t.role == "user")) [
    | inr f ↦ absurd (ground (arith, h, e, f))
    | inl f ↦
        let (earlier, split) = last?-split turns t e in
        let same : t.content ≡ prompt = ground (arith, h, e, f) in
        (earlier, t, split, (eq_iff (normalize_role t.role) "user").0 f, sym same)
  ]
]

pub prompt_for-IsPromptOf :
    (l : Lease) (r : ConversationRequest) (prompt : String)
    → prompt_for l r ≡ ok prompt
    → IsPromptOf l r prompt
unfolding prompt_for is_persistent
prompt_for-IsPromptOf l r prompt h = elim (Option-cases l.entry) [
  | inl e ↦ let same : build_prompt r.turns ≡ prompt = ground (arith, h, e) in inr (inl e, sym same)
  | inr (i, e) ↦ elim (Bool-cases l.created) [
    | inl c ↦
        let same : build_prompt r.turns ≡ prompt = ground (arith, h, e, c) in inr (inr c, sym same)
    | inr c ↦
        let latest : latest_user_prompt r.turns ≡ ok prompt = ground (arith, h, e, c) in
        inl (i, e, c, latest_user_prompt-split r.turns prompt latest)
  ]
]
