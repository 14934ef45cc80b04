-- ===== src/Runtime/Bridge/Resolve.antt =====
-- resolve: which answers are accepted, and where they go.
use copilot_sdkapi.Base.{
  ℕ, ◌≡◌, ◌≢◌, true, none, some, lookup, arith, eq_iff, ◌==◌, Bool-cases, Option-cases, inl, inr,
  ◌↔◌,
}
use copilot_sdkapi.Errors.{GoError}
use copilot_sdkapi.Strings.{trim_space}
use copilot_sdkapi.Runtime.Types.{PendingRequestKind, PendingResponse}
use copilot_sdkapi.Runtime.Bridge.Defs.{Bridge, PendingResolution, answer, same_kind, resolve}

same_kind_iff : (a b : PendingRequestKind) → (same_kind a b ≡ true) ↔ (a ≡ b)
same_kind_iff a b = ground arith

-- When an answer is accepted: its trimmed id is pending, of the same kind, and its channel is empty.
abbrev pub Accepts : Bridge → PendingResponse → PendingResolution → Type 0
Accepts b response p =
    (trim_space response.request_id ≢ "")
    × (lookup (trim_space response.request_id) b.pending_by_request ≡ some p)
    × (p.request.kind ≡ response.kind)
    × (b.boxes p.box ≡ none)

-- An answer is accepted exactly when its id, spaces around it aside, is not empty and names a
-- pending request of the answer's kind whose channel is empty.
pub resolve-eq-none_iff :
    (response : PendingResponse) (b : Bridge)
    → ((resolve response b).1 ≡ none) ↔ ((p : PendingResolution) × Accepts b response p)
unfolding resolve
resolve-eq-none_iff response b = (to, from)
  where
    to : (resolve response b).1 ≡ none → (p : PendingResolution) × Accepts b response p
    to e = elim (Bool-cases (trim_space response.request_id == "")) [
      | inl blank ↦ ground arith
      | inr named ↦
          elim (Option-cases (lookup (trim_space response.request_id) b.pending_by_request)) [
            | inl missing ↦ ground arith
            | inr (p, listed) ↦ (
              p,
              (
                ground (arith, eq_iff (trim_space response.request_id) ""),
                listed,
                ground (arith, same_kind_iff p.request.kind response.kind),
                ground arith,
              ),
            )
          ]
    ]

    from : (p : PendingResolution) × Accepts b response p → (resolve response b).1 ≡ none
    from (p, (named, listed, kept, empty)) = ground (
      arith,
      eq_iff (trim_space response.request_id) "",
      same_kind_iff p.request.kind response.kind,
    )

-- An answer that is accepted fills its request's channel; every other channel, the pending requests
-- and the two queues stay as they were.
pub resolve_delivers :
    (response : PendingResponse) (b : Bridge) (p : PendingResolution)
    → Accepts b response p
    → ((resolve response b).0.boxes p.box ≡ some (answer response))
      × ((n : ℕ) → n ≢ p.box → (resolve response b).0.boxes n ≡ b.boxes n)
      × ((resolve response b).0.pending_by_request ≡ b.pending_by_request)
      × ((resolve response b).0.permission_queue ≡ b.permission_queue)
      × ((resolve response b).0.user_input_queue ≡ b.user_input_queue)
unfolding resolve
resolve_delivers response b p (named, listed, kept, empty) =
    let text = eq_iff (trim_space response.request_id) "" in
    let kinds = same_kind_iff p.request.kind response.kind in
    (
      ground (arith, text, kinds),
      λ n h. ground (arith, text, kinds),
      ground (arith, text, kinds),
      ground (arith, text, kinds),
      ground (arith, text, kinds),
    )

-- An answer that is refused leaves the bridge as it was.
pub resolve_refuses :
    (response : PendingResponse) (b : Bridge) (e : GoError)
    → (resolve response b).1 ≡ some e
    → (resolve response b).0 ≡ b
unfolding resolve
resolve_refuses response b e h = ground arith
