-- ===== src/Http/Preparing/Ended.antt =====
-- internal/httpapi/server.go: how a preparation ends.
use copilot_sdkapi.Base.{
  ℕ, String, Option, none, some, List, ◌≡◌, refl, ap, ◌∙◌, subst, arith, Option-cases, inl, inr,
  ◌⊎◌,
}
use copilot_sdkapi.Errors.{GoError, Result, ok, err, Result-cases}
use copilot_sdkapi.Runtime.Types.{PermissionMode, Attachment}
use copilot_sdkapi.Compat.Types.{ConversationRequest}
use copilot_sdkapi.Compat.Prompt.{latest_user_turn}
use copilot_sdkapi.Session.Manager.{Manager}
use copilot_sdkapi.Session.Manager.Opening.{Opening}
use copilot_sdkapi.Session.Manager.Acquire.{Turn, acquire}
use copilot_sdkapi.Session.Manager.Lease.{Lease, release}
use copilot_sdkapi.Http.Attachments.{
  Calls, Scratch, Cleanup, cleaned, combine_cleanup, materialize_attachments,
  materialize_copilot_attachments,
}
use copilot_sdkapi.Http.Attachments.Limits.{validate_materialized_image_attachments}
use copilot_sdkapi.Http.Attachments.Restored.{
  IsFresh, Restored, materialize_attachments_ok, materialize_attachments_fails,
  materialize_copilot_attachments_ok, materialize_copilot_attachments_fails, combine_cleanup_lem,
}
use copilot_sdkapi.Http.Preparing.Prompts.{IsPromptOf, prompt_for-IsPromptOf}
use copilot_sdkapi.Http.Conversation.{Server, Clock, check_conversation, resolve_model}
use copilot_sdkapi.Http.Preparing.{
  World, PreparedConversation, has_provider, place_extras, place_attachments, fill_message,
  with_lease, prepare_conversation, prompt_for, prepared,
}

-- The directories are those of `s`: after an error at once, otherwise once the cleanup has run.
abbrev pub Settles : Scratch × Result (List Attachment × Option Cleanup) → Scratch → Type 0
Settles (t, err e) s = Restored t s
Settles (t, ok (made, c)) s = Restored (cleaned c t) s

module _ (os : Calls) (server : Server) (removes : (d : ℕ) → os.remove_all d ≡ none) where
  place_extras-Settles :
      (r : ConversationRequest) (images : List Attachment) (c : Option Cleanup) (s : Scratch)
      → IsFresh s
      → ((t : Scratch) → cleaned c t ≡ t)
      → Settles (place_extras os server r images c s) s
  unfolding place_extras
  place_extras-Settles r images c s fresh idle =
      let x = materialize_copilot_attachments os r.copilot.attachments s in
      let model = resolve_model server.default_model r.model in
      elim (Result-cases x.1) [
        | inr (e, f) ↦
            rw (place_extras, f, idle x.0)
              (materialize_copilot_attachments_fails os removes r.copilot.attachments s e fresh f)
        | inl ((extra, d), f) ↦
            let done =
              materialize_copilot_attachments_ok os removes r.copilot.attachments s extra d fresh
                f in
            let both : cleaned (combine_cleanup c d) x.0 ≡ cleaned d x.0 =
              combine_cleanup_lem c d x.0 ∙ ap (cleaned d) (idle x.0) in
            elim (Option-cases (
              validate_materialized_image_attachments os server.checks.models model images
                (has_provider r))) [
                  | inr (e, g) ↦ rw (place_extras, f, g, both) done
                  | inl g ↦ rw (place_extras, f, g, both) done
                ]
      ]

  place_attachments-Settles :
      (r : ConversationRequest) (s : Scratch)
      → IsFresh s
      → Settles (place_attachments os server r s) s
  unfolding place_attachments
  place_attachments-Settles r s fresh = elim (Result-cases (latest_user_turn r.turns)) [
    | inr (e, f) ↦ rw (place_attachments, f) (λ d. refl)
    | inl (latest, f) ↦ elim (Result-cases (materialize_attachments os latest.attachments s).1) [
      | inr (e, g) ↦
          rw (place_attachments, f, g)
            (materialize_attachments_fails os removes latest.attachments s e fresh g)
      | inl ((images, c), g) ↦
          let (kept, idle) =
            materialize_attachments_ok os removes latest.attachments s images c g in
          rw (place_attachments, f, g, kept) (place_extras-Settles r images c s fresh idle)
    ]
  ]

  fill_message_fails :
      (r : ConversationRequest) (mode : PermissionMode) (l : Lease) (s : Scratch) (e : GoError)
      → IsFresh s
      → (fill_message os server r mode l s).1 ≡ err e
      → Restored (fill_message os server r mode l s).0 s
  unfolding fill_message
  fill_message_fails r mode l s e fresh h = elim (Result-cases (prompt_for l r)) [
    | inr (x, f) ↦ rw (fill_message, f) (λ d. refl)
    | inl (prompt, f) ↦
        let settled = place_attachments-Settles r s fresh in
        elim (Result-cases (place_attachments os server r s).1) [
          | inr (x, g) ↦
              let left : Settles ((place_attachments os server r s).0, err x) s =
                subst (λ o. Settles ((place_attachments os server r s).0, o) s) g settled in
              rw (fill_message, f, g) left
          | inl (made, g) ↦ absurd (ground (arith, h, f, g))
        ]
  ]

  fill_message_ok :
      (r : ConversationRequest) (mode : PermissionMode) (l : Lease) (s : Scratch)
      (p : PreparedConversation)
      → IsFresh s
      → (fill_message os server r mode l s).1 ≡ ok p
      → (p.lease ≡ l)
        × (prompt_for l r ≡ ok p.message.prompt)
        × Restored (cleaned p.cleanup (fill_message os server r mode l s).0) s
  unfolding fill_message prepared
  fill_message_ok r mode l s p fresh h = elim (Result-cases (prompt_for l r)) [
    | inr (x, f) ↦ absurd (ground (arith, h, f))
    | inl (prompt, f) ↦
        let settled = place_attachments-Settles r s fresh in
        elim (Result-cases (place_attachments os server r s).1) [
          | inr (x, g) ↦ absurd (ground (arith, h, f, g))
          | inl ((made, c), g) ↦
              let left : Settles ((place_attachments os server r s).0, ok (made, c)) s =
                subst (λ o. Settles ((place_attachments os server r s).0, o) s) g settled in
              let same : prepared server r mode l prompt made c ≡ p = ground (arith, h, f, g) in
              rw (← same) (refl, f, rw (fill_message, f, g) left)
        ]
  ]

module _ {S : Type 0} (os : Calls) (server : Server) where
  -- A call that is refused at once, or in Acquire, or that releases the lease it has got.
  abbrev pub GivenBack :
      Clock → String → ConversationRequest → List (Turn S) → (m n : Manager S) → GoError → Type 0
  GivenBack clock key r ts m n e =
      ((check_conversation server clock key r ≡ err e) × (n ≡ m))
      ⊎ ((mode : PermissionMode) × (opening : Opening) × (check_conversation server clock key r
            ≡ ok (mode, opening))
          × ((acquire opening ts m ≡ some (n, err e))
              ⊎ ((held : Manager S) × (l : Lease) × (acquire opening ts m ≡ some (held, ok l))
                  × (n ≡ (release clock.released_at l held).0.0))))

  -- If RemoveAll always succeeds: a preparation that ends in an error, at whatever point, leaves
  -- the temporary directories that there were before, and no session leased: the session manager is
  -- as it was, or as Acquire left it with its error, or as it is once the lease that Acquire
  -- returned has been released.
  pub prepare_conversation_fails :
      (removes : (d : ℕ) → os.remove_all d ≡ none) (clock : Clock) (key : String)
      (r : ConversationRequest) (ts : List (Turn S)) (w v : World S) (e : GoError)
      → IsFresh w.scratch
      → prepare_conversation os server clock key r ts w ≡ some (v, err e)
      → Restored v.scratch w.scratch × GivenBack clock key r ts w.manager v.manager e
  unfolding prepare_conversation with_lease
  prepare_conversation_fails removes clock key r ts w v e fresh h =
      elim (Result-cases (check_conversation server clock key r)) [
        | inr (x, a) ↦
            let same : w ≡ v = ground (arith, h, a) in
            let told : x ≡ e = ground (arith, h, a) in
            rw (← same, ← told) (λ d. refl, inl (a, refl))
        | inl ((mode, opening), a) ↦ elim (Option-cases (acquire opening ts w.manager)) [
          | inl b ↦ absurd (ground (arith, h, a, b))
          | inr ((m, err x), b) ↦
              let same : record w { manager = m } ≡ v = ground (arith, h, a, b) in
              let told : x ≡ e = ground (arith, h, a, b) in
              rw (← same, ← told) (λ d. refl, inr (mode, opening, a, inl b))
          | inr ((m, ok l), b) ↦ elim (Result-cases (fill_message os server r mode l w.scratch).1) [
            | inl (p, c) ↦ absurd (ground (arith, h, a, b, c))
            | inr (x, c) ↦
                let same : record {
                  manager = (release clock.released_at l m).0.0;
                  scratch = (fill_message os server r mode l w.scratch).0;
                }
                    ≡ v =
                  ground (arith, h, a, b, c) in
                rw (← same) (
                  fill_message_fails os server removes r mode l w.scratch x fresh c,
                  inr (mode, opening, a, inr (m, l, b, refl)),
                )
          ]
        ]
      ]

  -- If RemoveAll always succeeds: a preparation that succeeds has passed the checks and holds the
  -- lease that Acquire gives for them; its prompt is the content of the last turn, which is a
  -- user's, if the lease is of a kept session that goes on, and otherwise the whole conversation as
  -- BuildPrompt writes it; and once its cleanup has run, the temporary directories are those that
  -- there were before.
  pub prepare_conversation_ok :
      (removes : (d : ℕ) → os.remove_all d ≡ none) (clock : Clock) (key : String)
      (r : ConversationRequest) (ts : List (Turn S)) (w v : World S) (p : PreparedConversation)
      → IsFresh w.scratch
      → prepare_conversation os server clock key r ts w ≡ some (v, ok p)
      → (mode : PermissionMode) × (opening : Opening) × (check_conversation server clock key r
          ≡ ok (mode, opening))
        × (acquire opening ts w.manager ≡ some (v.manager, ok p.lease))
        × IsPromptOf p.lease r p.message.prompt
        × Restored (cleaned p.cleanup v.scratch) w.scratch
  unfolding prepare_conversation with_lease
  prepare_conversation_ok removes clock key r ts w v p fresh h =
      elim (Result-cases (check_conversation server clock key r)) [
        | inr (x, a) ↦ absurd (ground (arith, h, a))
        | inl ((mode, opening), a) ↦ elim (Option-cases (acquire opening ts w.manager)) [
          | inl b ↦ absurd (ground (arith, h, a, b))
          | inr ((m, err x), b) ↦ absurd (ground (arith, h, a, b))
          | inr ((m, ok l), b) ↦ elim (Result-cases (fill_message os server r mode l w.scratch).1) [
            | inr (x, c) ↦ absurd (ground (arith, h, a, b, c))
            | inl (q, c) ↦
                let same : record {
                  manager = m;
                  scratch = (fill_message os server r mode l w.scratch).0;
                }
                    ≡ v =
                  ground (arith, h, a, b, c) in
                let made : q ≡ p = ground (arith, h, a, b, c) in
                let (leased, prompted, clean) =
                  fill_message_ok os server removes r mode l w.scratch q fresh c in
                rw (← same, ← made)
                  (
                    mode,
                    opening,
                    a,
                    rw (leased) b,
                    prompt_for-IsPromptOf q.lease r q.message.prompt (rw (leased) prompted),
                    clean,
                  )
          ]
        ]
      ]
