-- ===== src/Http/Attachments/Restored.antt =====
-- internal/httpapi/server.go: which directories the attachments of a request leave.
use copilot_sdkapi.Base.{
  ℕ, String, true, false, Option, none, some, List, [], ◌∷◌, ◌++◌, ◌≤◌, eqb, ◌≡◌, ◌≢◌, refl, ap,
  ◌∙◌, arith, Option-cases, inl, inr, if◌then◌else◌,
}
use copilot_sdkapi.Errors.{GoError, ok, err, Result-cases}
use copilot_sdkapi.Runtime.Types.{Attachment}
use copilot_sdkapi.Compat.Types.{ImageAttachment, CopilotAttachment}
use copilot_sdkapi.Http.Attachments.{
  Calls, Scratch, Cleanup, mkdir_temp, remove_dir, write_attachment_file, ensure_dir, image_data,
  place_image, place_images, cleanup_of, materialize_attachments, write_attachments,
  materialize_copilot_attachments, combine_cleanup, run_cleanups, cleaned,
}

-- Numbers that have not been given out name no directory.
abbrev pub IsFresh : Scratch → Type 0
IsFresh s = (d : ℕ) → s.next_dir ≤ d → s.has_dir d ≡ false

-- The same directories.
abbrev pub Restored : Scratch → Scratch → Type 0
Restored t s = (d : ℕ) → t.has_dir d ≡ s.has_dir d

module _ (os : Calls) (removes : (d : ℕ) → os.remove_all d ≡ none) where
  pub mkdir_temp_fails :
      (s : Scratch) (e : GoError) → (mkdir_temp os s).1 ≡ err e → (mkdir_temp os s).0 ≡ s
  unfolding mkdir_temp
  mkdir_temp_fails s e h = elim (Option-cases (os.make_dir s.next_dir)) [
    | inr (x, f) ↦ rw (mkdir_temp, f) refl
    | inl f ↦ absurd (ground (arith, h, f))
  ]

  mkdir_temp_lem :
      (s : Scratch) (n : ℕ)
      → (mkdir_temp os s).1 ≡ ok n
      → (s.next_dir ≡ n)
        × ((d : ℕ) → (mkdir_temp os s).0.has_dir d ≡ (if eqb n d then true else s.has_dir d))
  unfolding mkdir_temp
  mkdir_temp_lem s n h = elim (Option-cases (os.make_dir s.next_dir)) [
    | inr (x, f) ↦ absurd (ground (arith, h, f))
    | inl f ↦
        let same : s.next_dir ≡ n = ground (arith, h, f) in
        (same, λ d. rw (mkdir_temp, f) (ap (λ k. if eqb k d then true else s.has_dir d) same))
  ]

  remove_dir_lem :
      (n d : ℕ) (s : Scratch)
      → (remove_dir os n s).0.has_dir d ≡ (if eqb n d then false else s.has_dir d)
  unfolding remove_dir
  remove_dir_lem n d s = rw (remove_dir, removes n) refl

  -- Removing the directory that was just made.
  mkdir_temp-remove_dir :
      (s : Scratch) (n : ℕ)
      → IsFresh s
      → (mkdir_temp os s).1 ≡ ok n
      → Restored (remove_dir os n (mkdir_temp os s).0).0 s
  mkdir_temp-remove_dir s n fresh h d =
      let (same, made) = mkdir_temp_lem s n h in
      remove_dir_lem n d (mkdir_temp os s).0 ∙ ground (arith, made d, fresh d, same)

  write_nothing :
      (n : ℕ) (hint type : String) (a : Attachment) → write_attachment_file os n hint type [] ≢ ok a
  unfolding write_attachment_file
  write_nothing n hint type a h = absurd (cc h)

  place_image_ok :
      (image : String × List ℕ) (s : Scratch) (x : Attachment) (dir : Option ℕ)
      → (place_image os image none s).1 ≡ ok (x, dir)
      → ((place_image os image none s).0 ≡ s) × (dir ≡ none)
  unfolding place_image ensure_dir
  place_image_ok (type, (b ∷ bs)) s x dir h = (refl, ground (arith, h))
  place_image_ok (type, []) s x dir h = elim (Result-cases (mkdir_temp os s).1) [
    | inr (e, f) ↦ absurd (ground (arith, h, f))
    | inl (n, f) ↦ elim (Result-cases (write_attachment_file os n "image" type [])) [
      | inl (a, g) ↦ absurd (write_nothing n "image" type a g)
      | inr (e, g) ↦ absurd (ground (arith, h, f, g))
    ]
  ]

  place_image_fails :
      (image : String × List ℕ) (s : Scratch) (e : GoError)
      → IsFresh s
      → (place_image os image none s).1 ≡ err e
      → Restored (place_image os image none s).0 s
  unfolding place_image ensure_dir
  place_image_fails (type, (b ∷ bs)) s e fresh h = absurd (cc h)
  place_image_fails (type, []) s e fresh h = elim (Result-cases (mkdir_temp os s).1) [
    | inr (x, f) ↦ rw (place_image, f) (λ d. ap (λ t. t.has_dir d) (mkdir_temp_fails s x f))
    | inl (n, f) ↦ elim (Result-cases (write_attachment_file os n "image" type [])) [
      | inl (a, g) ↦ absurd (write_nothing n "image" type a g)
      | inr (x, g) ↦ rw (place_image, f) (mkdir_temp-remove_dir s n fresh f)
    ]
  ]

  place_images_ok :
      (images : List ImageAttachment) (made end : List Attachment) (s : Scratch) (dir : Option ℕ)
      → (place_images os images none made s).1 ≡ ok (end, dir)
      → ((place_images os images none made s).0 ≡ s) × (dir ≡ none)
  unfolding place_images
  place_images_ok [] made end s dir h = (refl, ground (arith, h))
  place_images_ok (a ∷ rest) made end s dir h = elim (Result-cases (image_data os a)) [
    | inr (e, f) ↦ absurd (ground (arith, h, f))
    | inl (image, f) ↦ elim (Result-cases (place_image os image none s).1) [
      | inr (e, g) ↦ absurd (ground (arith, h, f, g))
      | inl ((x, d), g) ↦
          let (kept, still) = place_image_ok image s x d g in
          let next : (place_images os rest none (made ++ x ∷ []) s).1 ≡ ok (end, dir) =
            ground (arith, h, f, g, kept, still) in
          let (same, end_dir) = place_images_ok rest (made ++ x ∷ []) end s dir next in
          (rw (place_images, f, g, still, kept) same, end_dir)
    ]
  ]

  place_images_fails :
      (images : List ImageAttachment) (made : List Attachment) (s : Scratch) (e : GoError)
      → IsFresh s
      → (place_images os images none made s).1 ≡ err e
      → Restored (place_images os images none made s).0 s
  unfolding place_images
  place_images_fails [] made s e fresh h = absurd (cc h)
  place_images_fails (a ∷ rest) made s e fresh h = elim (Result-cases (image_data os a)) [
    | inr (x, f) ↦ rw (place_images, f) (λ d. refl)
    | inl (image, f) ↦ elim (Result-cases (place_image os image none s).1) [
      | inr (x, g) ↦ rw (place_images, f, g) (place_image_fails image s x fresh g)
      | inl ((x, d), g) ↦
          let (kept, still) = place_image_ok image s x d g in
          let next : (place_images os rest none (made ++ x ∷ []) s).1 ≡ err e =
            ground (arith, h, f, g, kept, still) in
          rw (place_images, f, g, still, kept)
            (place_images_fails rest (made ++ x ∷ []) s e fresh next)
    ]
  ]

  pub materialize_attachments_ok :
      (images : List ImageAttachment) (s : Scratch) (made : List Attachment) (c : Option Cleanup)
      → (materialize_attachments os images s).1 ≡ ok (made, c)
      → ((materialize_attachments os images s).0 ≡ s) × ((t : Scratch) → cleaned c t ≡ t)
  unfolding materialize_attachments
  materialize_attachments_ok [] s made c h =
      let nothing : none ≡ c = ground (arith, h) in (refl, rw (← nothing) (λ t. refl))
  materialize_attachments_ok (a ∷ rest) s made c h =
      elim (Result-cases (place_images os (a ∷ rest) none [] s).1) [
        | inr (e, f) ↦ absurd (ground (arith, h, f))
        | inl ((end, dir), f) ↦
            let (kept, still) = place_images_ok (a ∷ rest) [] end s dir f in
            let same : some (cleanup_of os none) ≡ c = ground (arith, h, f, still) in
            (rw (materialize_attachments, f) kept, rw (← same) (λ t. refl))
      ]

  pub materialize_attachments_fails :
      (images : List ImageAttachment) (s : Scratch) (e : GoError)
      → IsFresh s
      → (materialize_attachments os images s).1 ≡ err e
      → Restored (materialize_attachments os images s).0 s
  unfolding materialize_attachments
  materialize_attachments_fails [] s e fresh h = absurd (cc h)
  materialize_attachments_fails (a ∷ rest) s e fresh h =
      elim (Result-cases (place_images os (a ∷ rest) none [] s).1) [
        | inr (x, f) ↦
            rw (materialize_attachments, f) (place_images_fails (a ∷ rest) [] s x fresh f)
        | inl (end, f) ↦ absurd (ground (arith, h, f))
      ]

  -- What is left of the attachments of x_copilot: nothing after an error, nothing after the cleanup.
  pub materialize_copilot_attachments_ok :
      (inputs : List CopilotAttachment) (s : Scratch) (made : List Attachment) (c : Option Cleanup)
      → IsFresh s
      → (materialize_copilot_attachments os inputs s).1 ≡ ok (made, c)
      → Restored (cleaned c (materialize_copilot_attachments os inputs s).0) s
  unfolding materialize_copilot_attachments
  materialize_copilot_attachments_ok [] s made c fresh h =
      let nothing : none ≡ c = ground (arith, h) in rw (← nothing) (λ d. refl)
  materialize_copilot_attachments_ok (a ∷ rest) s made c fresh h =
      elim (Result-cases (mkdir_temp os s).1) [
        | inr (e, f) ↦ absurd (ground (arith, h, f))
        | inl (n, f) ↦ elim (Result-cases (write_attachments os n (a ∷ rest) [])) [
          | inr (e, g) ↦ absurd (ground (arith, h, f, g))
          | inl (end, g) ↦
              let same : some (remove_dir os n) ≡ c = ground (arith, h, f, g) in
              rw (← same, materialize_copilot_attachments, f, g) (mkdir_temp-remove_dir s n fresh f)
        ]
      ]

  pub materialize_copilot_attachments_fails :
      (inputs : List CopilotAttachment) (s : Scratch) (e : GoError)
      → IsFresh s
      → (materialize_copilot_attachments os inputs s).1 ≡ err e
      → Restored (materialize_copilot_attachments os inputs s).0 s
  unfolding materialize_copilot_attachments
  materialize_copilot_attachments_fails [] s e fresh h = absurd (cc h)
  materialize_copilot_attachments_fails (a ∷ rest) s e fresh h =
      elim (Result-cases (mkdir_temp os s).1) [
        | inr (x, f) ↦
            rw (materialize_copilot_attachments, f)
              (λ d. ap (λ t. t.has_dir d) (mkdir_temp_fails s x f))
        | inl (n, f) ↦ elim (Result-cases (write_attachments os n (a ∷ rest) [])) [
          | inr (x, g) ↦
              rw (materialize_copilot_attachments, f, g) (mkdir_temp-remove_dir s n fresh f)
          | inl (end, g) ↦ absurd (ground (arith, h, f, g))
        ]
      ]

-- The combined cleanup runs both, in order.
pub combine_cleanup_lem :
    (first second : Option Cleanup) (s : Scratch)
    → cleaned (combine_cleanup first second) s ≡ cleaned second (cleaned first s)
unfolding combine_cleanup run_cleanups
combine_cleanup_lem none none s = refl
combine_cleanup_lem none (some d) s = refl
combine_cleanup_lem (some c) none s = refl
combine_cleanup_lem (some c) (some d) s = refl
