-- ===== src/Session/Manager/Disturbed.antt =====
-- internal/session/manager.go: what is left of a reserved entry if others act while it is opened.
use copilot_sdkapi.Base.{
  ℕ, String, Bool, true, false, Option, some, lookup, ◌≡◌, ap, ◌∙◌, ◌⊎◌, inl, inr, arith,
  Bool-cases,
}
use copilot_sdkapi.Errors.{ok}
use copilot_sdkapi.Session.Store.{StoredSession}
use copilot_sdkapi.Session.Manager.{Manager, is_current}
use copilot_sdkapi.Session.Manager.Opening.{Opening, Meanwhile, load_persisted, open_session}
use copilot_sdkapi.Session.Manager.Quiet.{load_persisted-Quiet, resume_or_create-Quiet}
use copilot_sdkapi.Session.Manager.Opens.{
  loaded_state, opened_state, open_session-Opens, same_current,
}

module _ {S : Type 0} where
  -- What others did in a state took the entry out from under the key.
  abbrev pub TookOut : String → ℕ → (Manager S → Manager S) → Manager S → Type 0
  TookOut key i others m = (is_current key i m ≡ true) × (is_current key i (others m) ≡ false)

  -- They did so at one of the four points of the opening that starts in a state.
  abbrev pub LostDuring : ℕ → Opening → Meanwhile S → Manager S → Type 0
  LostDuring i o w m =
      TookOut o.key i w.before_load m
      ⊎ (TookOut o.key i w.before_open (loaded_state o w m)
          ⊎ (((persisted : Option StoredSession) × ((load_persisted o (w.before_load m)).1
                  ≡ ok persisted)
                × TookOut o.key i w.before_save (opened_state o w persisted m))
              ⊎ TookOut o.key i w.before_lease (open_session i o w m).0))

  -- Others leave the entry's lock, once it is taken.
  abbrev KeepsLock : ℕ → (Manager S → Manager S) → Type 0
  KeepsLock i others =
      (m : Manager S) → (m.heap i).locked ≡ true → ((others m).heap i).locked ≡ true

  -- At none of the four points they give back the lock of the entry that the call opens.
  pub record KeepsLocked (i : ℕ) (w : Meanwhile S) : Type 0 where
    pub at_load : KeepsLock i w.before_load
    pub at_open : KeepsLock i w.before_open
    pub at_save : KeepsLock i w.before_save
    pub at_lease : KeepsLock i w.before_lease

  pub is_current-lookup :
      (key : String) (i : ℕ) (m : Manager S)
      → is_current key i m ≡ true
      → lookup key m.sessions ≡ some i
  unfolding is_current
  is_current-lookup key i m h = ground arith

  pub lookup-is_current :
      (key : String) (i : ℕ) (m : Manager S)
      → lookup key m.sessions ≡ some i
      → is_current key i m ≡ true
  unfolding is_current
  lookup-is_current key i m h = ground (arith, h)

  took_out :
      (key : String) (i : ℕ) (others : Manager S → Manager S) (m : Manager S)
      → is_current key i m ≡ true
      → (is_current key i (others m) ≡ true) ⊎ TookOut key i others m
  took_out key i others m h = elim (Bool-cases (is_current key i (others m))) [
    | inl e ↦ inl e
    | inr e ↦ inr (h, e)
  ]

  -- The way from the reservation to the lease: the entry stays locked, and in the map unless others
  -- take it out.
  pub open_session_disturbed :
      (i : ℕ) (o : Opening) (w : Meanwhile S) (created : Bool) (m : Manager S)
      → KeepsLocked i w
      → (m.heap i).locked ≡ true
      → is_current o.key i m ≡ true
      → (open_session i o w m).1 ≡ ok created
      → let n = w.before_lease (open_session i o w m).0 in
        ((n.heap i).locked ≡ true) × ((is_current o.key i n ≡ true) ⊎ LostDuring i o w m)
  open_session_disturbed i o w created m keeps busy here h =
      let x = open_session-Opens i o w created m h in
      let persisted = x.stored in
      let loading = w.before_load m in
      let loaded = loaded_state o w m in
      let opening = w.before_open loaded in
      let opened = opened_state o w persisted m in
      let saving = w.before_save opened in
      let end = (open_session i o w m).0 in
      let a = load_persisted-Quiet o loading in
      let b = resume_or_create-Quiet o persisted opening in
      let lock1 = ap (λ g. (g i).locked) a.heap ∙ keeps.at_load m busy in
      let lock2 = ap (λ g. (g i).locked) b.heap ∙ keeps.at_open loaded lock1 in
      let lock3 = ap (λ e. e.locked) x.entry ∙ keeps.at_save opened lock2 in
      (
        keeps.at_lease end lock3,
        elim (took_out o.key i w.before_load m here) [
          | inr lost ↦ inr (inl lost)
          | inl c ↦
              elim (took_out o.key i w.before_open loaded
                (same_current o.key i loading loaded a.sessions ∙ c)) [
                  | inr lost ↦ inr (inr (inl lost))
                  | inl d ↦
                      elim (took_out o.key i w.before_save opened
                        (same_current o.key i opening opened b.sessions ∙ d)) [
                          | inr lost ↦ inr (inr (inr (inl (persisted, x.loaded, lost))))
                          | inl e ↦
                              elim (took_out o.key i w.before_lease end
                                (same_current o.key i saving end x.sessions ∙ e)) [
                                  | inr lost ↦ inr (inr (inr (inr lost)))
                                  | inl f ↦ inl f
                                ]
                        ]
                ]
        ],
      )
