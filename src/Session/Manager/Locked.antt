-- ===== src/Session/Manager/Locked.antt =====
-- internal/session/manager.go: the entry that Acquire has waited for or reserved is locked.
use copilot_sdkapi.Base.{
  ℕ, suc, true, none, some, List, [], ◌∷◌, lookup, insert, ◌≡◌, refl, sym, ap, subst, ◌∙◌, arith,
  Bool-cases, Option-cases, inl, inr, lookup-insert, eq_refl,
}
use copilot_sdkapi.Session.Spec.{specs_equal}
use copilot_sdkapi.Session.Manager.{Manager, new_entry, set_entry, lock}
use copilot_sdkapi.Session.Manager.Heap.{set_entry-here, lock-heap}
use copilot_sdkapi.Session.Manager.Capacity.{enter, validate_capacity, reserved}
use copilot_sdkapi.Session.Manager.Opening.{Opening}
use copilot_sdkapi.Session.Manager.Acquire.{Poll, lock_managed_session}

module _ {S : Type 0} where
  pub lock_managed_session-locked :
      (i : ℕ) (ps : List (Poll S)) (m n : Manager S)
      → lock_managed_session i ps m ≡ some (n, none)
      → (n.heap i).locked ≡ true
  unfolding lock_managed_session
  lock_managed_session-locked i [] m n h = absurd (cc h)
  lock_managed_session-locked i (p ∷ ps) m n h =
      let later = lock_managed_session-locked i ps (p.others m) n in
      elim (Option-cases p.ctx_err) [
        | inr e ↦ absurd (ground arith)
        | inl e ↦ elim (Bool-cases (m.heap i).locked) [
          | inl busy ↦ later (ground arith)
          | inr free ↦
              let here : lock i m ≡ n = ground arith in
              sym (ap (λ x. (x.heap i).locked) here) ∙ ap (λ x. x.locked) (lock-heap i m)
        ]
      ]

  pub enter-reserved :
      (o : Opening) (i : ℕ) (m : Manager S)
      → (enter o.key o.spec o.delete_by_id m).1 ≡ reserved i
      → let n = (enter o.key o.spec o.delete_by_id m).0 in
        ((n.heap i).locked ≡ true) × (lookup o.key n.sessions ≡ some i)
  unfolding enter
  enter-reserved o i m h = elim (Option-cases (lookup o.key m.sessions)) [
    | inr j ↦ elim (Bool-cases (specs_equal (m.heap j.0).spec o.spec)) [
      | inl e ↦ absurd (ground arith)
      | inr e ↦ absurd (ground arith)
    ]
    | inl missing ↦ elim (Option-cases (validate_capacity m.limits o.key m.sessions)) [
      | inr e ↦ absurd (ground arith)
      | inl fits ↦
          let j = m.next_entry in
          let fresh = new_entry o.key o.spec o.delete_by_id in
          let placed = set_entry j fresh m in
          let n : Manager S = record placed {
            sessions = insert o.key j m.sessions;
            next_entry = suc j;
          } in
          let whole : enter o.key o.spec o.delete_by_id m ≡ (n, reserved j) =
            rw (enter, missing, fits) refl in
          let same : reserved j ≡ reserved i = sym (ap (λ x. x.1) whole) ∙ h in
          let at : j ≡ i = cc same in
          let self = eq_refl o.key in
          let found : lookup o.key n.sessions ≡ some j =
            ground (arith, lookup-insert o.key o.key j m.sessions) in
          let held : ((n.heap j).locked ≡ true) × (lookup o.key n.sessions ≡ some j) =
            (ap (λ x. x.locked) (set_entry-here j fresh m), found) in
          subst (λ k. ((k.heap i).locked ≡ true) × (lookup o.key k.sessions ≡ some i))
            (sym (ap (λ x. x.0) whole))
            (subst (λ k. ((n.heap k).locked ≡ true) × (lookup o.key n.sessions ≡ some k)) at held)
    ]
  ]
