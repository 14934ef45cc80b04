-- ===== src/Session/FileStore/Writing.antt =====
-- internal/session/store.go: what one write of the whole file does.
use copilot_sdkapi.Base.{
  String, false, none, ◌≡◌, ◌≢◌, refl, ap, subst, ◌∙◌, ◌⊎◌, inl, inr, ◌==◌, ◌∷◌, [], arith, Map,
  lookup, Bool-cases, Option-cases, eq_iff,
}
use mathlib.Core.Option
use copilot_sdkapi.Session.Store.{StoredSession}
use copilot_sdkapi.Session.FileStore.{
  absent, blank, table, FileSystem, remove_temp, marshalled, marshalled_all, rename_temp, fill_temp,
  write_all,
}

-- A write of the whole file either fails and leaves the file as it was, or ends without an error
-- and the file is the JSON of the records.
pub fill_temp_lem :
    (m : Map StoredSession) (fs : FileSystem)
    → let r = fill_temp m fs in
      (r.0.faults ≡ fs.faults)
      × (((r.1 ≢ none) × (r.0.file ≡ fs.file))
          ⊎ ((r.1 ≡ none) × (r.0.file ≡ table (marshalled_all m))))
unfolding fill_temp rename_temp
fill_temp_lem m fs = elim (Option-cases fs.faults.write) [
  | inr w ↦ rw (w.1, fill_temp) ground arith
  | inl w ↦ elim (Option-cases fs.faults.close) [
    | inr c ↦ rw (w, c.1, fill_temp) ground arith
    | inl c ↦ elim (Option-cases fs.faults.rename) [
      | inr n ↦ rw (w, c, n.1, fill_temp, rename_temp) ground arith
      | inl n ↦ rw (w, c, n, fill_temp, rename_temp) ground arith
    ]
  ]
]

remove_temp_lem :
    (fs : FileSystem)
    → let r = remove_temp fs in
      (r.faults ≡ fs.faults) × (r.file ≡ fs.file) × ((r.temp ≡ absent) ⊎ (fs.faults.remove ≢ none))
remove_temp_lem fs = elim (Option-cases fs.faults.remove) [
  | inl e ↦ rw e (refl, refl, inl refl)
  | inr e ↦ rw (e.1) (refl, refl, inr (λ h. absurd (cc h)))
]

-- writeAllLocked replaces the whole file or leaves it as it was, says which, and leaves no
-- temporary file of its own unless os.Remove fails.
pub write_all_lem :
    (path : String) (m : Map StoredSession) (fs : FileSystem)
    → path ≢ ""
    → let r = write_all path m fs in
      (r.0.faults ≡ fs.faults)
      × (fs.temp ≡ absent → (r.0.temp ≡ absent) ⊎ (fs.faults.remove ≢ none))
      × (((r.1 ≢ none) × (r.0.file ≡ fs.file))
          ⊎ ((r.1 ≡ none) × (r.0.file ≡ table (marshalled_all m))))
unfolding write_all
write_all_lem path m fs named =
    let unnamed : (path == "") ≡ false = ground (arith, eq_iff path "") in
    elim (Option-cases fs.faults.make_dir) [
      | inr d ↦ rw (unnamed, d.1, write_all) ground arith
      | inl d ↦ elim (Option-cases fs.faults.marshal) [
        | inr j ↦ rw (unnamed, d, j.1, write_all) ground arith
        | inl j ↦ elim (Option-cases fs.faults.create_temp) [
          | inr c ↦ rw (unnamed, d, j, c.1, write_all) ground arith
          | inl c ↦
              let written = record fs { temp = blank } in
              let filled = fill_temp_lem m written in
              let gone = remove_temp_lem (fill_temp m written).0 in
              let removing : (fill_temp m written).0.faults.remove ≡ fs.faults.remove =
                ap (λ f. f.remove) filled.0 in
              let outcome = filled.1 in
              let left : ((remove_temp (fill_temp m written).0).temp ≡ absent)
                  ⊎ (fs.faults.remove ≢ none) =
                subst (λ o. ((remove_temp (fill_temp m written).0).temp ≡ absent) ⊎ (o ≢ none))
                  removing gone.2 in
              let r = fill_temp m written in
              let whole : write_all path m fs ≡ (remove_temp r.0, r.1) =
                ground (arith, unnamed, d, j, c) in
              rw (whole) (
                gone.0 ∙ filled.0,
                λ clean. left,
                elim outcome [
                  | inl failed ↦ inl (failed.0, gone.1 ∙ failed.1)
                  | inr done ↦ inr (done.0, gone.1 ∙ done.1)
                ],
              )
        ]
      ]
    ]

pub lookup-marshalled_all :
    (k : String) (m : Map StoredSession)
    → lookup k (marshalled_all m) ≡ Option.map marshalled (lookup k m)
unfolding lookup marshalled_all
lookup-marshalled_all k [] = refl
lookup-marshalled_all k ((j, r) ∷ m) =
    let rest = lookup-marshalled_all k m in
    elim (Bool-cases (j == k)) [
      | inl e ↦ rw (lookup, marshalled_all, e) refl
      | inr e ↦ rw (lookup, marshalled_all, e) rest
    ]
