-- ===== src/Base/Maps.antt =====
-- Go maps with string keys, as association lists in which the first binding of a key counts.
use Prim.Native.String.{String}
use mathlib.Core.Path.{◌≡◌, refl}
use mathlib.Core.Option.{Option, none, some}
use mathlib.Core.List.{List, [], ◌∷◌}
use native.Mathlib.Omega.{arith}
use text.Mathlib.Text.{◌==◌}
use text.Mathlib.TextEquality.{eq_iff}
use mathlib.Core.Logic.{inl, inr}
use copilot_sdkapi.Base.Tests.{if◌then◌else◌, Bool-cases}

-- `map[string]V`.
abbrev pub Map {ℓ} : Type ℓ → Type ℓ
Map V = List (String × V)

module _ {ℓ} {V : Type ℓ} where
  -- `v, ok := m[k]`.
  unfoldable pub lookup : String → Map V → Option V
  lookup key [] = none
  lookup key ((bound, value) ∷ rest) = if bound == key then some value else lookup key rest

  -- `m[k] = v`.
  unfoldable pub insert : String → V → Map V → Map V
  insert key value [] = (key, value) ∷ []
  insert key value ((bound, old) ∷ rest) =
      if bound == key then (bound, value) ∷ rest else (bound, old) ∷ insert key value rest

  -- `delete(m, k)`.
  unfoldable pub delete : String → Map V → Map V
  delete k [] = []
  delete k ((j, w) ∷ m) = let rest = delete k m in if j == k then rest else (j, w) ∷ rest

  pub lookup-insert :
      (key asked : String) (value : V) (m : Map V)
      → lookup asked (insert key value m) ≡ (if key == asked then some value else lookup asked m)
  unfolding lookup insert
  lookup-insert key asked value [] = refl
  lookup-insert key asked value ((bound, old) ∷ rest) =
      let later = lookup-insert key asked value rest in
      ground (arith, later, eq_iff bound key, eq_iff bound asked, eq_iff key asked)

  pub lookup-delete :
      (k j : String) (m : Map V) → lookup j (delete k m) ≡ (if k == j then none else lookup j m)
  unfolding lookup delete
  lookup-delete k j [] = ground arith
  lookup-delete k j ((i, w) ∷ m) =
      ground (arith, eq_iff k j, eq_iff i k, eq_iff i j, lookup-delete k j m)

  -- No key is bound twice: what `insert` and `delete` keep, and a Go map is.
  abbrev pub Unique : Map V → Type ℓ
  Unique [] = Unit
  Unique ((k, v) ∷ m) = (lookup k m ≡ none) × Unique m

  pub insert-Unique : (k : String) (v : V) (m : Map V) → Unique m → Unique (insert k v m)
  unfolding insert lookup
  insert-Unique k v [] u = (refl, tt)
  insert-Unique k v ((j, w) ∷ m) u =
      ground (arith, eq_iff j k, eq_iff k j, lookup-insert k j v m, insert-Unique k v m u.1)

  pub delete-Unique : (k : String) (m : Map V) → Unique m → Unique (delete k m)
  unfolding delete
  delete-Unique k [] u = tt
  delete-Unique k ((j, w) ∷ m) u =
      ground (arith, eq_iff j k, lookup-delete k j m, delete-Unique k m u.1)

  -- A statement about every binding.
  abbrev pub Every {κ} : (String → V → Type κ) → Map V → Type (ℓ ⊔ κ)
  Every P m = (k : String) (v : V) → lookup k m ≡ some v → P k v

  pub insert-Every {κ} :
      (P : String → V → Type κ) (k : String) (v : V) (m : Map V)
      → Every P m
      → P k v
      → Every P (insert k v m)
  insert-Every P k v m h p j w e = elim (Bool-cases (k == j)) [
    | inl same ↦
        let here : v ≡ w = ground (arith, lookup-insert k j v m) in
        rw (← (eq_iff k j).0 same, ← here) p
    | inr other ↦ h j w (ground (arith, lookup-insert k j v m))
  ]

  pub delete-Every {κ} :
      (P : String → V → Type κ) (k : String) (m : Map V) → Every P m → Every P (delete k m)
  delete-Every P k m h j w e = h j w (ground (arith, lookup-delete k j m))
