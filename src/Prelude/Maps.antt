-- ===== src/Prelude/Maps.antt =====
-- A `Map` with text keys, as an association list in the order of insertion.
use Prim.Native.String.{String}
use mathlib.Core.Path.{◌≡◌, refl}
use mathlib.Core.Option.{Option, none, some}
use mathlib.Core.List.{List, [], ◌∷◌}
use native.Mathlib.Omega.{arith}
use text.Mathlib.Text.{◌==◌ as str_eq}
use text.Mathlib.TextEquality.{eq_iff}
use mathlib.Core.Logic.{inl, inr}
use hy_fib_wa_app.Prelude.Tests.{if◌then◌else◌, Bool-cases}
use hy_fib_wa_app.Prelude.Lists.{All}

module _ {ℓ} {V : Type ℓ} where
  unfoldable pub lookup : String → List (String × V) → Option V
  lookup key [] = none
  lookup key ((k, v) ∷ m) = if str_eq k key then some v else lookup key m

  -- `map.set(key, value)`
  unfoldable pub insert : String → V → List (String × V) → List (String × V)
  insert key v [] = (key, v) ∷ []
  insert key v ((k, old) ∷ m) = if str_eq k key then (k, v) ∷ m else (k, old) ∷ insert key v m

  -- `map.delete(key)`
  unfoldable pub delete : String → List (String × V) → List (String × V)
  delete key [] = []
  delete key ((k, v) ∷ m) = let rest = delete key m in if str_eq k key then rest else (k, v) ∷ rest

  pub lookup-insert :
      (key j : String) (v : V) (m : List (String × V))
      → lookup j (insert key v m) ≡ (if str_eq key j then some v else lookup j m)
  unfolding lookup insert
  lookup-insert key j v [] = refl
  lookup-insert key j v ((k, old) ∷ m) =
      ground (arith, eq_iff key j, eq_iff k key, eq_iff k j, lookup-insert key j v m)

  pub lookup-delete :
      (key j : String) (m : List (String × V))
      → lookup j (delete key m) ≡ (if str_eq key j then none else lookup j m)
  unfolding lookup delete
  lookup-delete key j [] = ground arith
  lookup-delete key j ((k, old) ∷ m) =
      ground (arith, eq_iff key j, eq_iff k key, eq_iff k j, lookup-delete key j m)

  -- One entry to a key.
  abbrev pub IsUnique : List (String × V) → Type ℓ
  IsUnique [] = Unit
  IsUnique ((k, v) ∷ m) = (lookup k m ≡ none) × IsUnique m

  pub insert-IsUnique :
      (key : String) (v : V) (m : List (String × V)) → IsUnique m → IsUnique (insert key v m)
  unfolding insert lookup
  insert-IsUnique key v [] u = (refl, tt)
  insert-IsUnique key v ((k, old) ∷ m) u =
      ground (arith, eq_iff k key, eq_iff key k, insert-IsUnique key v m, lookup-insert key k v m)

  pub delete-IsUnique :
      (key : String) (m : List (String × V)) → IsUnique m → IsUnique (delete key m)
  unfolding delete lookup
  delete-IsUnique key [] u = tt
  delete-IsUnique key ((k, old) ∷ m) u =
      ground (arith, eq_iff key k, eq_iff k key, delete-IsUnique key m, lookup-delete key k m)

module _ {ℓ κ} {V : Type ℓ} (P : V → Type κ) where
  pub insert-All :
      (key : String) (v : V) (m : List (String × V))
      → P v
      → All (λ e. P e.1) m
      → All (λ e. P e.1) (insert key v m)
  unfolding insert
  insert-All key v [] h a = (h, tt)
  insert-All key v ((k, old) ∷ m) h (p, a) = elim (Bool-cases (str_eq k key)) [
    | inl y ↦ rw y (h, a)
    | inr n ↦ rw n (p, insert-All key v m h a)
  ]

  pub delete-All :
      (key : String) (m : List (String × V)) → All (λ e. P e.1) m → All (λ e. P e.1) (delete key m)
  unfolding delete
  delete-All key [] a = tt
  delete-All key ((k, old) ∷ m) (p, a) = elim (Bool-cases (str_eq k key)) [
    | inl y ↦ rw y (delete-All key m a)
    | inr n ↦ rw n (p, delete-All key m a)
  ]
