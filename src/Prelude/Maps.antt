-- ===== src/Prelude/Maps.antt =====
-- Go maps with string keys, by their entries: a key stands once, where it was first put.
use mathlib.Core.Path.{◌≡◌, refl}
use mathlib.Core.List.{List, [], ◌∷◌}
use mathlib.Core.Option.{Option, none, some}
use native.Mathlib.Omega.{arith}
use nsqlite.Prelude.Tests.{if◌then◌else◌}
use nsqlite.Prelude.Strings.{Text, text_eq, text_eq_iff}

module _ {ℓ} {A : Type ℓ} where
  abbrev pub put : Text → A → List (Text × A) → List (Text × A)
  put k a [] = (k, a) ∷ []
  put k a ((l, b) ∷ m) = if text_eq l k then (l, a) ∷ m else (l, b) ∷ put k a m

  abbrev pub lookup : Text → List (Text × A) → Option A
  lookup k [] = none
  lookup k ((l, a) ∷ m) = if text_eq l k then some a else lookup k m

  pub lookup-put :
      (k l : Text) (a : A) (m : List (Text × A))
      → lookup k (put l a m) ≡ (if text_eq l k then some a else lookup k m)
  lookup-put k l a [] = refl
  lookup-put k l a ((j, b) ∷ m) =
      ground (arith, lookup-put k l a m, text_eq_iff j l, text_eq_iff j k, text_eq_iff l k)

-- `val, ok := o, true`, or else the other one
abbrev pub or_else {ℓ} : {A : Type ℓ} → Option A → Option A → Option A
or_else (some a) o = some a
or_else none o = o
