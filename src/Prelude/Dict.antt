-- ===== src/Prelude/Dict.antt =====
-- Go's `map[string]V` as an association list with one entry for each key, the order being no part
-- of the meaning.
use mathlib.Core.List.{List, [], ◌∷◌}
use mathlib.Core.Option.{Option, none, some}
use mathlib.Core.Path.{◌≡◌}
use sms_gate.Prelude.Tests.{if◌then◌else◌}
use native.Mathlib.Omega.{arith}
use text.Mathlib.TextEquality.{eq_iff}
use text.Mathlib.Text.{◌==◌}
use Prim.Native.String.{String}

abbrev pub Dict {ℓ} : Type ℓ → Type ℓ
Dict V = List (String × V)

module _ {ℓ} {V : Type ℓ} where
  unfoldable pub lookup : String → Dict V → Option V
  lookup key [] = none
  lookup key ((other, value) ∷ dict) =
      let rest = lookup key dict in if key == other then some value else rest

  -- Every entry of the key goes, although there is one at most.
  unfoldable pub delete : String → Dict V → Dict V
  delete key [] = []
  delete key ((other, value) ∷ dict) =
      let rest = delete key dict in if key == other then rest else (other, value) ∷ rest

  unfoldable pub insert : String → V → Dict V → Dict V
  unfolding delete
  insert key value dict = (key, value) ∷ delete key dict

  pub lookup-delete :
      (gone key : String) (dict : Dict V)
      → lookup key (delete gone dict) ≡ (if gone == key then none else lookup key dict)
  unfolding lookup delete
  lookup-delete gone key [] = ground arith
  lookup-delete gone key ((other, value) ∷ dict) =
      ground
        (arith, eq_iff gone key, eq_iff gone other, eq_iff key other, lookup-delete gone key dict)

  pub lookup-insert :
      (new key : String) (value : V) (dict : Dict V)
      → lookup key (insert new value dict) ≡ (if new == key then some value else lookup key dict)
  unfolding lookup insert
  lookup-insert new key value dict =
      ground (arith, eq_iff new key, eq_iff key new, lookup-delete new key dict)
