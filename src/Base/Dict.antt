-- ===== src/Base/Dict.antt =====
-- A JavaScript `Map` with string keys, in insertion order.
use Prim.Native.String.{String}
use mathlib.Core.Path.{◌≡◌, refl}
use mathlib.Core.Bool.{Bool}
use mathlib.Core.List.{List, [], ◌∷◌}
use mathlib.Core.Option.{Option, none, some}
use native.Mathlib.Omega.{arith}
use dca_protocol.Base.Tests.{if◌then◌else◌, is_some}
use dca_protocol.Base.Text.{str_eq, eq_iff, eq_refl}

abbrev pub Dict {ℓ} : Type ℓ → Type ℓ
Dict V = List (String × V)

module _ {ℓ} {V : Type ℓ} where
  -- `m.get(key)`
  unfoldable pub lookup : String → Dict V → Option V
  lookup key [] = none
  lookup key (entry ∷ m) = if str_eq entry.0 key then some entry.1 else lookup key m

  -- `m.has(key)`
  abbrev pub has : String → Dict V → Bool
  has key m = is_some (lookup key m)

  -- `m.set(key, value)`: a key that is there keeps its place.
  unfoldable pub insert : String → V → Dict V → Dict V
  insert key value [] = (key, value) ∷ []
  insert key value (entry ∷ m) =
      if str_eq entry.0 key then (entry.0, value) ∷ m else entry ∷ insert key value m

  -- `m.delete(key)`
  unfoldable pub erase : String → Dict V → Dict V
  erase key [] = []
  erase key (entry ∷ m) = if str_eq entry.0 key then erase key m else entry ∷ erase key m

  pub lookup-erase :
      (key other : String) (m : Dict V)
      → lookup other (erase key m) ≡ (if str_eq key other then none else lookup other m)
  unfolding lookup erase
  lookup-erase key other [] = ground arith
  lookup-erase key other (entry ∷ m) =
      let at_key = eq_iff entry.0 key in
      let at_other = eq_iff entry.0 other in
      ground (arith, eq_iff key other, at_key, at_other, lookup-erase key other m)

  pub lookup-insert :
      (key other : String) (value : V) (m : Dict V)
      → lookup other (insert key value m)
        ≡ (if str_eq key other then some value else lookup other m)
  unfolding lookup insert
  lookup-insert key other value [] = refl
  lookup-insert key other value (entry ∷ m) =
      let at_key = eq_iff entry.0 key in
      let at_other = eq_iff entry.0 other in
      ground (arith, eq_iff key other, at_key, at_other, lookup-insert key other value m)

  pub lookup-insert_self :
      (key : String) (value : V) (m : Dict V) → lookup key (insert key value m) ≡ some value
  lookup-insert_self key value m = simp (lookup-insert, eq_refl)
