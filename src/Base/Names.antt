-- ===== src/Base/Names.antt =====
-- Lists of texts as sets.
use mathlib.Core.Path.{◌≡◌}
use mathlib.Core.Logic.{inl, inr}
use mathlib.Core.Bool.{true}
use mathlib.Core.List.{List, [], ◌∷◌}
use Prim.Native.String.{String}
use dca_protocol.Base.Tests.{Bool-cases}
use dca_protocol.Base.Lists.{any, In, here, there}
use dca_protocol.Base.Text.{str_eq, eq_iff}

-- `set.has(x)`
pub any-In : (x : String) (xs : List String) → any (str_eq x) xs ≡ true → In x xs
any-In x [] h = absurd (cc h)
any-In x (y ∷ ys) h = elim (Bool-cases (str_eq x y)) [
  | inl same ↦ here ((eq_iff x y).0 same)
  | inr other ↦ there (any-In x ys (rw other at h))
]
