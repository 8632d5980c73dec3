-- ===== src/Base/Int.antt =====
-- Signed integers over the native numbers, and division that rounds down, as `Math.floor` does.
use Prim.Native.Nat.{ℕ, suc, ◌+◌, ◌-◌, ◌*◌, ◌/◌, ◌≤◌, ◌<◌}
use mathlib.Core.Path.{◌≡◌, ap}
use mathlib.Core.Logic.{◌⊎◌}
use mathlib.Core.Bool.{Bool}
use native.Mathlib.Nat.{mul-le-mul_right}
use native.Mathlib.Omega.{arith}
use dca_protocol.Base.Tests.{ltb, leb, ◌==◌, if◌then◌else◌}

-- `negsuc n` is -(n + 1).
pub data ℤ : Type 0 where
  pos : ℕ → ℤ
  negsuc : ℕ → ℤ

abbrev pub pos_part : ℤ → ℕ
pos_part (pos n) = n
pos_part (negsuc n) = 0

abbrev pub neg_part : ℤ → ℕ
neg_part (pos n) = 0
neg_part (negsuc n) = suc n

-- a - b, as an integer.
abbrev pub sub_ℕ : ℕ → ℕ → ℤ
sub_ℕ a b = if leb b a then pos (a - b) else negsuc (b - a - 1)

infixl 65 ◌+ℤ◌ ◌-ℤ◌
infix 50 ◌≤ℤ◌ ◌<ℤ◌
unfoldable pub ◌+ℤ◌ : ℤ → ℤ → ℤ
a +ℤ b = sub_ℕ (pos_part a + pos_part b) (neg_part a + neg_part b)

unfoldable pub ◌-ℤ◌ : ℤ → ℤ → ℤ
a -ℤ b = sub_ℕ (pos_part a + neg_part b) (neg_part a + pos_part b)

-- a * n for a positive or zero n.
unfoldable pub scale : ℤ → ℕ → ℤ
scale a n = sub_ℕ (pos_part a * n) (neg_part a * n)

abbrev pub ◌≤ℤ◌ : ℤ → ℤ → Type 0
a ≤ℤ b = pos_part a + neg_part b ≤ pos_part b + neg_part a

abbrev pub ◌<ℤ◌ : ℤ → ℤ → Type 0
a <ℤ b = pos_part a + neg_part b < pos_part b + neg_part a

abbrev pub ltb_ℤ : ℤ → ℤ → Bool
ltb_ℤ a b = ltb (pos_part a + neg_part b) (pos_part b + neg_part a)

-- ⌊a / n⌋; a zero divisor gives 0 or -1, and every use states that n is positive.
unfoldable pub floor_div : ℤ → ℕ → ℤ
floor_div (pos a) n = pos (a / n)
floor_div (negsuc a) n = negsuc (a / n)

pub +ℤ_parts :
    (a b : ℤ)
    → pos_part (a +ℤ b) + neg_part a + neg_part b ≡ neg_part (a +ℤ b) + pos_part a + pos_part b
unfolding ◌+ℤ◌
+ℤ_parts a b = ground arith

pub -ℤ_parts :
    (a b : ℤ)
    → pos_part (a -ℤ b) + neg_part a + pos_part b ≡ neg_part (a -ℤ b) + pos_part a + neg_part b
unfolding ◌-ℤ◌
-ℤ_parts a b = ground arith

pub sub_ℕ_parts : (a b : ℕ) → pos_part (sub_ℕ a b) + b ≡ neg_part (sub_ℕ a b) + a
sub_ℕ_parts a b = ground arith

pub scale_parts :
    (a : ℤ) (n : ℕ) → pos_part (scale a n) + neg_part a * n ≡ neg_part (scale a n) + pos_part a * n
unfolding scale
scale_parts a n = ground (arith, sub_ℕ_parts (pos_part a * n) (neg_part a * n))

pub eq_of_parts : (a b : ℤ) → pos_part a + neg_part b ≡ pos_part b + neg_part a → a ≡ b
eq_of_parts a b h = ground arith

pub ruleset int_laws = (arith, +ℤ_parts, -ℤ_parts, scale_parts, sub_ℕ_parts, eq_of_parts)

-- a lies in the n numbers from ⌊a / n⌋ * n on.
pub floor_div_bounds :
    (a : ℤ) (n : ℕ)
    → 0 < n
    → (pos_part (floor_div a n) * n + neg_part a ≤ pos_part a + neg_part (floor_div a n) * n)
      × (pos_part a + neg_part (floor_div a n) * n < pos_part (floor_div a n) * n + n + neg_part a)
unfolding floor_div
floor_div_bounds (pos a) n h = grind arith
floor_div_bounds (negsuc a) n h = grind arith

scale_up_parts :
    (a : ℤ) (n : ℕ)
    → (pos_part (a +ℤ pos 1) * n + neg_part a * n ≡ neg_part (a +ℤ pos 1) * n + pos_part a * n + n)
scale_up_parts a n = omega (arith, ap (λ (t : ℕ). t * n) (+ℤ_parts a (pos 1)))

pub scale_up : (a : ℤ) (n : ℕ) → scale (a +ℤ pos 1) n ≡ scale a n +ℤ pos n
scale_up a n = omega (int_laws, scale_up_parts a n)

-- The rounded quotient is monotone.
pub floor_div_mono : (a b : ℤ) (n : ℕ) → 0 < n → a ≤ℤ b → floor_div a n ≤ℤ floor_div b n
unfolding floor_div
floor_div_mono (pos a) (pos b) n h le = grind arith
floor_div_mono (pos a) (negsuc b) n h le = absurd (omega arith)
floor_div_mono (negsuc a) (pos b) n h le = omega arith
floor_div_mono (negsuc a) (negsuc b) n h le = grind arith

pub scale_mono : (a b : ℤ) (n : ℕ) → a ≤ℤ b → scale a n ≤ℤ scale b n
scale_mono a b n le = omega (int_laws, scaled)
  where
    scaled : (pos_part a + neg_part b) * n ≤ (pos_part b + neg_part a) * n
    scaled = mul-le-mul_right n le

pub ≤ℤ_or_<ℤ : (a b : ℤ) → (a ≤ℤ b) ⊎ (b <ℤ a)
≤ℤ_or_<ℤ a b = omega arith

pub scale_up_mono : (a b : ℤ) (n : ℕ) → a <ℤ b → scale a n +ℤ pos n ≤ℤ scale b n
scale_up_mono a b n lt =
    rw (← scale_up a n) (scale_mono (a +ℤ pos 1) b n (omega (arith, +ℤ_parts a (pos 1))))

abbrev pub eqb_ℤ : ℤ → ℤ → Bool
eqb_ℤ a b = (pos_part a + neg_part b) == (pos_part b + neg_part a)
